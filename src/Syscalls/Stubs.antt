-- ===== src/Syscalls/Stubs.antt =====
-- The stubs and the kernel agree on the codes and on the registers.
use korby_os.Base.{ℕ, ◌<◌, ◌^◌, ◌≡◌, refl, ap, List, arith}
use korby_os.Syscalls.{SystemCall, Registers, stub, kernel, kernel_calls, syscall_handle}

-- The arguments that are narrower than a register are in the range of their type.
abbrev pub InRange : SystemCall → Type 0
InRange (SystemCall.get_files root count recursive) = recursive < 2 ^ 8
InRange (SystemCall.unregister_syscall_handler id) = id < 2 ^ 8
InRange (SystemCall.create_connection port) = port < 2 ^ 16
InRange _ = Unit {0}

-- Whatever the registers held before and whatever handlers are registered, the stub of a call
-- makes the kernel run the function of that call with the arguments of the call.
pub syscall_handle-stub :
    (c : SystemCall) (r : Registers) (handlers : List ℕ)
    → InRange c
    → syscall_handle handlers (stub r c) ≡ kernel c
unfolding syscall_handle stub kernel_calls
syscall_handle-stub (SystemCall.get_files root count recursive) r handlers h =
    ap (λ a. kernel (SystemCall.get_files root count a)) (omega arith)
syscall_handle-stub (SystemCall.unregister_syscall_handler id) r handlers h =
    ap (λ a. kernel (SystemCall.unregister_syscall_handler a)) (omega arith)
syscall_handle-stub (SystemCall.create_connection port) r handlers h =
    ap (λ a. kernel (SystemCall.create_connection a)) (omega arith)
syscall_handle-stub _ r handlers h = refl
