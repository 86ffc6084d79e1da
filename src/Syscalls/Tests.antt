-- ===== src/Syscalls/Tests.antt =====
-- Concrete system calls: what the kernel runs for them, and the theorems applied.
use korby_os.Base.{ℕ, ◌≡◌, refl, some, [], ◌∷◌, arith, replicate}
use korby_os.Text.Example.{efi}
use korby_os.Programs.{SyscallTable, register_syscall_handler, get_registered_syscall}
use korby_os.Syscalls.{
  SystemCall, Registers, stub, kernel, handler, kernel_calls, syscall_handle, fill_handlers,
}
use korby_os.Syscalls.Stubs.{syscall_handle-stub}
use korby_os.Syscalls.Registered.{
  Reserved, fill_handlers-Reserved, register_syscall_handler-syscall_handle,
}

abbrev before : Registers
before = record { rdi = 7; rsi = 7; rdx = 7; rcx = 7; r8 = 7; r9 = 7 }

recursive_byte :
    syscall_handle [] (record before { rdi = 9; rcx = 0x101 }) ≡ kernel (SystemCall.get_files 7 7 1)
unfolding syscall_handle kernel_calls
recursive_byte = refl

syscall_handle-stub_example :
    syscall_handle (1 ∷ 1 ∷ []) (stub before (SystemCall.get_files 4096 8192 1))
    ≡ kernel (SystemCall.get_files 4096 8192 1)
syscall_handle-stub_example =
    syscall_handle-stub (SystemCall.get_files 4096 8192 1) before (1 ∷ 1 ∷ []) (omega arith)

abbrev table : SyscallTable
table = record { handlers = fill_handlers (replicate 40 0); ids = [] }

register_syscall_handler-syscall_handle_example :
    (id : ℕ) × (s' : SyscallTable) × (register_syscall_handler (98 ∷ []) 8192 table ≡ some (id, s'))
    × Reserved s'.handlers
    × ((r : Registers)
        → r.rdi ≡ get_registered_syscall efi (98 ∷ []) s'.ids
        → syscall_handle s'.handlers r ≡ handler 8192 (r.rsi ∷ r.rdx ∷ r.rcx ∷ r.r8 ∷ r.r9 ∷ []))
unfolding fill_handlers
register_syscall_handler-syscall_handle_example =
    register_syscall_handler-syscall_handle efi (98 ∷ []) 8192 table
      (fill_handlers-Reserved (replicate 40 0)) refl ((λ e. absurd (omega (arith, e))), _) _
      (λ e. absurd (omega (arith, e)))
