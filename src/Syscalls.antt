-- ===== src/Syscalls.antt =====
-- The system call interface: the stubs of src/program.h, which programs are compiled with, and
-- `syscallHandle` of src/main.c, which the interrupt 0x80 enters with the same registers.
--
-- A pointer argument is its address. What the kernel's function of a call does is modelled in the
-- other modules.
pub mod Registered
pub mod Stubs
mod Tests
use korby_os.Base.{
  ℕ, zero, suc, ◌+◌, ◌-◌, ◌%◌, List, [], ◌∷◌, ◌++◌, u8, u16, get_or, replicate, drop,
}

-- The functions of the kernel with their arguments, in the order of their codes.
pub data SystemCall : Type 0 where
  execute : ℕ → SystemCall
  quit : SystemCall
  allocate : ℕ → SystemCall
  unallocate : ℕ → SystemCall
  write_file : ℕ → ℕ → SystemCall
  read_file : ℕ → ℕ → SystemCall
  check_file : ℕ → SystemCall
  check_folder : ℕ → SystemCall
  delete_file : ℕ → SystemCall
  get_files : ℕ → ℕ → ℕ → SystemCall
  get_cores : SystemCall
  add_key_call : ℕ → SystemCall
  remove_key_call : ℕ → SystemCall
  add_move_call : ℕ → SystemCall
  remove_move_call : ℕ → SystemCall
  add_click_call : ℕ → SystemCall
  remove_click_call : ℕ → SystemCall
  register_syscall_handler : ℕ → ℕ → SystemCall
  get_registered_syscall : ℕ → SystemCall
  unregister_syscall_handler : ℕ → SystemCall
  register_terminal : ℕ → SystemCall
  print : ℕ → SystemCall
  unregister_terminal : SystemCall
  get_display_info : ℕ → SystemCall
  wait_for_program : ℕ → ℕ → SystemCall
  cancel_wait : ℕ → SystemCall
  get_used_ram : SystemCall
  get_ip_info : ℕ → SystemCall
  create_connection : ℕ → SystemCall
  close_connection : ℕ → SystemCall

-- The registers that carry the code and the arguments.
pub record Registers : Type 0 where
  pub rdi : ℕ
  pub rsi : ℕ
  pub rdx : ℕ
  pub rcx : ℕ
  pub r8 : ℕ
  pub r9 : ℕ

-- What the instructions of a stub move into the registers before `int $0x80`.
module _ (r : Registers) where
  abbrev code0 : ℕ → Registers
  code0 code = record r { rdi = code }

  abbrev code1 : ℕ → ℕ → Registers
  code1 code a = record r { rdi = code; rsi = a }

  abbrev code2 : ℕ → ℕ → ℕ → Registers
  code2 code a b = record r { rdi = code; rsi = a; rdx = b }

  unfoldable pub stub : SystemCall → Registers
  stub (execute file) = code1 0 file
  stub quit = code0 1
  stub (allocate amount) = code1 2 amount
  stub (unallocate pointer) = code1 3 pointer
  stub (write_file name size) = code2 4 name size
  stub (read_file name size) = code2 5 name size
  stub (check_file name) = code1 6 name
  stub (check_folder name) = code1 7 name
  stub (delete_file name) = code1 8 name
  stub (get_files root count recursive) = record (code2 9 root count) { rcx = recursive }
  stub get_cores = code0 10
  stub (add_key_call call) = code1 11 call
  stub (remove_key_call item) = code1 12 item
  stub (add_move_call call) = code1 13 call
  stub (remove_move_call item) = code1 14 item
  stub (add_click_call call) = code1 15 call
  stub (remove_click_call item) = code1 16 item
  stub (register_syscall_handler name handler) = code2 17 name handler
  stub (get_registered_syscall name) = code1 18 name
  stub (unregister_syscall_handler id) = code1 19 id
  stub (register_terminal function) = code1 20 function
  stub (print message) = code1 21 message
  stub unregister_terminal = code0 22
  stub (get_display_info display) = code1 23 display
  stub (wait_for_program pid done) = code2 24 pid done
  stub (cancel_wait done) = code1 25 done
  stub get_used_ram = code0 26
  stub (get_ip_info info) = code1 27 info
  stub (create_connection port) = code1 28 port
  stub (close_connection connection) = code1 29 connection

-- What `syscallHandle` calls: a function of the kernel, or the handler at an address with five
-- arguments.
pub data Target : Type 0 where
  kernel : SystemCall → Target
  handler : ℕ → List ℕ → Target

-- The 30 cases in order, with the casts to the narrower types.
unfoldable pub kernel_calls : Registers → List SystemCall
kernel_calls r =
    execute r.rsi
    ∷ quit
    ∷ allocate r.rsi
    ∷ unallocate r.rsi
    ∷ write_file r.rsi r.rdx
    ∷ read_file r.rsi r.rdx
    ∷ check_file r.rsi
    ∷ check_folder r.rsi
    ∷ delete_file r.rsi
    ∷ get_files r.rsi r.rdx (u8 r.rcx)
    ∷ get_cores
    ∷ add_key_call r.rsi
    ∷ remove_key_call r.rsi
    ∷ add_move_call r.rsi
    ∷ remove_move_call r.rsi
    ∷ add_click_call r.rsi
    ∷ remove_click_call r.rsi
    ∷ register_syscall_handler r.rsi r.rdx
    ∷ get_registered_syscall r.rsi
    ∷ unregister_syscall_handler (u8 r.rsi)
    ∷ register_terminal r.rsi
    ∷ print r.rsi
    ∷ unregister_terminal
    ∷ get_display_info r.rsi
    ∷ wait_for_program r.rsi r.rdx
    ∷ cancel_wait r.rsi
    ∷ get_used_ram
    ∷ get_ip_info r.rsi
    ∷ create_connection (u16 r.rsi)
    ∷ close_connection r.rsi
    ∷ []

-- The switch of `syscallHandle`: a case for each of the codes, and the default.
pick : ℕ → List SystemCall → Target → Target
pick code [] default = default
pick zero (c ∷ cases) default = kernel c
pick (suc code) (c ∷ cases) default = pick code cases default

-- `syscallHandle` with the table `syscallHandlers`; a code behind the table reads a NULL here.
unfoldable pub syscall_handle : List ℕ → Registers → Target
unfolding pick
syscall_handle handlers r =
    pick r.rdi (kernel_calls r)
      (handler (get_or handlers r.rdi 0) (r.rsi ∷ r.rdx ∷ r.rcx ∷ r.r8 ∷ r.r9 ∷ []))

-- What `start` writes into the table first: the codes of the kernel are not free.
unfoldable pub fill_handlers : List ℕ → List ℕ
fill_handlers handlers = replicate 30 1 ++ drop 30 handlers
