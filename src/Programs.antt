-- ===== src/Programs.antt =====
-- The programs of src/main.c and their system calls: `execute`, `quit`, `waitForProgram` and
-- `cancelWait`, and the table of system call handlers.
--
-- The lists are given by their entries; their nodes in memory are those of `ItemList`. A function is
-- its address, and 0 is NULL. The blocks for the nodes and for the program itself are left out.
pub mod Pids
pub mod Waiting
pub mod Handlers
pub mod Terminals
mod Tests
use korby_os.Base.{
  ℕ, zero, suc, ◌+◌, ◌-◌, Bool, true, false, not, ◌&&◌, ◌||◌, Option, none, some, List, [], ◌∷◌,
  ◌++◌, ◌==◌, if◌then◌else◌, u8, u64, ◌>>=◌, length, get_or, set,
}
use korby_os.Text.{Text, EfiText}

pub record Program : Type 0 where
  pub pid : ℕ
  pub terminal_id : ℕ

-- The address of the flag that a waiting program watches.
pub record WaitingProgram : Type 0 where
  pub waiting_pid : ℕ
  pub done : ℕ

pub record Programs : Type 0 where
  pub running : List Program
  pub waiting : List WaitingProgram
  pub flag : ℕ → Bool

-- A walk over `running` that stops at the first program with the pid.
unfoldable pub is_running : ℕ → List Program → Bool
is_running pid [] = false
is_running pid (p ∷ rest) = if pid == p.pid then true else is_running pid rest

-- The loop of `execute`, which starts again with the next pid when one is in use, on fuel.
unfoldable pub next_pid : ℕ → ℕ → List Program → Option ℕ
next_pid zero pid running = none
next_pid (suc fuel) pid running = elim (is_running pid running) [
  | true ↦ next_pid fuel (u64 (pid + 1)) running
  | false ↦ some pid
]

-- `currentProgram ? currentProgram->terminalId : 0`.
abbrev pub terminal_of : Option Program → ℕ
terminal_of none = 0
terminal_of (some p) = p.terminal_id

-- What `execute` does to the list: the new program is the first, with the terminal of the program
-- that runs it, or 0.
unfoldable pub execute : Option Program → Programs → Option (ℕ × Programs)
execute current s = next_pid (suc (length s.running)) 0 s.running >>= λ pid. some (
  pid,
  record s { running = record { pid = pid; terminal_id = terminal_of current } ∷ s.running },
)

abbrev pub raise : ℕ → (ℕ → Bool) → ℕ → Bool
raise d flag a = if a == d then true else flag a

-- `removeItem` of the running program, which is the entry with its pid.
unfoldable pub remove_program : ℕ → List Program → List Program
remove_program pid [] = []
remove_program pid (p ∷ rest) = if p.pid == pid then rest else p ∷ remove_program pid rest

-- The loop of `quit`: the flag of the first program that waits is set, and its entry is removed.
unfoldable pub notify : ℕ → List WaitingProgram → (ℕ → Bool) → List WaitingProgram × (ℕ → Bool)
notify pid [] flag = ([], flag)
notify pid (w ∷ rest) flag =
    let later = notify pid rest flag in
    if w.waiting_pid == pid then (rest, raise w.done flag) else (w ∷ later.0, later.1)

unfoldable pub quit : ℕ → Programs → Programs
quit pid s =
    let told = notify pid s.waiting s.flag in
    record { running = remove_program pid s.running; waiting = told.0; flag = told.1 }

unfoldable pub wait_for_program : ℕ → ℕ → Programs → Programs
wait_for_program pid done s =
    if is_running pid s.running
    then record s { waiting = s.waiting ++ record { waiting_pid = pid; done = done } ∷ [] }
    else record s { flag = raise done s.flag }

-- The loop of `cancelWait`, which goes on after an entry that it removes.
unfoldable pub drop_waits : ℕ → List WaitingProgram → List WaitingProgram
drop_waits done [] = []
drop_waits done (w ∷ rest) =
    let later = drop_waits done rest in if w.done == done then later else w ∷ later

unfoldable pub cancel_wait : ℕ → Programs → Programs
cancel_wait done s = record s { waiting = drop_waits done s.waiting }

pub record Syscall : Type 0 where
  pub name : Text
  pub id : ℕ

-- `syscallHandlers`, an array of 256, and `syscallIds`.
pub record SyscallTable : Type 0 where
  pub handlers : List ℕ
  pub ids : List Syscall

-- The first NULL of the array. Where there is none the index of `uint8_t` goes around for ever.
unfoldable pub free_id : ℕ → List ℕ → Option ℕ
free_id id [] = none
free_id id (h ∷ rest) = if h == 0 then some id else free_id (id + 1) rest

unfoldable pub register_syscall_handler : Text → ℕ → SyscallTable → Option (ℕ × SyscallTable)
register_syscall_handler name handler s = free_id 0 s.handlers >>= λ id. some (
  id,
  record {
    handlers = set s.handlers id handler;
    ids = s.ids ++ record { name = name; id = id } ∷ [];
  },
)

module _ (efi : EfiText) where
  unfoldable pub get_registered_syscall : Text → List Syscall → ℕ
  get_registered_syscall name [] = 0
  get_registered_syscall name (s ∷ rest) =
      if efi.str_cmp name s.name == 0 then s.id else get_registered_syscall name rest

unfoldable pub drop_ids : ℕ → List Syscall → List Syscall
drop_ids id [] = []
drop_ids id (s ∷ rest) = let later = drop_ids id rest in if s.id == id then later else s ∷ later

unfoldable pub has_id : ℕ → List Syscall → Bool
has_id id [] = false
has_id id (s ∷ rest) = (s.id == id) || has_id id rest

-- The loop of `unregisterSyscallHandler`: the handler is cleared when an entry has the id.
unfoldable pub unregister_syscall_handler : ℕ → SyscallTable → SyscallTable
unregister_syscall_handler id s =
    if has_id id s.ids
    then record { handlers = set s.handlers id 0; ids = drop_ids id s.ids }
    else s
