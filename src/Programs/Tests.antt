-- ===== src/Programs/Tests.antt =====
-- Concrete programs and handlers: the results of the operations on them, and the theorems applied.
use korby_os.Base.{
  ℕ, zero, suc, ◌≡◌, refl, true, false, some, [], ◌∷◌, arith, get_elem?, get_or, ap,
}
use korby_os.Text.{IsText}
use korby_os.Programs.{
  Program, Programs, SyscallTable, is_running, next_pid, execute, quit, wait_for_program, has_id,
}
use korby_os.Programs.Pids.{IsNext, execute-IsNext}
use korby_os.Programs.Terminals.{
  Session, Registered, register_terminal, register_terminal-Registered,
}
use korby_os.Programs.Waiting.{Left, wait, awaited, watched, wait_for_program-quit}
use korby_os.Programs.Handlers.{NameIsNew}

abbrev desktop : Program
desktop = record { pid = 0; terminal_id = 0 }

abbrev editor : Program
editor = record { pid = 2; terminal_id = 1 }

abbrev two_programs : Programs
two_programs = record {
  running = editor ∷ desktop ∷ [];
  waiting = wait 0 64 ∷ [];
  flag = λ a. false;
}

next : next_pid 3 0 two_programs.running ≡ some 1
unfolding next_pid is_running
next = refl

editor_runs : is_running 2 two_programs.running ≡ true
unfolding is_running
editor_runs = refl

nobody_waits : awaited 2 two_programs.waiting ≡ false
unfolding awaited
nobody_waits = refl

nobody_watches : watched 72 two_programs.waiting ≡ false
unfolding watched
nobody_watches = refl

abbrev table : SyscallTable
table = record { handlers = 4096 ∷ 0 ∷ 0 ∷ []; ids = record { name = 97 ∷ []; id = 0 } ∷ [] }

name-IsText : IsText (98 ∷ [])
name-IsText = ((λ e. absurd (omega (arith, e))), _)

execute-IsNext_example :
    (pid : ℕ) × (execute (some editor) two_programs
      ≡ some (
        pid,
        record two_programs {
          running = record { pid = pid; terminal_id = 1 } ∷ two_programs.running;
        },
      ))
    × IsNext two_programs.running pid
execute-IsNext_example = execute-IsNext (some editor) two_programs (omega arith)

editor_first : is_running 2 [] ≡ false
unfolding is_running
editor_first = refl

wait_for_program-quit_example :
    Left [] (desktop ∷ []) 72 two_programs (quit 2 (wait_for_program 2 72 two_programs))
wait_for_program-quit_example =
    wait_for_program-quit [] editor (desktop ∷ []) 72 two_programs refl editor_first nobody_waits

one_name : NameIsNew (98 ∷ []) table.ids
one_name = (
  (((λ e. absurd (omega (arith, e))), _), (λ e. absurd (omega (arith, ap (λ l. get_or l 0 0) e)))),
  _,
)

free_is_clean : (id : ℕ) → get_elem? table.handlers id ≡ some 0 → has_id id table.ids ≡ false
unfolding has_id
free_is_clean zero e = absurd (ground (arith, e))
free_is_clean (suc id) e = ground arith

abbrev session : Session
session = record { functions = 4096 ∷ 4352 ∷ 0 ∷ []; ids = 0 ∷ 1 ∷ []; programs = two_programs }

desktop_runs : is_running 0 two_programs.running ≡ true
unfolding is_running
desktop_runs = refl

register_terminal-Registered_example :
    (t : Session) × (register_terminal 8192 0 session ≡ some t) × Registered 8192 0 session t
register_terminal-Registered_example =
    register_terminal-Registered 8192 0 session (λ e. omega (arith, e)) desktop_runs refl
      (omega arith)
