-- ===== src/Console.antt =====
-- The terminal program of the desktop, src/programs/desktop/taskbar/terminal/program.c: `keyPress` and
-- `update`.
--
-- The screen, the editing of a line and the commands are those of the kernel's terminal, whose code it
-- repeats; its screen is the window's. Of the fields of `Shell` it has neither the programs nor the
-- pid: it learns that a program has ended by the flag `done`. `print` leads to `terminalPrint`, since
-- `start` registers it. The blocks of the strings are left out, and what `unallocateWindow` and
-- `unregisterTerminal` do to the desktop and to the kernel.
pub mod Lines
pub mod Rounds
pub mod Typed
mod Tests
use korby_os.Base.{
  ℕ, zero, suc, Bool, true, false, not, ◌&&◌, ◌||◌, Option, none, some, List, [], ◌∷◌, ◌++◌, ◌==◌,
  if◌then◌else◌, ◌>>=◌,
}
use korby_os.Desktop.{Event, quit, key, click, move}
use korby_os.Files.{File, check_file, check_folder}
use korby_os.Programs
use korby_os.Programs.{Program, Programs, execute, wait_for_program, cancel_wait}
use korby_os.Shell.{Shell, text_of, print, ends_in_bin, not_executable, run_command}
use korby_os.Terminal.{Terminal, prompt, type_key}
use korby_os.Text.{Text, EfiText}

-- `done` is the flag's address, and `events` the list of the window.
pub record Console : Type 0 where
  pub shell : Shell
  pub programs : Programs
  pub self : Program
  pub running : Bool
  pub done : ℕ
  pub events : List Event

abbrev pub set_terminal : Terminal → Console → Console
set_terminal t c = record c { shell = record c.shell { terminal = t } }

abbrev pub is_done : Console → Bool
is_done c = c.programs.flag c.done

-- `keyPress`.
unfoldable pub console_key : ℕ → Bool → Console → Option Console
console_key scancode pressed c =
    if c.shell.terminal.typing
    then (type_key scancode pressed c.shell.terminal >>= λ t. some (set_terminal t c))
    else some c

-- One event: whether the window was closed, and the rest.
unfoldable pub console_event : Event → Bool × Console → Option (Bool × Console)
console_event quit (exiting, c) = some (true, c)
console_event (key scancode pressed) (exiting, c) =
    console_key scancode pressed c >>= λ d. some (exiting, d)
console_event (click left pressed) r = some r
console_event (move x y) r = some r

-- The loop, which removes each event.
unfoldable pub console_events : List Event → Bool × Console → Option (Bool × Console)
console_events [] (exiting, c) = some (exiting, record c { events = [] })
console_events (e ∷ events) r = console_event e r >>= console_events events

-- `done = FALSE;`
abbrev pub clear_flag : ℕ → (ℕ → Bool) → ℕ → Bool
clear_flag d flag a = if a == d then false else flag a

-- `execute` calls the program's own `start`, whose effect on the terminal and the lists of programs is
-- an argument.
unfoldable pub start_child : (ℕ → Console → Console) → Console → Option Console
start_child start c =
    execute (some c.self) (record c.programs { flag = clear_flag c.done c.programs.flag }) >>= λ r.
    (let d : Console = start r.0 (record c { running = true; programs = r.1 }) in
      some (record d { programs = wait_for_program r.0 c.done d.programs }))

-- The prompt.
unfoldable pub console_prompt : Console → Console
console_prompt c =
    if not c.shell.terminal.typing && is_done c
    then record c {
      running = false;
      shell = record c.shell { terminal = prompt c.shell.directory c.shell.terminal };
    }
    else c

module _ (efi : EfiText) (value_to_string : ℕ → Text) (start : ℕ → Console → Console) where
  unfoldable pub console_line : ℕ → Text → Console → Option Console
  console_line used typed c =
      if efi.str_len typed == 0
      then some c
      else (let path = c.shell.directory ++ typed in
          if check_file efi path c.shell.files
          then (ends_in_bin efi path >>= λ program.
              if program
              then start_child start c
              else some (record c { shell = print not_executable c.shell }))
          else (check_folder efi path c.shell.files >>= λ folder.
              if folder
              then some (record c { shell = record c.shell { directory = path } })
              else (run_command efi value_to_string used typed c.shell >>= λ s.
                  some (record c { shell = s }))))

  -- `update` behind the loop, where the flag says whether the window was closed, and at the end whether
  -- the program has ended.
  unfoldable pub console_rest : ℕ → Bool × Console → Option (Bool × Console)
  console_rest used (exiting, d) =
      (if not d.shell.terminal.typing && not d.running
        then console_line used (text_of d.shell.terminal.typing_buffer) d
        else some d)
      >>= λ e.
          let f : Console = console_prompt e in
          some (
            exiting,
            (if exiting
                then record f {
                  programs = Programs.quit f.self.pid (cancel_wait f.done f.programs);
                }
                else f),
          )

  unfoldable pub console_update : ℕ → Console → Option (Bool × Console)
  console_update used c = console_events c.events (false, c) >>= console_rest used
