-- ===== src/Console/Lines.antt =====
-- A line that was typed into the desktop's terminal: it changes the directory, prints, or starts a
-- program that the terminal then waits for.
use korby_os.Base.{
  sym, subst, Bool-cases, bound, bind-some, ℕ, ◌-◌, ◌^◌, ◌≤◌, ◌<◌, ◌≡◌, ◌⊎◌, inl, inr, refl, ap,
  ◌∙◌, true, false, Option, none, some, [], ◌∷◌, ◌++◌, ◌==◌, if◌then◌else◌, ltb, drop, length,
  length-append, if_yes, if_no, if_both, arith, ◌>>=◌,
}
use korby_os.Console.{Console, is_done, clear_flag, start_child, console_line}
use korby_os.Files.{check_file}
use korby_os.Programs
use korby_os.Programs.{
  Program, WaitingProgram, is_running, terminal_of, execute, wait_for_program, cancel_wait,
}
use korby_os.Programs.Waiting.{awaited, notify-first}
use korby_os.Programs.Pids.{execute-IsNext}
use korby_os.Shell.{print, not_executable, ends_in_bin}
use korby_os.Shell.Paths.{IsPath, IsPath-typed}
use korby_os.Shell.Rounds.{run_command-Runs, check_folder-slash}
use korby_os.Terminal.Print.{terminal_print-Same}
use korby_os.Text.{Text, EfiText}

-- A program runs, and when it quits the flag of the terminal is set.
pub record Awaits (c : Console) : Type 0 where
  pub running : c.running ≡ true
  pub lowered : is_done c ≡ false
  pub pid : ℕ
  pub runs : is_running pid c.programs.running ≡ true
  pub ends : (Programs.quit pid c.programs).flag c.done ≡ true

-- Between two lines: a path, nothing that is typed, and either the flag or what will set it.
pub record Ready (c : Console) : Type 0 where
  pub path : IsPath c.shell.directory
  pub idle : c.shell.terminal.typing ≡ false
  pub settled : (is_done c ≡ true) ⊎ Awaits c

-- What the `start` of a program leaves: the directory, the flag's address and what says that a program
-- runs and that nothing is typed; and nobody waits for the program from then on.
pub record Leaves (start : ℕ → Console → Console) : Type 0 where
  pub directory : (pid : ℕ) (c : Console) → (start pid c).shell.directory ≡ c.shell.directory
  pub typing :
      (pid : ℕ) (c : Console) → (start pid c).shell.terminal.typing ≡ c.shell.terminal.typing
  pub running : (pid : ℕ) (c : Console) → (start pid c).running ≡ c.running
  pub done : (pid : ℕ) (c : Console) → (start pid c).done ≡ c.done
  pub unawaited :
      (pid : ℕ) (c : Console)
      → awaited pid c.programs.waiting ≡ false
      → awaited pid (start pid c).programs.waiting ≡ false

-- Nobody waits for a program that does not run.
abbrev pub NoneStale : Programs.Programs → Type 0
NoneStale s = (pid : ℕ) → is_running pid s.running ≡ false → awaited pid s.waiting ≡ false

-- Behind `waitForProgram` the flag is set, or it will be when the program quits.
wait_for_program-settled :
    (pid done : ℕ) (s : Programs.Programs)
    → awaited pid s.waiting ≡ false
    → ((wait_for_program pid done s).flag done ≡ true)
      ⊎ (((wait_for_program pid done s).flag done ≡ false)
          × (is_running pid (wait_for_program pid done s).running ≡ true)
          × ((Programs.quit pid (wait_for_program pid done s)).flag done ≡ true))
unfolding wait_for_program Programs.quit
wait_for_program-settled pid done s unawaited =
    (let hit : (done == done) ≡ true = ground arith in
      if_both
        (λ (t : Programs.Programs).
          (t.flag done ≡ true)
          ⊎ ((t.flag done ≡ false)
              × (is_running pid t.running ≡ true)
              × ((Programs.quit pid t).flag done ≡ true)))
        (is_running pid s.running)
        (λ runs. elim (Bool-cases (s.flag done)) [
          | inl set ↦ inl set
          | inr lowered ↦ inr (
            lowered,
            runs,
            ap (λ r. r.1 done) (notify-first pid done s.waiting [] s.flag unawaited)
                ∙ if_yes {b = done == done} true (s.flag done) hit,
          )
        ])
        (λ _. inl (if_yes {b = done == done} true (s.flag done) hit)))

start_child-Ready :
    (start : ℕ → Console → Console) (c : Console)
    → Leaves start
    → IsPath c.shell.directory
    → c.shell.terminal.typing ≡ false
    → NoneStale c.programs
    → length c.programs.running < 2 ^ 64
    → (d : Console) × (start_child start c ≡ some d) × Ready d
unfolding start_child
start_child-Ready start c leaves path idle fresh few =
    (let flagged : Programs.Programs = record c.programs {
      flag = clear_flag c.done c.programs.flag;
    } in
      let (pid, executes, next) = execute-IsNext (some c.self) flagged few in
      let child : Program = record { pid = pid; terminal_id = terminal_of (some c.self) } in
      let grown : Console = record c {
        running = true;
        programs = record flagged { running = child ∷ flagged.running };
      } in
      let d : Console = start pid grown in
      let waits : Programs.Programs = wait_for_program pid c.done d.programs in
      let u : Console = record d { programs = waits } in
      let at : d.done ≡ c.done = leaves.done pid grown in
      let unawaited = leaves.unawaited pid grown (fresh pid next.unused) in
      (
        u,
        bind-some _ executes refl,
        record {
          path = subst IsPath (sym (leaves.directory pid grown)) path;
          idle = leaves.typing pid grown ∙ idle;
          settled = elim (wait_for_program-settled pid c.done d.programs unawaited) [
            | inl set ↦ inl (ap waits.flag at ∙ set)
            | inr (lowered, runs, ends) ↦ inr (record {
              running = leaves.running pid grown;
              lowered = ap waits.flag at ∙ lowered;
              pid = pid;
              runs = runs;
              ends = ap (Programs.quit pid waits).flag at ∙ ends;
            })
          ];
        },
      ))

module _ (efi : EfiText) (value_to_string : ℕ → Text) (start : ℕ → Console → Console)
    (leaves : Leaves start) (c : Console) (path : IsPath c.shell.directory)
    (idle : c.shell.terminal.typing ≡ false) (done : is_done c ≡ true)
    (fresh : NoneStale c.programs) (few : length c.programs.running < 2 ^ 64) where
  abbrev Readies : Option Console → Type 0
  Readies o = (d : Console) × (o ≡ some d) × Ready d

  start_program-Ready :
      (file : Text)
      → 4 ≤ length file
      → Readies (
          ends_in_bin efi file >>= λ program.
          if program
          then start_child start c
          else some (record c { shell = print not_executable c.shell }))
  unfolding ends_in_bin
  start_program-Ready file long =
      (let program =
          efi.str_cmp (drop (length file - 4) file) (b'.' ∷ b'b' ∷ b'i' ∷ b'n' ∷ []) == 0 in
        bound Readies _ (if_no {b = ltb (length file) 4} none (some program) (ground arith)) (
          if_both Readies program (λ _. start_child-Ready start c leaves path idle fresh few)
            (λ _. (
              _,
              refl,
              record {
                path = path;
                idle = (terminal_print-Same not_executable c.shell.terminal).typing ∙ idle;
                settled = inl done;
              },
            ))))

  pub console_line-Ready :
      (used : ℕ) (typed : Text)
      → (check_file efi (c.shell.directory ++ typed) c.shell.files ≡ true
          → 4 ≤ length (c.shell.directory ++ typed))
      → Readies (console_line efi value_to_string start used typed c)
  unfolding console_line
  console_line-Ready used typed long =
      (let size = efi.str_len_lem typed in
        let file = c.shell.directory ++ typed in
        if_both Readies (efi.str_len typed == 0)
          (λ _. (c, refl, record { path = path; idle = idle; settled = inl done }))
          (λ given.
            if_both Readies (check_file efi file c.shell.files)
              (λ found. start_program-Ready file (long found))
              (λ _.
                let full : 0 < length typed = ground (arith, given, size) in
                let (folder, checks, slash_end) =
                  check_folder-slash efi value_to_string c.shell path file
                    (omega (arith, full, size, length-append c.shell.directory typed)) in
                bound Readies _ checks (
                  if_both Readies folder
                    (λ is. (
                      _,
                      refl,
                      record {
                        path = IsPath-typed c.shell.directory typed path full (slash_end is);
                        idle = idle;
                        settled = inl done;
                      },
                    ))
                    (λ _.
                      let (s, runs, ran) =
                        run_command-Runs efi value_to_string c.shell path used typed in
                      (
                        record c { shell = s },
                        bind-some _ runs refl,
                        record { path = ran.path; idle = ran.typing ∙ idle; settled = inl done },
                      ))))))
