-- ===== src/Shell/Rounds.antt =====
-- The lines that the terminal runs: they never leave a string, keep the directory a path, and end in
-- a prompt or in a program that runs for the terminal.
use korby_os.Base.{
  if◌then◌else◌, bound, bind-some, ℕ, ◌-◌, ◌^◌, ◌≤◌, ◌<◌, ◌≡◌, ◌⊎◌, inl, inr, refl, sym, ap, subst,
  ◌∙◌, Bool, true, false, not, ◌&&◌, Option, none, some, List, [], ◌∷◌, ◌++◌, ◌==◌, ltb, drop,
  length, length-append, if_no, if_both, arith, ◌>>=◌,
}
use korby_os.Files.{File, check_file, check_folder}
use korby_os.Programs.{is_running}
use korby_os.Programs.Pids.{execute-IsNext}
use korby_os.Shell.{
  Shell, print, print_names, clear, print_usage, print_address, print_ip, is_command, ends_in_bin,
  run_program, run_command, run_line, shell_round, end_round, text_of, parent, no_program,
}
use korby_os.Shell.Parent.{slash}
use korby_os.Shell.Paths.{IsPath, parent-IsPath, IsPath-typed}
use korby_os.Net.{Ip}
use korby_os.Terminal.Glyphs.{glyphs, printed, prompt-glyphs}
use korby_os.Terminal.Print.{terminal_print-Same}
use korby_os.Terminal.{Terminal, prompt}
use korby_os.Text.{Text, EfiText, unit_at}

-- What a line leaves: the directory is a path, and a line is typed or not as before.
pub record Ran (s t : Shell) : Type 0 where
  pub path : IsPath t.directory
  pub typing : t.terminal.typing ≡ s.terminal.typing

-- A result, and what is left.
abbrev pub Runs : Shell → Option Shell → Type 0
Runs s o = (t : Shell) × (o ≡ some t) × Ran s t

print-Ran : (message : Text) (s t : Shell) → Ran s t → Ran s (print message t)
print-Ran message s t r = record {
  path = r.path;
  typing = (terminal_print-Same message t.terminal).typing ∙ r.typing;
}

print_names-Ran :
    (n : ℕ) (files : List File) (s t : Shell) → Ran s t → Ran s (print_names n files t)
unfolding print_names
print_names-Ran n [] s t r = r
print_names-Ran n (f ∷ files) s t r =
    print_names-Ran n files s _ (print-Ran _ s _ (print-Ran _ s t r))

-- What the programs' own code leaves of the terminal's state.
pub record Keeps (updates : Shell → Shell) : Type 0 where
  pub typing : (s : Shell) → (updates s).terminal.typing ≡ s.terminal.typing
  pub directory : (s : Shell) → (updates s).directory ≡ s.directory

module _ (efi : EfiText) (value_to_string : ℕ → Text) (s : Shell) (path : IsPath s.directory) where
  unchanged : Ran s s
  unchanged = record { path = path; typing = refl }

  print_usage-Ran : (used : ℕ) → Ran s (print_usage efi value_to_string used s)
  unfolding print_usage
  print_usage-Ran used =
      print-Ran _ s _
        (print-Ran _ s _ (print-Ran _ s _ (print-Ran _ s _ (print-Ran _ s _ unchanged))))

  print_address-Ran : (a : Ip) (t : Shell) → Ran s t → Ran s (print_address efi value_to_string a t)
  unfolding print_address
  print_address-Ran a t r = print-Ran _ s _ (
      print-Ran _ s _
        (print-Ran _ s _ (print-Ran _ s _ (print-Ran _ s _ (print-Ran _ s _ (print-Ran _ s _ r))))))

  print_ip-Ran : Ran s (print_ip efi value_to_string s)
  unfolding print_ip
  print_ip-Ran = print-Ran _ s _ (
      print_address-Ran s.dns _
        (print-Ran _ s _ (print_address-Ran s.ip _ (print-Ran _ s _ unchanged))))

  parent-Runs : Runs s (parent s.directory >>= λ d. some (record s { directory = d }))
  parent-Runs =
      (let (u, leads, path') = parent-IsPath s.directory path in
        (
          record s { directory = u },
          bind-some _ leads refl,
          record { path = path'; typing = refl },
        ))

  pub run_command-Runs :
      (used : ℕ) (typed : Text) → Runs s (run_command efi value_to_string used typed s)
  unfolding run_command clear
  run_command-Runs used typed =
      if_both (Runs s) (is_command efi value_to_string typed _)
        (λ _. (_, refl, record { path = path; typing = refl }))
        (λ _.
          if_both (Runs s) (is_command efi value_to_string typed _)
            (λ _. (_, refl, print_names-Ran (length s.directory) _ s s unchanged))
            (λ _.
              if_both (Runs s) (is_command efi value_to_string typed _) (λ _. parent-Runs)
                (λ _.
                  if_both (Runs s) (is_command efi value_to_string typed _)
                    (λ _. (_, refl, print_usage-Ran used))
                    (λ _.
                      if_both (Runs s) (is_command efi value_to_string typed _)
                        (λ _. (_, refl, print_ip-Ran))
                        (λ _. (_, refl, print-Ran _ s s unchanged))))))

  run_program-Runs :
      (start : ℕ → Shell → Shell) (file : Text)
      → ((pid : ℕ) → Keeps (start pid))
      → 4 ≤ length file
      → length s.programs.running < 2 ^ 64
      → Runs s (run_program efi start file s)
  unfolding run_program ends_in_bin
  run_program-Runs start file keeps long few =
      (let (pid, executes, _) = execute-IsNext none s.programs few in
        let program =
          efi.str_cmp (drop (length file - 4) file) (b'.' ∷ b'b' ∷ b'i' ∷ b'n' ∷ []) == 0 in
        bound (Runs s) _ (if_no {b = ltb (length file) 4} none (some program) (ground arith)) (
          if_both (Runs s) program
            (λ _. (
              _,
              bind-some _ executes refl,
              record {
                path = subst IsPath (sym ((keeps pid).directory _)) path;
                typing = (keeps pid).typing _;
              },
            ))
            (λ _. (_, refl, print-Ran _ s s unchanged))))

  -- A folder's path ends with a slash.
  pub check_folder-slash :
      (file : Text)
      → 0 < length file
      → (b : Bool) × (check_folder efi file s.files ≡ some b)
        × (b ≡ true → unit_at file (length file - 1) ≡ slash)
  unfolding check_folder
  check_folder-slash file full =
      (let size = efi.str_len_lem file in
        let P = λ (o : Option Bool).
          (b : Bool) × (o ≡ some b) × (b ≡ true → unit_at file (length file - 1) ≡ slash) in
        if_both P (efi.str_len file == 0) (λ empty. absurd (ground arith))
          (λ _.
            if_both P (not (unit_at file (efi.str_len file - 1) == slash))
              (λ _. (false, refl, λ e. absurd (cc)))
              (λ ends.
                (_, refl, λ _. ap (λ n. unit_at file (n - 1)) (sym size) ∙ ground (arith, ends)))))

  -- Any line that is typed is run, and leaves a path.
  run_line-Runs :
      (start : ℕ → Shell → Shell) (used : ℕ) (typed : Text)
      → ((pid : ℕ) → Keeps (start pid))
      → (check_file efi (s.directory ++ typed) s.files ≡ true → 4 ≤ length (s.directory ++ typed))
      → length s.programs.running < 2 ^ 64
      → Runs s (run_line efi value_to_string start used typed s)
  unfolding run_line
  run_line-Runs start used typed keeps long few =
      (let size = efi.str_len_lem typed in
        if_both (Runs s) (efi.str_len typed == 0) (λ _. (s, refl, unchanged))
          (λ given.
            let full : 0 < length typed = ground (arith, given) in
            let file = s.directory ++ typed in
            if_both (Runs s) (check_file efi file s.files)
              (λ found. run_program-Runs start file keeps (long found) few)
              (λ _.
                let (folder, checks, slash_end) =
                  check_folder-slash file (omega (arith, full, length-append s.directory typed)) in
                bound (Runs s) _ checks (
                  if_both (Runs s) folder
                    (λ is. (
                      _,
                      refl,
                      record {
                        path = IsPath-typed s.directory typed path full (slash_end is);
                        typing = refl;
                      },
                    ))
                    (λ _. run_command-Runs used typed)))))

-- What answers a line that left a state: the next line is typed behind a prompt, which shows the
-- directory behind what the programs left on the screen, while no program runs for the terminal; or one
-- did when the programs were updated, and there is no prompt.
abbrev pub Answered : (Shell → Shell) → Shell → Shell → Type 0
Answered updates t u =
    ((u.terminal.typing ≡ true)
      × (is_running t.terminal_pid t.programs.running ≡ false)
      × (glyphs u.terminal.drawn ≡ glyphs (updates t).terminal.drawn ++ printed u.directory))
    ⊎ ((is_running t.terminal_pid t.programs.running ≡ true) × (u ≡ updates t))

-- The line that was typed, where no program was run for the terminal before.
abbrev pub answered_line : EfiText → (ℕ → Text) → (ℕ → Shell → Shell) → ℕ → Shell → Option Shell
answered_line efi value_to_string start used s =
    if s.terminal_pid == no_program
    then run_line efi value_to_string start used (text_of s.terminal.typing_buffer) s
    else some s

pub prompt-typing : (directory : Text) (t : Terminal) → (prompt directory t).typing ≡ true
unfolding prompt
prompt-typing directory t = refl

none_runs : (typing found : Bool) → (not typing && not found) ≡ true → found ≡ false
none_runs typing found e = ground (arith, e)

not_found :
    (typing found : Bool) → typing ≡ false → (not typing && not found) ≡ false → found ≡ true
not_found typing found idle e = ground (arith, idle, e)

end_round-Answered :
    (updates : Shell → Shell) (t : Shell)
    → Keeps updates
    → IsPath t.directory
    → t.terminal.typing ≡ false
    → (u : Shell) × (end_round updates t ≡ some u) × IsPath u.directory × Answered updates t u
unfolding end_round
end_round-Answered updates t keeps path idle =
    (let path' = subst IsPath (sym (keeps.directory t)) path in
      let P = λ (o : Option Shell).
        (u : Shell) × (o ≡ some u) × IsPath u.directory × Answered updates t u in
      if_both P
        (not (updates t).terminal.typing && not (is_running t.terminal_pid t.programs.running))
        (λ e. (
          _,
          refl,
          path',
          inl (
            prompt-typing (updates t).directory (updates t).terminal,
            none_runs (updates t).terminal.typing _ e,
            prompt-glyphs (updates t).directory (updates t).terminal,
          ),
        ))
        (λ e. (_, refl, path', inr (not_found _ _ (keeps.typing t ∙ idle) e, refl))))

-- A line has been typed to its end, every file with the path that it makes has a path of four units or
-- more, there are fewer than 2^64 programs, and neither the start of a program nor the updates of all
-- change the directory or whether a line is typed. If no program was run for the terminal before, the
-- round runs the line, which never leaves a string. If then no program runs for the terminal, the
-- characters of the directory, which is a path, are drawn behind those that the programs left, and the
-- next line is typed; otherwise the round ends where the updates do.
pub shell_round-prompts :
    (efi : EfiText) (value_to_string : ℕ → Text) (start : ℕ → Shell → Shell)
    (updates : Shell → Shell) (used : ℕ) (s : Shell)
    → ((pid : ℕ) → Keeps (start pid))
    → Keeps updates
    → IsPath s.directory
    → s.terminal.typing ≡ false
    → ((typed : Text)
        → check_file efi (s.directory ++ typed) s.files ≡ true
        → 4 ≤ length (s.directory ++ typed))
    → length s.programs.running < 2 ^ 64
    → (t : Shell) × (u : Shell) × (answered_line efi value_to_string start used s ≡ some t)
      × (shell_round efi value_to_string start updates used s ≡ some u)
      × IsPath u.directory
      × Answered updates t u
unfolding shell_round
shell_round-prompts efi value_to_string start updates used s starts keeps path ended long few =
    (let (t, runs, r) =
        if_both (Runs s) (s.terminal_pid == no_program)
          (λ _.
            run_line-Runs efi value_to_string s path start used (text_of s.terminal.typing_buffer)
              starts (long (text_of s.terminal.typing_buffer)) few)
          (λ _. (s, refl, unchanged efi value_to_string s path)) in
      let (u, ends, path', answered) =
        end_round-Answered updates t keeps r.path (r.typing ∙ ended) in
      (
        t,
        u,
        runs,
        bind-some _
            (ap
                (λ typing.
                  if not typing && (s.terminal_pid == no_program)
                  then run_line efi value_to_string start used (text_of s.terminal.typing_buffer) s
                  else some s)
                ended
              ∙ runs)
            ends,
        path',
        answered,
      ))
