-- ===== src/Console/Rounds.antt =====
-- A round of the desktop's terminal on a line that was typed: it ends in a prompt or in a program that
-- the terminal waits for.
use korby_os.Base.{
  bind-some, ℕ, ◌^◌, ◌≤◌, ◌<◌, ◌≡◌, ◌⊎◌, inl, inr, refl, ap, ◌∙◌, Bool, true, false, not, ◌&&◌,
  Option, some, List, [], ◌∷◌, ◌++◌, length, if_no, if_both, arith, ◌>>=◌,
}
use korby_os.Console.{Console, is_done, console_prompt, console_rest, console_update}
use korby_os.Console.Typed.{keys_of, closes, emptied, console_events-type_keys}
use korby_os.Files.{check_file}
use korby_os.Shell.{text_of}
use korby_os.Shell.Paths.{IsPath}
use korby_os.Shell.Rounds.{prompt-typing}
use korby_os.Terminal.{Terminal, type_keys}
use korby_os.Text.{Text, EfiText}
use korby_os.Console.Lines.{Awaits, Ready, Leaves, NoneStale, console_line-Ready}

-- What a round leaves: the path, and a prompt or a program that will set the flag.
pub record Settled (u : Console) : Type 0 where
  pub path : IsPath u.shell.directory
  pub answered : (u.shell.terminal.typing ≡ true) ⊎ Awaits u

console_prompt-Settled : (c : Console) → Ready c → Settled (console_prompt c)
unfolding console_prompt
console_prompt-Settled c ready =
    if_both Settled (not c.shell.terminal.typing && is_done c)
      (λ _. record {
        path = ready.path;
        answered = inl (prompt-typing c.shell.directory c.shell.terminal);
      })
      (λ e. record {
        path = ready.path;
        answered = inr (elim ready.settled [
          | inl done ↦ absurd (ground (arith, ready.idle, e, done))
          | inr awaits ↦ awaits
        ]);
      })

-- With nothing typed, the keys are ignored.
type_keys-idle :
    (keys : List (ℕ × Bool)) (t : Terminal) → t.typing ≡ false → type_keys keys t ≡ some t
unfolding type_keys
type_keys-idle [] t idle = refl
type_keys-idle ((scancode, pressed) ∷ keys) t idle =
    ap (λ (o : Option Terminal). o >>= type_keys keys) (if_no {b = t.typing} _ (some t) idle)
    ∙ type_keys-idle keys t idle

-- A round of the terminal between two lines, whose directory is a path, whose flag is set or will be
-- set when a program that runs quits, whose window is not closed, in which every file with the path that
-- the line makes has a path of four units or more, with fewer than 2^64 programs and nobody who waits
-- for one that does not run. The `start` of a program leaves the directory, the flag's address and what
-- says that a program runs and that nothing is typed, and lets nobody wait for the program if nobody
-- did. The round then leaves no string and does not end the terminal; the directory is a path,
-- and either the next line is typed, or a program runs, the flag is clear, and it is set when that
-- program quits.
pub console_update-Settled :
    (efi : EfiText) (value_to_string : ℕ → Text) (start : ℕ → Console → Console) (used : ℕ)
    (c : Console)
    → Leaves start
    → Ready c
    → closes c.events ≡ false
    → ((typed : Text)
        → check_file efi (c.shell.directory ++ typed) c.shell.files ≡ true
        → 4 ≤ length (c.shell.directory ++ typed))
    → NoneStale c.programs
    → length c.programs.running < 2 ^ 64
    → (u : Console) × (console_update efi value_to_string start used c ≡ some (false, u))
      × Settled u
unfolding console_update console_rest
console_update-Settled efi value_to_string start used c leaves ready stays long fresh few =
    (let d : Console = emptied c.shell.terminal c in
      let loops =
        console_events-type_keys c.events false c c.shell.terminal
          (type_keys-idle (keys_of c.events) c.shell.terminal ready.idle) in
      let ready' : Ready d = record {
        path = ready.path;
        idle = ready.idle;
        settled = elim ready.settled [
          | inl done ↦ inl done
          | inr awaits ↦ inr (record {
            running = awaits.running;
            lowered = awaits.lowered;
            pid = awaits.pid;
            runs = awaits.runs;
            ends = awaits.ends;
          })
        ];
      } in
      let (e, line, ready'') =
        if_both (λ (o : Option Console). (e : Console) × (o ≡ some e) × Ready e)
          (not d.shell.terminal.typing && not d.running)
          (λ next.
            console_line-Ready efi value_to_string start leaves d ready'.path ready'.idle
              (elim ready'.settled [
                | inl done ↦ done
                | inr awaits ↦ absurd (ground (arith, next, awaits.running))
              ])
              fresh few used (text_of d.shell.terminal.typing_buffer) (long _))
          (λ _. (d, refl, ready')) in
      (
        console_prompt e,
        bind-some _ (loops ∙ ap (λ exiting. some (exiting, d)) stays) (bind-some _ line refl),
        console_prompt-Settled e ready'',
      ))
