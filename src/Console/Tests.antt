-- ===== src/Console/Tests.antt =====
-- The terminal of the desktop with a line, and the theorems applied to it.
use korby_os.Base.{
  ℕ, Bool, List, replicate, ◌==◌, ◌≡◌, refl, inl, true, false, some, [], ◌∷◌, ◌++◌, arith,
}
use korby_os.Base.Int.{pos}
use korby_os.Console.{Console, console_update}
use korby_os.Console.Lines.{Leaves}
use korby_os.Programs
use korby_os.Programs.{WaitingProgram, notify}
use korby_os.Programs.Waiting.{awaited}
use korby_os.Console.Rounds.{Settled, console_update-Settled}
use korby_os.Console.Typed.{closes}
use korby_os.Desktop.{move}
use korby_os.Shell.Example.{bin, digit, long_name, shell}
use korby_os.Shell.Paths.{root}
use korby_os.Text.Example.{efi}

-- The path of a program has been typed, and the pointer was moved since.
abbrev entered : Console
entered = record {
  shell = record shell {
    terminal = record shell.terminal {
      typing_current = 9;
      typing_buffer = bin ++ (b'/' ∷ b'a' ∷ b'.' ∷ bin) ++ replicate 119 0;
    };
  };
  programs = record {
    running = record { pid = 0; terminal_id = 0 } ∷ [];
    waiting = [];
    flag = λ a. true;
  };
  self = record { pid = 0; terminal_id = 0 };
  running = false;
  done = 4096;
  events = move (pos 7) (pos 9) ∷ [];
}

closes_no : closes (move (pos 7) (pos 9) ∷ []) ≡ false
unfolding closes
closes_no = refl

notify-awaited :
    (pid : ℕ) (ws : List WaitingProgram) (flag : ℕ → Bool)
    → awaited pid ws ≡ false
    → awaited pid (notify pid ws flag).0 ≡ false
unfolding notify awaited
notify-awaited pid [] flag none_waits = refl
notify-awaited pid (w ∷ ws) flag none_waits =
    (let miss : (w.waiting_pid == pid) ≡ false = ground (arith, none_waits) in
      let rest = notify-awaited pid ws flag (ground (arith, none_waits)) in
      rw (miss) (ground (arith, miss, rest)))

-- A program that quits at once.
abbrev brief : ℕ → Console → Console
brief pid c = record c { programs = Programs.quit pid c.programs }

brief-Leaves : Leaves brief
unfolding Programs.quit
brief-Leaves = record {
  directory = λ pid c. refl;
  typing = λ pid c. refl;
  running = λ pid c. refl;
  done = λ pid c. refl;
  unawaited = λ pid c none_waits. notify-awaited pid c.programs.waiting c.programs.flag none_waits;
}

console_update-Settled_example :
    (u : Console) × (console_update efi digit brief 4000 entered ≡ some (false, u)) × Settled u
unfolding awaited
console_update-Settled_example =
    console_update-Settled efi digit brief 4000 entered brief-Leaves
      (record { path = root refl; idle = refl; settled = inl refl }) closes_no
      (λ typed. long_name ((b'/' ∷ []) ++ typed)) (λ pid out. refl) (omega arith)
