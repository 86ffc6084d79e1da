-- ===== src/Shell/Example.antt =====
-- A terminal with one program in a folder, on which tests run.
use korby_os.Base.{
  ℕ, ◌≤◌, ◌≡◌, sym, subst, inl, inr, true, false, [], ◌∷◌, ◌++◌, ◌==◌, length, replicate,
  Bool-cases, arith,
}
use korby_os.Files.{File, check_file}
use korby_os.Shell.{Shell, no_program}
use korby_os.Terminal.{Terminal}
use korby_os.Terminal.Example.{cleared}
use korby_os.Text.{Text}
use korby_os.Text.Example.{differ, differ_iff, efi}

abbrev pub bin : Text
bin = b'b' ∷ b'i' ∷ b'n' ∷ []

abbrev pub program : File
program = record {
  node = 4096;
  name_at = 4128;
  name = (b'/' ∷ bin) ++ (b'/' ∷ b'a' ∷ b'.' ∷ bin);
  size = 7;
  contents = 4160;
}

-- The line `bin/` has been typed.
abbrev entered : Terminal
entered = record cleared { typing_current = 4; typing_buffer = bin ++ (b'/' ∷ replicate 124 0) }

abbrev pub shell : Shell
shell = record {
  terminal = entered;
  directory = b'/' ∷ [];
  files = program ∷ [];
  programs = record { running = []; waiting = []; flag = λ pid. false };
  terminal_pid = no_program;
  ip = record { b0 = 10; b1 = 0; b2 = 2; b3 = 15 };
  dns = record { b0 = 10; b1 = 0; b2 = 2; b3 = 3 };
}

-- The only file's path has ten units.
pub long_name : (path : Text) → check_file efi path (program ∷ []) ≡ true → 4 ≤ length path
unfolding check_file
long_name path found = elim (Bool-cases (differ path program.name == 0)) [
  | inl same ↦
      (let e = (differ_iff path program.name).0 (ground arith) in
        subst (λ (l : Text). 4 ≤ length l) (sym e) (omega arith))
  | inr other ↦ absurd (ground (arith, other, found))
]

-- `ValueToString`, on numbers of one digit.
abbrev pub digit : ℕ → Text
digit n = n ∷ []
