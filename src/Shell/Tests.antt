-- ===== src/Shell/Tests.antt =====
-- A terminal with one program in a folder, and the theorems applied to it.
use korby_os.Base.{◌≡◌, refl, true, false, some, [], ◌∷◌, ◌++◌, arith}
use korby_os.Files.{File, check_file, check_folder, any_under}
use korby_os.Shell.{Text, Shell, run_line, shell_round}
use korby_os.Shell.Example.{bin, program, shell, digit, long_name}
use korby_os.Shell.Folders.{dots, run_line-dots}
use korby_os.Shell.Parent.{slash}
use korby_os.Shell.Paths.{IsPath, root, below}
use korby_os.Shell.Rounds.{Keeps, Answered, answered_line, shell_round-prompts}
use korby_os.Text.Example.{differ, efi}

same-Keeps : Keeps (λ s. s)
same-Keeps = record { typing = λ s. refl; directory = λ s. refl }

shell_round-prompts_example :
    (t : Shell) × (u : Shell) × (answered_line efi digit (λ pid s. s) 4000 shell ≡ some t)
    × (shell_round efi digit (λ pid s. s) (λ s. s) 4000 shell ≡ some u)
    × IsPath u.directory
    × Answered (λ s. s) t u
shell_round-prompts_example =
    shell_round-prompts efi digit (λ pid s. s) (λ s. s) 4000 shell (λ pid. same-Keeps) same-Keeps
      (root refl) refl (λ typed. long_name ((b'/' ∷ []) ++ typed)) (omega arith)

-- In `/bin/`, with a program in a folder `x` of it.
abbrev below_bin : Text
below_bin = slash ∷ (bin ++ slash ∷ [])

abbrev deep : File
deep = record program { name = below_bin ++ (b'x' ∷ slash ∷ b'a' ∷ b'.' ∷ bin) }

abbrev in_bin : Shell
in_bin = record shell { directory = below_bin; files = deep ∷ [] }

no_file : check_file efi (below_bin ++ (b'x' ∷ slash ∷ [])) (deep ∷ []) ≡ false
unfolding check_file differ
no_file = refl

a_folder : check_folder efi (below_bin ++ (b'x' ∷ slash ∷ [])) (deep ∷ []) ≡ some true
unfolding check_folder any_under differ
a_folder = refl

no_dots : check_file efi ((below_bin ++ (b'x' ∷ slash ∷ [])) ++ dots) (deep ∷ []) ≡ false
unfolding check_file differ
no_dots = refl

run_line-dots_example :
    (t : Shell) × (run_line efi digit (λ pid s. s) 4000 (b'x' ∷ slash ∷ []) in_bin ≡ some t)
    × (t ≡ record in_bin { directory = below_bin ++ (b'x' ∷ slash ∷ []) })
    × (run_line efi digit (λ pid s. s) 4000 dots t ≡ some in_bin)
run_line-dots_example =
    run_line-dots efi digit (λ pid s. s) 4000 (b'x' ∷ []) in_bin (below bin refl)
      ((λ e. omega (arith, e)), _) no_file a_folder no_dots
