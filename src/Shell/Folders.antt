-- ===== src/Shell/Folders.antt =====
-- Going into a folder, and back with `..`.
use mathlib.Core.List.{append_assoc}
use korby_os.Base.{
  ℕ, ◌+◌, ◌-◌, ◌≡◌, ◌≢◌, refl, sym, ap, ap₂, ◌∙◌, true, false, not, none, some, List, [], ◌∷◌, ◌++◌,
  ◌==◌, if◌then◌else◌, length, length-append, if_yes, if_no, arith, ◌>>=◌,
}
use korby_os.Files.{File, check_file, check_folder}
use korby_os.Shell.{Shell, run_command, run_line, parent, is_command}
use korby_os.Shell.Parent.{slash, IsName, parent_lem}
use korby_os.Shell.Paths.{IsPath, IsPath-above}
use korby_os.Text.{Text, IsText, EfiText, unit_at}

abbrev pub dots : Text
dots = b'.' ∷ b'.' ∷ []

unit_at-last : (xs : Text) (c : ℕ) → unit_at (xs ++ c ∷ []) (length xs) ≡ c
unit_at-last [] c = refl
unit_at-last (x ∷ xs) c = unit_at-last xs c

module _ (efi : EfiText) (value_to_string : ℕ → Text) where
  is_command-same : (name : Text) → IsText name → is_command efi value_to_string name name ≡ true
  is_command-same name text =
      (let same = (efi.str_cmp_lem name name text text).1 refl in ground arith)

  is_command-other :
      (a b : Text) → IsText a → IsText b → a ≢ b → is_command efi value_to_string a b ≡ false
  is_command-other a b p q other =
      (let differs : efi.str_cmp a b ≢ 0 = (λ e. other ((efi.str_cmp_lem a b p q).0 e)) in
        ground arith)

  -- The command is `..`.
  run_command-dots :
      (used : ℕ) (s t : Shell)
      → (parent s.directory >>= λ d. some (record s { directory = d })) ≡ some t
      → run_command efi value_to_string used dots s ≡ some t
  unfolding run_command
  run_command-dots used s t leads =
      if_no _ _ (
        is_command-other dots _ (omega arith) (omega arith)
          (λ e. omega (arith, ap (λ l. unit_at l 0) e)))
      ∙ (if_no _ _ (
            is_command-other dots _ (omega arith) (omega arith)
              (λ e. omega (arith, ap (λ l. unit_at l 0) e)))
          ∙ (if_yes _ _ (is_command-same dots (omega arith)) ∙ leads))

  -- A path that ends with a dot is no folder's.
  check_folder-dots :
      (directory : Text) (files : List File)
      → check_folder efi (directory ++ dots) files ≡ some false
  unfolding check_folder
  check_folder-dots directory files =
      (let path = directory ++ dots in
        let size : efi.str_len path ≡ length directory + 2 =
          efi.str_len_lem path ∙ length-append directory dots in
        let last : unit_at path (efi.str_len path - 1) ≡ b'.' =
          ap₂ unit_at (sym (append_assoc directory (b'.' ∷ []) (b'.' ∷ [])))
            (omega (arith, size, length-append directory (b'.' ∷ [])))
          ∙ unit_at-last (directory ++ b'.' ∷ []) b'.' in
        if_no {b = efi.str_len path == 0} none _ (ground (arith, size))
        ∙ if_yes {b = not (unit_at path (efi.str_len path - 1) == b'/')} (some false) _
            (ground (arith, last)))

  -- The directory is a path, and the name typed behind it with a slash is a folder's: no file has the
  -- path of it, and some file is under it. Neither has a file the path with `..` in the folder. Then
  -- the first line puts the name and the slash behind the directory and changes nothing else, and `..`
  -- leaves all as it was before.
  pub run_line-dots :
      (start : ℕ → Shell → Shell) (used : ℕ) (name : Text) (s : Shell)
      → IsPath s.directory
      → IsName name
      → check_file efi (s.directory ++ (name ++ slash ∷ [])) s.files ≡ false
      → check_folder efi (s.directory ++ (name ++ slash ∷ [])) s.files ≡ some true
      → check_file efi ((s.directory ++ (name ++ slash ∷ [])) ++ dots) s.files ≡ false
      → (t : Shell) × (run_line efi value_to_string start used (name ++ slash ∷ []) s ≡ some t)
        × (t ≡ record s { directory = s.directory ++ (name ++ slash ∷ []) })
        × (run_line efi value_to_string start used dots t ≡ some s)
  unfolding run_line
  run_line-dots start used name s path is no_file folder no_dots =
      (let typed = name ++ slash ∷ [] in
        let inside : Shell = record s { directory = s.directory ++ typed } in
        let goes : run_line efi value_to_string start used typed s ≡ some inside =
          if_no {b = efi.str_len typed == 0} (some s) _
            (ground (arith, efi.str_len_lem typed, length-append name (slash ∷ [])))
          ∙ (if_no {b = check_file efi (s.directory ++ typed) s.files} _ _ no_file
              ∙ ap
                  (λ o. o >>= λ folder.
                    if folder then some inside else run_command efi value_to_string used typed s)
                  folder) in
        let (above, whole) = IsPath-above s.directory path in
        let leads : parent inside.directory ≡ some s.directory =
          ap (λ d. parent (d ++ typed)) whole ∙ (parent_lem above name is ∙ ap some (sym whole)) in
        let back : run_line efi value_to_string start used dots inside ≡ some s =
          if_no {b = efi.str_len dots == 0} (some inside) _ (ground (arith, efi.str_len_lem dots))
          ∙ (if_no {b = check_file efi (inside.directory ++ dots) s.files} _ _ no_dots
              ∙ (ap
                    (λ o. o >>= λ folder.
                      if folder
                      then some (record inside { directory = inside.directory ++ dots })
                      else run_command efi value_to_string used dots inside)
                    (check_folder-dots inside.directory s.files)
                  ∙ run_command-dots used inside s
                      (ap (λ o. o >>= λ d. some (record inside { directory = d })) leads))) in
        (inside, goes, refl, back))
