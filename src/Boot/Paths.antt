-- ===== src/Boot/Paths.antt =====
-- The names of the files that were read at boot.
use korby_os.Base.{
  ℕ, suc, ◌+◌, ◌≡◌, ◌≢◌, refl, sym, ap, ap₂, ◌∙◌, Bool, true, false, not, ◌&&◌, ◌||◌, List, [], ◌∷◌,
  ◌++◌, ◌==◌, if◌then◌else◌, if_no, Bool-cases, inl, inr, length, drop, All, arith,
}
use korby_os.Boot.Folders.{
  Node, Entries, Item, FileData, file, folder, end, entry, full_name, is_listed, parse_folder,
  parse_node, count_files, slashed, file_data, add_files,
}
use korby_os.Text.{Text, EfiText, IsText}
use korby_os.Text.Example.{differ, differ_iff}

-- No unit of a name is a backslash.
abbrev IsPlain : Text → Type 0
IsPlain = All (λ c. c ≢ b'\\')

-- The entries of a folder have such names, in all its folders.
unfoldable mutual
  pub Named : Entries → Type 0
  Named end = Unit
  Named (entry n node rest) = (IsText n × IsPlain n) × NamedNode node × Named rest

  NamedNode : Node → Type 0
  NamedNode (file size contents) = Unit
  NamedNode (folder entries) = Named entries

-- The entries `.` and `..`.
abbrev pub is_dots : Text → Bool
is_dots n = (differ n (b'.' ∷ []) == 0) || (differ n (b'.' ∷ b'.' ∷ []) == 0)

-- What a file or a folder stands for in the table.
abbrev pub data_of : Text → Node → FileData
data_of path (file size contents) = record { name = path; size = size; contents = contents }
data_of path (folder entries) = record { name = path; size = 0; contents = 0 }

-- The paths in a volume, with slashes: a folder's before its own, all but the dots'.
unfoldable mutual
  pub paths : Text → Entries → List FileData
  paths above end = []
  paths above (entry n node rest) =
      (let inside = node_paths (above ++ b'/' ∷ n) node in
        let later = paths above rest in
        if is_dots n then later else inside ++ data_of (above ++ b'/' ∷ n) node ∷ later)

  node_paths : Text → Node → List FileData
  node_paths path (file size contents) = []
  node_paths path (folder entries) = paths path entries

neither : (a b : Bool) → (not a && not b) ≡ not (a || b)
neither true b = refl
neither false b = refl

compares :
    (efi : EfiText) (a b : Text) → IsText a → IsText b → (efi.str_cmp a b == 0) ≡ (differ a b == 0)
compares efi a b p q =
    (let same = efi.str_cmp_lem a b p q in
      let plain = differ_iff a b in
      elim (Bool-cases (efi.str_cmp a b == 0)) [
        | inl equal ↦
            (let zero' : differ a b ≡ 0 = plain.1 (same.0 (ground (arith, equal))) in
              ground (arith, equal, zero'))
        | inr other ↦ elim (Bool-cases (differ a b == 0)) [
          | inr apart ↦ other ∙ sym apart
          | inl equal' ↦ absurd (
              let zero' : efi.str_cmp a b ≡ 0 = same.1 (plain.0 (ground (arith, equal'))) in
              ground (arith, other, zero'))
        ]
      ])

is_listed-is_dots : (efi : EfiText) (n : Text) → IsText n → is_listed efi n ≡ not (is_dots n)
is_listed-is_dots efi n text =
    ap₂ (λ a b. not a && not b) (compares efi n (b'.' ∷ []) text (omega arith))
      (compares efi n (b'.' ∷ b'.' ∷ []) text (omega arith))
    ∙ neither (differ n (b'.' ∷ []) == 0) (differ n (b'.' ∷ b'.' ∷ []) == 0)

slashed-append : (a b : Text) → slashed (a ++ b) ≡ slashed a ++ slashed b
unfolding slashed
slashed-append [] b = refl
slashed-append (c ∷ a) b = ap (λ l. (if c == b'\\' then b'/' else c) ∷ l) (slashed-append a b)

slashed-IsPlain : (n : Text) → IsPlain n → slashed n ≡ n
unfolding slashed
slashed-IsPlain [] plain = refl
slashed-IsPlain (c ∷ n) plain =
    ap₂ ◌∷◌ (if_no {b = c == b'\\'} b'/' c (let other = plain.0 in ground (arith, other)))
      (slashed-IsPlain n plain.1)

-- The name in the table of an entry of a folder.
slashed-full_name :
    (path n : Text)
    → IsPlain n
    → slashed (drop 1 (full_name (b'.' ∷ path) n)) ≡ slashed path ++ b'/' ∷ n
unfolding slashed
slashed-full_name path n plain =
    slashed-append path (b'\\' ∷ n)
    ∙ ap (λ l. slashed path ++ l) (ap (λ l. b'/' ∷ l) (slashed-IsPlain n plain))

add_files-append : (a b : List Item) → add_files (a ++ b) ≡ add_files a ++ add_files b
unfolding add_files
add_files-append [] b = refl
add_files-append (i ∷ a) b = ap (λ l. file_data i ∷ l) (add_files-append a b)

-- What an entry adds, by whether it is one of the dots.
add_files-entry :
    (b : Bool) (xs ys : List Item) (us vs : List FileData)
    → add_files xs ≡ us
    → add_files ys ≡ vs
    → add_files (if not b then xs else ys) ≡ (if b then vs else us)
add_files-entry true xs ys us vs p q = q
add_files-entry false xs ys us vs p q = p

file_data-data_of :
    (path n : Text) (node : Node)
    → IsPlain n
    → file_data (record { path = full_name (b'.' ∷ path) n; node = node })
      ≡ data_of (slashed path ++ b'/' ∷ n) node
unfolding file_data
file_data-data_of path n (file size contents) plain =
    ap (λ t. record { name = t; size = size; contents = contents }) (slashed-full_name path n plain)
file_data-data_of path n (folder entries) plain =
    ap (λ t. record { name = t; size = 0; contents = 0 }) (slashed-full_name path n plain)

-- The entries of the table are the paths, where the path so far is `.` and something behind it.
module _ (efi : EfiText) where
  mutual
    unfolding parse_folder paths add_files Named

    parse_folder-paths :
        (path : Text) (es : Entries)
        → Named es
        → add_files (parse_folder efi (b'.' ∷ path) es) ≡ paths (slashed path) es
    parse_folder-paths path end named = refl
    parse_folder-paths path (entry n node rest) named =
        let item : Item = record { path = full_name (b'.' ∷ path) n; node = node } in
        let inside = parse_node efi (full_name (b'.' ∷ path) n) node in
        let later = parse_folder-paths path rest named.2 in
        let here = slashed-full_name path n named.0.1 in
        let within : add_files inside ≡ node_paths (slashed path ++ b'/' ∷ n) node =
          parse_node-paths (path ++ b'\\' ∷ n) node named.1 ∙ ap (λ t. node_paths t node) here in
        ap
          (λ b. add_files (
            if b
            then inside ++ item ∷ parse_folder efi (b'.' ∷ path) rest
            else parse_folder efi (b'.' ∷ path) rest))
          (is_listed-is_dots efi n named.0.0)
        ∙ add_files-entry (is_dots n) _ _ _ _
            (add_files-append inside (item ∷ parse_folder efi (b'.' ∷ path) rest)
              ∙ ap₂ ◌++◌ within (ap₂ ◌∷◌ (file_data-data_of path n node named.0.1) later))
            later

    parse_node-paths :
        (path : Text) (node : Node)
        → NamedNode node
        → add_files (parse_node efi (b'.' ∷ path) node) ≡ node_paths (slashed path) node
    parse_node-paths path (file size contents) named = refl
    parse_node-paths path (folder es) named = parse_folder-paths path es named

-- What `efi_main` makes of a volume.
abbrev pub booted : EfiText → Entries → List FileData
booted efi volume = add_files (parse_folder efi (b'.' ∷ []) volume)

count_files-length :
    (count : ℕ) (items : List Item) → count_files count items ≡ count + length items
unfolding count_files
count_files-length count [] = omega arith
count_files-length count (i ∷ items) = count_files-length (count + 1) items ∙ omega arith

length-add_files : (items : List Item) → length (add_files items) ≡ length items
unfolding add_files
length-add_files [] = refl
length-add_files (i ∷ items) = ap suc (length-add_files items)

-- On a volume of which no name has a backslash or a 0, the walk that counts the files finds as many as
-- the walk that reads them stores, and these are the volume's files and folders but for the entries
-- `.` and `..`, each with its path from the root, what is in a folder before the folder, and a folder
-- with no bytes.
pub booted-paths :
    (efi : EfiText) (volume : Entries)
    → Named volume
    → (booted efi volume ≡ paths [] volume)
      × (count_files 0 (parse_folder efi (b'.' ∷ []) volume) ≡ length (paths [] volume))
unfolding slashed
booted-paths efi volume named =
    (let same : booted efi volume ≡ paths [] volume = parse_folder-paths efi [] volume named in
      (
        same,
        count_files-length 0 (parse_folder efi (b'.' ∷ []) volume)
            ∙ (omega (arith, length-add_files (parse_folder efi (b'.' ∷ []) volume))
                ∙ ap length same),
      ))
