-- ===== src/Boot/Folders.antt =====
-- The files that are read at boot: `parseFolder`, `countFiles` and `addFiles` of src/main.h.
--
-- A volume is a tree; that `openFolder` and the calls of EFI walk and read it is their documented
-- behaviour. A path of EFI has backslashes.
use korby_os.Base.{ℕ, ◌+◌, Bool, not, ◌&&◌, List, [], ◌∷◌, ◌++◌, ◌==◌, if◌then◌else◌, drop}
use korby_os.Text.{Text, EfiText}

mutual
  pub data Node : Type 0 where
    file : ℕ → ℕ → Node
    folder : Entries → Node

  -- What `Read` gives for a folder, in order.
  pub data Entries : Type 0 where
    end : Entries
    entry : Text → Node → Entries → Entries

-- What `found` is called with: the path, and what it leads to.
pub record Item : Type 0 where
  pub path : Text
  pub node : Node

-- The new path that the two loops fill.
abbrev pub full_name : Text → Text → Text
full_name name n = name ++ b'\\' ∷ n

module _ (efi : EfiText) where
  abbrev pub is_listed : Text → Bool
  is_listed name =
      not (efi.str_cmp name (b'.' ∷ []) == 0) && not (efi.str_cmp name (b'.' ∷ b'.' ∷ []) == 0)

  -- The calls of `found`, in order: a folder's come before its own.
  unfoldable mutual
    pub parse_folder : Text → Entries → List Item
    parse_folder name end = []
    parse_folder name (entry n node rest) =
        (let inside = parse_node (full_name name n) node in
          let later = parse_folder name rest in
          if is_listed n
          then inside ++ record { path = full_name name n; node = node } ∷ later
          else later)

    pub parse_node : Text → Node → List Item
    parse_node path (file size contents) = []
    parse_node path (folder entries) = parse_folder path entries

-- `countFiles` at each call.
unfoldable pub count_files : ℕ → List Item → ℕ
count_files count [] = count
count_files count (i ∷ items) = count_files (count + 1) items

-- An entry of `fileData`.
pub record FileData : Type 0 where
  pub name : Text
  pub size : ℕ
  pub contents : ℕ

-- `name[i + 1] == L'\\' ? L'/' : name[i + 1]` for each unit.
unfoldable pub slashed : Text → Text
slashed [] = []
slashed (c ∷ name) = (if c == b'\\' then b'/' else c) ∷ slashed name

-- One call of `addFiles`.
unfoldable pub file_data : Item → FileData
file_data i =
    (let name = slashed (drop 1 i.path) in
      elim i.node [
        | file size contents ↦ record { name = name; size = size; contents = contents }
        | folder entries ↦ record { name = name; size = 0; contents = 0 }
      ])

unfoldable pub add_files : List Item → List FileData
add_files [] = []
add_files (i ∷ items) = file_data i ∷ add_files items
