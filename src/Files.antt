-- ===== src/Files.antt =====
-- The file table of src/main.h: `writeFile`, `readFile`, `checkFile`, `checkFolder`, `deleteFile`
-- and `getFiles`.
--
-- The list `files` is given by its entries, each with the address of its node; that walks and changes
-- of the list of nodes in memory do what they do here is shown in `ItemList`. The pointers to the
-- name and to the contents are addresses, and the allocator is the one of `Memory`.
pub mod Delete
pub mod Listing
pub mod Lookup
mod Tests
pub mod Write
use korby_os.Base.{
  ℕ, zero, suc, ◌+◌, ◌-◌, ◌*◌, Bool, true, false, not, ◌&&◌, ◌||◌, Option, none, some, List, [],
  ◌∷◌, ◌++◌, ◌==◌, if◌then◌else◌, u64, sub64, ◌>>=◌, drop, length,
}
use korby_os.Text.{Text, EfiText, in_string, unit_at}
use korby_os.Memory.{Allocator, allocate, unallocate}

pub record File : Type 0 where
  pub node : ℕ
  pub name_at : ℕ
  pub name : Text
  pub size : ℕ
  pub contents : ℕ

pub record FileTable : Type 0 where
  pub files : List File
  pub heap : Allocator

-- `sizeof(File)` and `sizeof(File*)`.
abbrev pub file_bytes : ℕ
file_bytes = 32

abbrev pub pointer_bytes : ℕ
pointer_bytes = 8

module _ (efi : EfiText) where
  -- `StrCmp(name, file->name) == 0`.
  abbrev pub is_named : Text → File → Bool
  is_named name f = efi.str_cmp name f.name == 0

  -- The loops that stop at the first entry with the name.
  unfoldable pub find : Text → List File → Option File
  find name [] = none
  find name (f ∷ rest) = if is_named name f then some f else find name rest

  -- The entry that `writeFile` found gets its new size and contents.
  unfoldable pub replace : Text → ℕ → ℕ → List File → List File
  replace name size contents [] = []
  replace name size contents (f ∷ rest) =
      if is_named name f
      then record f { size = size; contents = contents } ∷ rest
      else f ∷ replace name size contents rest

  write_existing : Text → ℕ → File → FileTable → Option (ℕ × FileTable)
  write_existing name size f s = do
    heap ← unallocate f.contents s.heap
    (contents, heap') ← allocate size heap
    some (contents, record { files = replace name size contents s.files; heap = heap' })

  write_new : Text → ℕ → FileTable → Option (ℕ × FileTable)
  write_new name size s = do
    (node, heap) ← allocate file_bytes s.heap
    (name_at, heap') ← allocate (u64 (u64 (efi.str_len name + 1) * 2)) heap
    (contents, heap'') ← allocate size heap'
    let new : File = record {
      node = node;
      name_at = name_at;
      name = name;
      size = size;
      contents = contents;
    }
    some (contents, record { files = s.files ++ new ∷ []; heap = heap'' })

  -- `writeFile`, with the pointer that it returns.
  pub write_file : Text → ℕ → FileTable → Option (ℕ × FileTable)
  write_file name size s = elim (find name s.files) [
    | some f ↦ write_existing name size f s
    | none ↦ write_new name size s
  ]

  -- `readFile`: the size that it stores and the pointer that it returns; `none` is NULL.
  unfoldable pub read_file : Text → List File → Option (ℕ × ℕ)
  unfolding find
  read_file name files = elim (find name files) [ some f ↦ some (f.size, f.contents) | none ↦ none ]

  unfoldable pub check_file : Text → List File → Bool
  check_file name [] = false
  check_file name (f ∷ rest) =
      if is_named name f && not (f.size == 0) then true else check_file name rest

  unfoldable pub any_under : Text → ℕ → List File → Bool
  any_under name n [] = false
  any_under name n (f ∷ rest) =
      if efi.strn_cmp name f.name n == 0 then true else any_under name n rest

  -- `checkFolder`. For the empty name it reads the unit before the text: that is `none`.
  unfoldable pub check_folder : Text → List File → Option Bool
  check_folder name files =
      let n = efi.str_len name in
      if n == 0
      then none
      else if not (unit_at name (n - 1) == b'/')
      then some false
      else some (any_under name n files)

  -- The list without the first entry of the name.
  unfoldable pub erase_named : Text → List File → List File
  erase_named name [] = []
  erase_named name (f ∷ rest) = if is_named name f then rest else f ∷ erase_named name rest

  -- `deleteFile`: the node is released first, then the name and the contents.
  pub delete_file : Text → FileTable → Option FileTable
  delete_file name s = elim (find name s.files) [
    | none ↦ some s
    | some f ↦ do
      heap ← unallocate f.node s.heap
      heap' ← unallocate f.name_at heap
      heap'' ← unallocate f.contents heap'
      some (record { files = erase_named name s.files; heap = heap'' })
  ]

  -- The test of both loops of `getFiles`.
  abbrev pub listed : Text → Bool → File → Bool
  listed root recursive f =
      efi.strn_cmp f.name root (efi.str_len root) == 0
      && (recursive || not (in_string (drop (efi.str_len root) f.name) b'/'))

  unfoldable pub select : Text → Bool → List File → List File
  select root recursive [] = []
  select root recursive (f ∷ rest) =
      let later = select root recursive rest in if listed root recursive f then f ∷ later else later

  -- `getFiles`, with `*count` zero before the call as at all its call sites: the block of the
  -- result, the entries in it and the state of the allocator.
  pub get_files : Text → Bool → FileTable → Option (ℕ × List File × Allocator)
  get_files root recursive s = do
    let items = select root recursive s.files
    (block, heap) ← allocate (u64 (length items * pointer_bytes)) s.heap
    some (block, items, heap)
