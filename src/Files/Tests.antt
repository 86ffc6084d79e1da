-- ===== src/Files/Tests.antt =====
-- The file table at a small example.
use korby_os.Base.{ℕ, ◌+◌, ◌≡◌, ◌≢◌, refl, true, false, none, some, [], ◌∷◌, arith}
use korby_os.Text.{Text, IsText}
use korby_os.Text.Example.{differ, efi}
use korby_os.Memory.{Allocation}
use korby_os.Memory.Live.{IsValid, HasRoom}
use korby_os.Files.{
  File, FileTable, write_file, read_file, check_folder, any_under, delete_file, find,
}
use korby_os.Files.Lookup.{Named, Unique}
use korby_os.Files.Write.{Written, write_file-Written, name_bytes}
use korby_os.Files.Delete.{delete_file-read_file}

-- "/a" and "/a/b".
abbrev folder : Text
folder = b'/' ∷ b'a' ∷ []

abbrev inner : Text
inner = b'/' ∷ b'a' ∷ b'/' ∷ b'b' ∷ []

abbrev block : ℕ → ℕ → Allocation
block s e = record { present = true; start = s; end = e }

-- "/a" was read at boot, so that its blocks are none of the allocator's; "/a/b" was written later.
abbrev table : FileTable
table = record {
  files =
      record { node = 4096; name_at = 100; name = folder; size = 7; contents = 200 }
      ∷ record { node = 4128; name_at = 4160; name = inner; size = 20; contents = 4170 }
      ∷ [];
  heap = record {
    memory = 4096;
    table = block 4096 4128 ∷ block 4128 4160 ∷ block 4160 4170 ∷ block 4170 4190 ∷ [];
    allocations = 4;
  };
}

reads_inner : read_file efi inner table.files ≡ some (20, 4170)
unfolding read_file differ
reads_inner = refl

folders :
    (check_folder efi (b'/' ∷ []) table.files ≡ some true)
    × (check_folder efi folder table.files ≡ some false)
    × (check_folder efi [] table.files ≡ none)
unfolding check_folder any_under differ
folders = (refl, refl, refl)

named : Named table.files
named = ground arith

unique : Unique table.files
unique = ((λ e. cc, tt), (tt, tt))

valid : IsValid table.heap
valid = ground arith

room : HasRoom 3 (32 + (name_bytes efi inner + 50)) table.heap
room = omega arith

find-inner : (f : File) → find efi inner table.files ≡ some f → f.contents ≡ 4170
unfolding find differ
find-inner f e = ground arith

write_file-Written_example :
    (p : ℕ) × (s' : FileTable) × (write_file efi inner 50 table ≡ some (p, s'))
    × Written efi inner 50 p table s'
write_file-Written_example =
    write_file-Written efi inner 50 table (ground arith) named valid room
      (λ f e all. ground (arith, find-inner f e))

delete_file-read_file_example :
    (s' : FileTable) × (delete_file efi inner table ≡ some s')
    × (read_file efi inner s'.files ≡ none)
    × ((other : Text)
        → IsText other
        → other ≢ inner
        → read_file efi other s'.files ≡ read_file efi other table.files)
    × IsValid s'.heap
unfolding find differ
delete_file-read_file_example =
    delete_file-read_file efi inner table
      (record { node = 4128; name_at = 4160; name = inner; size = 20; contents = 4170 })
      (ground arith) named unique valid refl
      (record {
        node = refl;
        name = refl;
        contents = refl;
        node_name = omega arith;
        node_contents = omega arith;
        name_contents = omega arith;
      })
