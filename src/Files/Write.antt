-- ===== src/Files/Write.antt =====
-- `writeFile`: what it leaves behind, and when it does not end.
use korby_os.Base.{
  ℕ, ◌+◌, ◌*◌, ◌^◌, ◌<◌, ◌≤◌, ◌≡◌, ◌≢◌, refl, none, some, List, [], ◌∷◌, ◌++◌, u64, sub64, arith,
  Option-cases, inl, inr,
}
use korby_os.Text.{Text, EfiText, IsText}
use korby_os.Memory.{Allocation, Allocator}
use korby_os.Memory.Live.{AllLive, IsValid, HasRoom}
use korby_os.Memory.Allocate.{allocate-HasRoom, HasRoom-weaken}
use korby_os.Memory.Free.{unallocate-none, unallocate-Released, Released-IsValid}
use korby_os.Memory.Release.{Released, Released-AllLive, Released-live_count}
use korby_os.Files.{
  File, FileTable, find, replace, read_file, write_file, write_new, write_existing,
}
use korby_os.Files.Lookup.{
  read_of_find, read_same, Named, named_eq, not_named, find-append, find-append_other, find-replace,
  read_file-replace_other,
}

module _ (efi : EfiText) where
  -- The bytes that a new entry takes beside its contents.
  abbrev pub name_bytes : Text → ℕ
  name_bytes name = u64 (u64 (efi.str_len name + 1) * 2)

  -- What `write_file` has done: the name now reads as the new block, and other names as before.
  pub record Written (name : Text) (size p : ℕ) (s s' : FileTable) : Type 0 where
    pub reads : read_file efi name s'.files ≡ some (size, p)
    pub others :
        (other : Text)
        → IsText other
        → other ≢ name
        → read_file efi other s'.files ≡ read_file efi other s.files
    pub valid : IsValid s'.heap

  Written-new :
      (name : Text) (size : ℕ) (s : FileTable)
      → IsText name
      → IsValid s.heap
      → HasRoom 3 (32 + (name_bytes name + size)) s.heap
      → find efi name s.files ≡ none
      → (p : ℕ) × (s' : FileTable) × (write_new efi name size s ≡ some (p, s'))
        × Written name size p s s'
  unfolding write_new
  Written-new name size s t v room missing =
      let (node, h₁, runs₁, v₁, room₁) =
        allocate-HasRoom 2 32 (name_bytes name + size) s.heap v room in
      let (name_at, h₂, runs₂, v₂, room₂) = allocate-HasRoom 1 (name_bytes name) size h₁ v₁ room₁ in
      let (p, h₃, runs₃, v₃, room₃) =
        allocate-HasRoom 0 size 0 h₂ v₂
          (HasRoom-weaken 1 1 (size + 0) size h₂ (omega arith) (omega arith) room₂) in
      let new : File = record {
        node = node;
        name_at = name_at;
        name = name;
        size = size;
        contents = p;
      } in
      (
        p,
        record { files = s.files ++ new ∷ []; heap = h₃ },
        rw (runs₁, runs₂, runs₃),
        record {
          reads =
              read_of_find efi name (s.files ++ new ∷ []) new
                (find-append efi name new s.files missing ((named_eq efi name new t t).1 refl));
          others = λ other u ne.
              read_same efi other (s.files ++ new ∷ []) s.files
                (find-append_other efi other new s.files (not_named efi other new u t ne));
          valid = v₃;
        },
      )

  HasRoom-Released :
      (entries amount pointer n : ℕ) (h : Allocator) (t' : List Allocation)
      → n ≤ h.allocations
      → Released pointer h.table t'
      → HasRoom entries amount h
      → HasRoom entries amount (record h { table = t'; allocations = n })
  HasRoom-Released entries amount pointer n h t' le r room = record {
    countable = omega arith;
    at_base = room.at_base;
    behind = Released-AllLive (λ a. a.end + amount < 2 ^ 64) r room.behind;
  }

  Written-existing :
      (name : Text) (size : ℕ) (f : File) (s : FileTable)
      → IsText name
      → Named s.files
      → IsValid s.heap
      → HasRoom 1 size s.heap
      → ¬ AllLive (λ a. a.start ≢ f.contents) s.heap.table
      → find efi name s.files ≡ some f
      → (p : ℕ) × (s' : FileTable) × (write_existing efi name size f s ≡ some (p, s'))
        × Written name size p s s'
  unfolding write_existing
  Written-existing name size f s t named v room live hit =
      let (t', runs₁, r) = unallocate-Released f.contents s.heap live in
      let count : sub64 s.heap.allocations 1 ≤ s.heap.allocations =
        omega (arith, Released-live_count r, v.counted, v.few) in
      let h₁ : Allocator = record s.heap { table = t'; allocations = sub64 s.heap.allocations 1 } in
      let room₁ =
        HasRoom-Released 1 size f.contents (sub64 s.heap.allocations 1) s.heap t' count r room in
      let (p, h₂, runs₂, v₂, room₂) =
        allocate-HasRoom 0 size 0 h₁ (Released-IsValid f.contents s.heap t' v r)
          (HasRoom-weaken 1 1 (size + 0) size h₁ (omega arith) (omega arith) room₁) in
      (
        p,
        record { files = replace efi name size p s.files; heap = h₂ },
        rw (runs₁, runs₂),
        record {
          reads =
              read_of_find efi name (replace efi name size p s.files)
                (record f { size = size; contents = p })
                (find-replace efi name size p s.files f hit);
          others = λ other u ne. read_file-replace_other efi name other size p s.files t u named ne;
          valid = v₂;
        },
      )

  -- `writeFile` ends if there is room for the new blocks and, where the name is taken, the old
  -- contents are a block of the allocator. The file then reads back with the size asked for and the
  -- pointer returned, every other file reads as before, and the allocator's state is valid.
  pub write_file-Written :
      (name : Text) (size : ℕ) (s : FileTable)
      → IsText name
      → Named s.files
      → IsValid s.heap
      → HasRoom 3 (32 + (name_bytes name + size)) s.heap
      → ((f : File)
          → find efi name s.files ≡ some f
          → ¬ AllLive (λ a. a.start ≢ f.contents) s.heap.table)
      → (p : ℕ) × (s' : FileTable) × (write_file efi name size s ≡ some (p, s'))
        × Written name size p s s'
  unfolding write_file
  write_file-Written name size s t named v room live = elim (Option-cases (find efi name s.files)) [
    | inl missing ↦ rw (missing, write_file) (Written-new name size s t v room missing)
    | inr (f, hit) ↦
        rw (hit, write_file)
          (Written-existing name size f s t named v
            (HasRoom-weaken 1 3 size (32 + (name_bytes name + size)) s.heap (omega arith)
              (omega arith) room)
            (live f hit) hit)
  ]

  -- Where the file exists and its contents are no block of the allocator, as those of every file
  -- that the boot loader read are not, `writeFile` does not end.
  pub write_file-none :
      (name : Text) (size : ℕ) (s : FileTable) (f : File)
      → find efi name s.files ≡ some f
      → AllLive (λ a. a.start ≢ f.contents) s.heap.table
      → write_file efi name size s ≡ none
  unfolding write_file write_existing
  write_file-none name size s f hit foreign =
      rw (hit, write_file) (rw ((unallocate-none f.contents s.heap).1 foreign))
