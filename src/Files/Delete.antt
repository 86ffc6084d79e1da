-- ===== src/Files/Delete.antt =====
-- `deleteFile`, and `checkFile` beside `readFile`.
use mathlib.Core.Path.{subst}
use korby_os.Base.{
  ℕ, ◌≡◌, ◌≢◌, refl, sym, true, false, none, some, List, [], ◌∷◌, sub64, arith, Bool-cases, inl,
  inr, ◌↔◌,
}
use korby_os.Text.{Text, EfiText, IsText}
use korby_os.Memory.{Allocation, Allocator, unallocate}
use korby_os.Memory.Live.{AllLive, IsValid}
use korby_os.Memory.Free.{unallocate-Released, Released-IsValid}
use korby_os.Memory.Within.{within, within-Released}
use korby_os.Files.{
  File, FileTable, is_named, find, read_file, erase_named, delete_file, check_file,
}
use korby_os.Files.Lookup.{
  Named, Unique, NotIn, read_of_missing, read_same, named_eq, not_named, find-erase_named,
  find-erase_named_other,
}

-- A live block with a byte starts at the address.
abbrev pub IsStart : ℕ → Allocator → Type 0
IsStart a heap = within a a heap.table ≡ true

-- The three blocks of a file that `writeFile` made.
pub record OwnsBlocks (f : File) (heap : Allocator) : Type 0 where
  pub node : IsStart f.node heap
  pub name : IsStart f.name_at heap
  pub contents : IsStart f.contents heap
  pub node_name : f.name_at ≢ f.node
  pub node_contents : f.contents ≢ f.node
  pub name_contents : f.contents ≢ f.name_at

not-AllLive : (a : ℕ) (t : List Allocation) → within a a t ≡ true → ¬ AllLive (λ e. e.start ≢ a) t
not-AllLive a [] h all = cc
not-AllLive a (e ∷ t) h all = elim (Bool-cases (within a a t)) [
  | inl deep ↦ not-AllLive a t deep all.1
  | inr top ↦ all.0 (ground arith) (ground arith)
]

-- Releasing one block keeps the starts of the others.
release-IsStart :
    (a : ℕ) (heap : Allocator)
    → IsValid heap
    → IsStart a heap
    → (heap' : Allocator) × (unallocate a heap ≡ some heap')
      × IsValid heap'
      × ((b : ℕ) → b ≢ a → IsStart b heap → IsStart b heap')
release-IsStart a heap v h =
    let (t', runs, r) = unallocate-Released a heap (not-AllLive a heap.table h) in
    (
      record heap { table = t'; allocations = sub64 heap.allocations 1 },
      runs,
      Released-IsValid a heap t' v r,
      λ b ne s. within-Released b b ne r s,
    )

module _ (efi : EfiText) where
  -- `deleteFile` of a file whose node, name and contents are blocks of the allocator ends: nothing
  -- is left under the name, where no two entries share one, and every other file reads as before.
  pub delete_file-read_file :
      (name : Text) (s : FileTable) (f : File)
      → IsText name
      → Named s.files
      → Unique s.files
      → IsValid s.heap
      → find efi name s.files ≡ some f
      → OwnsBlocks f s.heap
      → (s' : FileTable) × (delete_file efi name s ≡ some s')
        × (read_file efi name s'.files ≡ none)
        × ((other : Text)
            → IsText other
            → other ≢ name
            → read_file efi other s'.files ≡ read_file efi other s.files)
        × IsValid s'.heap
  unfolding delete_file
  delete_file-read_file name s f t named unique v hit own =
      let (h₁, runs₁, v₁, kept₁) = release-IsStart f.node s.heap v own.node in
      let (h₂, runs₂, v₂, kept₂) =
        release-IsStart f.name_at h₁ v₁ (kept₁ f.name_at own.node_name own.name) in
      let (h₃, runs₃, v₃, kept₃) =
        release-IsStart f.contents h₂ v₂
          (kept₂ f.contents own.name_contents (kept₁ f.contents own.node_contents own.contents)) in
      let left = erase_named efi name s.files in
      (
        record { files = left; heap = h₃ },
        rw (hit, delete_file) (rw (runs₁, runs₂, runs₃)),
        read_of_missing efi name left (find-erase_named efi name s.files t named unique),
        (λ other u ne.
            read_same efi other left s.files
              (find-erase_named_other efi name other s.files t u named ne)),
        v₃,
      )

  check_file-NotIn :
      (name : Text) (files : List File)
      → IsText name
      → Named files
      → NotIn name files
      → check_file efi name files ≡ false
  unfolding check_file
  check_file-NotIn name [] t n out = refl
  check_file-NotIn name (f ∷ rest) t n out =
      rw (not_named efi name f t n.0 (λ e. out.0 (sym e))) (check_file-NotIn name rest t n.1 out.1)

  -- With unique names `checkFile` says exactly whether `readFile` finds a file that is not empty.
  pub check_file-read_file :
      (name : Text) (files : List File)
      → IsText name
      → Named files
      → Unique files
      → (check_file efi name files ≡ true)
        ↔ ((size : ℕ) × (p : ℕ) × (read_file efi name files ≡ some (size, p)) × (size ≢ 0))
  unfolding check_file read_file find
  check_file-read_file name [] t n u = (λ h. absurd (ground arith), λ (size, p, h, ne). cc)
  check_file-read_file name (f ∷ rest) t n u = elim (Bool-cases (is_named efi name f)) [
    | inl hit ↦
        let same : name ≡ f.name = (named_eq efi name f t n.0).0 hit in
        let none_left =
          check_file-NotIn name rest t n.1 (subst (λ z. NotIn z rest) (sym same) u.0) in
        (
          λ h. (f.size, f.contents, ground (arith, hit), ground (arith, hit, h, none_left)),
          λ (size, p, h, ne). ground (arith, hit, h),
        )
    | inr miss ↦
        let ih = check_file-read_file name rest t n.1 u.1 in
        (
          λ h.
              let (size, p, r, ne) = ih.0 (ground (arith, miss, h)) in
              (size, p, ground (arith, miss, r), ne),
          λ (size, p, r, ne). ground (arith, miss, ih.1 (size, p, ground (arith, miss, r), ne)),
        )
  ]
