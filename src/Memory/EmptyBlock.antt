-- ===== src/Memory/EmptyBlock.antt =====
-- Blocks of no bytes: `mouseClick` of src/programs/desktop/program.c asks for one (and releases it)
-- when there is no window.
use korby_os.Base.{
  ℕ, ◌+◌, ◌^◌, ◌<◌, ◌≡◌, refl, true, false, some, List, [], ◌∷◌, arith, ltb, inl, inr, Bool-cases,
  ap, u64, sub64, ◌∙◌,
}
use korby_os.Memory.{Allocation, Allocator, allocate, unallocate, place, release}
use korby_os.Memory.Live.{live_count, collides, AllLive, IsBlock, IsValid, HasRoom}
use korby_os.Memory.Search.{Found}
use korby_os.Memory.Allocate.{entry_at, after, allocate-Found}

free_at_base :
    (memory : ℕ) (t : List Allocation)
    → memory < 2 ^ 64
    → AllLive (IsBlock memory) t
    → collides memory 0 t ≡ false
free_at_base memory [] r all = refl
free_at_base memory (a ∷ t) r all = ground (arith, all.0, free_at_base memory t r all.1)

Found-at_base :
    (s : Allocator) (value : ℕ) → IsValid s → Found s.memory 0 s.table value → value ≡ s.memory
Found-at_base s value v found = elim (Bool-cases (ltb s.memory value)) [
  | inl later ↦
      let taken = found.first s.memory (omega arith) (ground arith) in
      let free =
        free_at_base s.memory s.table (omega (arith, found.in_range, found.from)) v.blocks in
      absurd (ground (arith, taken, free))
  | inr same ↦ ground (arith, found.from)
]

place_behind :
    (new : Allocation) (n : ℕ) (a : Allocation) (rest : List Allocation)
    → a.present ≡ true
    → 0 < n
    → place new n 0 (a ∷ rest) ≡ a ∷ place new n 1 rest
unfolding place
place_behind new n a rest used many = ground arith

release_top :
    (pointer : ℕ) (a : Allocation) (rest : List Allocation)
    → a.present ≡ true
    → a.start ≡ pointer
    → release pointer (a ∷ rest) ≡ some (record a { present = false } ∷ rest)
unfolding release
release_top pointer a rest used at = ground arith

-- A block of no bytes is placed at `memory` itself, whatever is there. So where the top entry of the
-- table is a live block at `memory`, asking for no bytes and releasing the pointer frees that block:
-- its entry is marked free, while the entry of the empty block stays.
pub allocate_zero-unallocate :
    (s : Allocator) (a : Allocation) (rest : List Allocation)
    → IsValid s
    → HasRoom 1 0 s
    → s.table ≡ a ∷ rest
    → a.present ≡ true
    → a.start ≡ s.memory
    → (s' : Allocator) × (s'' : Allocator) × (allocate 0 s ≡ some (s.memory, s'))
      × (unallocate s.memory s' ≡ some s'')
      × (s''.table
          ≡ record a { present = false } ∷ place (entry_at s.memory 0) s.allocations 1 rest)
unfolding unallocate
allocate_zero-unallocate s a rest v room e used base =
    let (value, runs, found) = allocate-Found 0 s v room in
    let at_base : value ≡ s.memory = Found-at_base s value v found in
    let kept : place (entry_at s.memory 0) s.allocations 0 s.table
        ≡ a ∷ place (entry_at s.memory 0) s.allocations 1 rest =
      ap (place (entry_at s.memory 0) s.allocations 0) e
      ∙ place_behind _ _ a rest used (ground (arith, v.counted, ap live_count e)) in
    (
      after 0 s.memory s,
      record (after 0 s.memory s) {
        table = record a { present = false } ∷ place (entry_at s.memory 0) s.allocations 1 rest;
        allocations = sub64 (u64 (s.allocations + 1)) 1;
      },
      rw at_base at runs,
      rw (kept, release_top s.memory a _ used base),
      refl,
    )
