-- ===== src/Memory/Free.antt =====
-- What `unallocate` promises, alone and after `allocate`.
use mathlib.Core.List.{Perm}
use mathlib.Core.Path.{subst}
use korby_os.Base.{
  ℕ, ◌+◌, ◌^◌, ◌<◌, ◌≡◌, refl, false, none, some, List, [], ◌∷◌, arith, inl, inr, ◌≢◌, u64, ◌↔◌,
  sub64,
}
use korby_os.Memory.{Allocation, Allocator, allocate, unallocate}
use korby_os.Memory.Live.{live, collides, AllLive, IsBlock, IsValid, HasRoom}
use korby_os.Memory.Release.{
  Outcome, Released, release-Released, Released-AllLive, Released-Disjoint, Released-live,
  Released-live_count, release-place,
}
use korby_os.Memory.Allocate.{entry_at, after, allocate-Found}

AllLive-absurd :
    {pointer : ℕ} {t t' : List Allocation}
    → Released pointer t t'
    → AllLive (λ a. a.start ≢ pointer) t
    → ⊥
AllLive-absurd (Released.here used at) all = all.0 used at
AllLive-absurd (Released.there miss r) all = AllLive-absurd r all.1

-- `unallocate` does not end exactly when no live block starts at the pointer.
pub unallocate-none :
    (pointer : ℕ) (s : Allocator)
    → (unallocate pointer s ≡ none) ↔ AllLive (λ a. a.start ≢ pointer) s.table
unfolding unallocate
unallocate-none pointer s = go (release-Released pointer s.table)
  where
    go :
        Outcome pointer s.table
        → (unallocate pointer s ≡ none) ↔ AllLive (λ a. a.start ≢ pointer) s.table
    go (inl (all, e)) = (λ h. all, λ h. rw e)
    go (inr (t', e, r)) = (λ h. absurd (ground (arith, e)), λ h. absurd (AllLive-absurd r h))

pub Released-IsValid :
    (pointer : ℕ) (s : Allocator) (t' : List Allocation)
    → IsValid s
    → Released pointer s.table t'
    → IsValid (record s { table = t'; allocations = sub64 s.allocations 1 })
Released-IsValid pointer s t' v r = record {
  counted = omega (arith, Released-live_count r, v.counted, v.few);
  few = omega (arith, Released-live_count r, v.counted, v.few);
  blocks = Released-AllLive (IsBlock s.memory) r v.blocks;
  apart = Released-Disjoint r v.apart;
}

-- Where `unallocate` ends, it took one block that starts at the pointer from the live blocks and
-- kept the state valid.
pub unallocate-IsValid :
    (pointer : ℕ) (s : Allocator) {s' : Allocator}
    → IsValid s
    → unallocate pointer s ≡ some s'
    → IsValid s' × ((e : ℕ) × Perm (live s.table) ((pointer, e) ∷ live s'.table))
unfolding unallocate
unallocate-IsValid pointer s {s'} v h = go (release-Released pointer s.table)
  where
    go :
        Outcome pointer s.table
        → IsValid s' × ((e : ℕ) × Perm (live s.table) ((pointer, e) ∷ live s'.table))
    go (inl (all, e)) = absurd (ground (arith, e))
    go (inr (t', e, r)) =
        let same : record s { table = t'; allocations = sub64 s.allocations 1 } ≡ s' =
          ground (arith, e) in
        subst (λ z. IsValid z × ((e : ℕ) × Perm (live s.table) ((pointer, e) ∷ live z.table))) same
          (Released-IsValid pointer s t' v r, Released-live r)

starts_elsewhere :
    (value amount : ℕ) (t : List Allocation)
    → 0 < amount
    → value + amount < 2 ^ 64
    → AllLive (λ a. a.start < a.end) t
    → collides value amount t ≡ false
    → AllLive (λ a. a.start ≢ value) t
starts_elsewhere value amount [] pos r full free = tt
starts_elsewhere value amount (a ∷ t) pos r full free =
    (λ p. ground (arith, full.0 p), starts_elsewhere value amount t pos r full.1 (ground arith))

-- If the block asked for and all live blocks hold a byte, releasing what `allocate` returned gives
-- back exactly the live blocks and the count of before.
pub allocate-unallocate :
    (amount : ℕ) (s : Allocator)
    → IsValid s
    → HasRoom 1 amount s
    → 0 < amount
    → AllLive (λ a. a.start < a.end) s.table
    → (p : ℕ) × (s' : Allocator) × (s'' : Allocator) × (allocate amount s ≡ some (p, s'))
      × (unallocate p s' ≡ some s'')
      × (live s''.table ≡ live s.table)
      × (s''.allocations ≡ s.allocations)
unfolding unallocate
allocate-unallocate amount s v room pos full =
    let (value, runs, found) = allocate-Found amount s v room in
    let (t', back, same) =
      release-place (entry_at value amount) s.allocations 0 s.table refl
        (starts_elsewhere value amount s.table pos found.in_range full found.free)
        (omega (arith, v.counted)) in
    (
      value,
      after amount value s,
      record (after amount value s) { table = t'; allocations = sub64 (u64 (s.allocations + 1)) 1 },
      runs,
      rw back,
      same,
      omega (arith, v.few),
    )

-- Where a live block starts at the pointer, `unallocate` ends, and releases the first such block.
pub unallocate-Released :
    (pointer : ℕ) (s : Allocator)
    → ¬ AllLive (λ a. a.start ≢ pointer) s.table
    → (t' : List Allocation) × (unallocate pointer s
        ≡ some (record s { table = t'; allocations = sub64 s.allocations 1 }))
      × Released pointer s.table t'
unfolding unallocate
unallocate-Released pointer s there = go (release-Released pointer s.table)
  where
    go :
        Outcome pointer s.table
        → (t' : List Allocation) × (unallocate pointer s
            ≡ some (record s { table = t'; allocations = sub64 s.allocations 1 }))
          × Released pointer s.table t'
    go (inl (all, e)) = absurd (there all)
    go (inr (t', e, r)) = (t', rw e, r)
