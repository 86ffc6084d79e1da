-- ===== src/Memory/Allocate.antt =====
-- What `allocate` promises.
use mathlib.Core.List.{Perm}
use mathlib.Core.Path.{subst}
use korby_os.Base.{
  List, [], ◌-◌, ◌^◌, ℕ, suc, ◌+◌, ◌≤◌, ◌<◌, ◌≡◌, refl, true, false, some, ◌∷◌, arith, u64,
}
use korby_os.Memory.{Allocation, Allocator, allocate, find_value, place}
use korby_os.Memory.Live.{
  AllLive, live, IsBlock, IsValid, HasRoom, AnyLive, Across, covered, covered_of_free,
  Across-of_collides,
}
use korby_os.Memory.Search.{Found, search_total}
use korby_os.Memory.Table.{
  Apart-of_free, place-AllLive, place-Disjoint, place-live_count, place-live,
}

-- The entry that `allocate` writes.
abbrev pub entry_at : ℕ → ℕ → Allocation
entry_at value amount = record { present = true; start = value; end = u64 (value + amount) }

-- The state that `allocate` leaves when it has found `value`.
abbrev pub after : ℕ → ℕ → Allocator → Allocator
after amount value s = record s {
  table = place (entry_at value amount) s.allocations 0 s.table;
  allocations = u64 (s.allocations + 1);
}

pub allocate-Found :
    (amount : ℕ) (s : Allocator)
    → IsValid s
    → HasRoom 1 amount s
    → (value : ℕ) × (allocate amount s ≡ some (value, after amount value s))
      × Found s.memory amount s.table value
unfolding allocate
allocate-Found amount s v room =
    let (value, runs, found) = search_total amount s.memory s.table room.at_base room.behind in
    let runs' : find_value (suc s.allocations) amount s.allocations s.table s.memory ≡ some value =
      rw v.counted runs in
    (value, rw runs', found)

module _ {P Q : Allocation → Type 0} (f : (a : Allocation) → P a → Q a) where
  AllLive-map : (t : List Allocation) → AllLive P t → AllLive Q t
  AllLive-map [] h = tt
  AllLive-map (a ∷ t) h = (λ p. f a (h.0 p), AllLive-map t h.1)

pub HasRoom-weaken : (n m a b : ℕ) (s : Allocator) → n ≤ m → a ≤ b → HasRoom m b s → HasRoom n a s
HasRoom-weaken n m a b s hn ha room = record {
  countable = omega arith;
  at_base = omega arith;
  behind = AllLive-map (λ e h. omega arith) s.table room.behind;
}

-- What is left of the room after an `allocate`.
pub after-HasRoom :
    (entries amount extra value : ℕ) (s : Allocator)
    → HasRoom (suc entries) (amount + extra) s
    → Found s.memory amount s.table value
    → HasRoom entries extra (after amount value s)
after-HasRoom entries amount extra value s room found =
    let limit : ℕ = 2 ^ 64 - 1 - (amount + extra) in
    let low : value ≤ limit =
      found.reach limit (omega arith) (AllLive-map (λ e h. omega arith) s.table room.behind) in
    record {
      countable = omega arith;
      at_base = omega arith;
      behind =
          place-AllLive (entry_at value amount) refl (λ a. a.end + extra < 2 ^ 64) s.allocations 0
            s.table (omega arith) (AllLive-map (λ e h. omega arith) s.table room.behind);
    }

pub after-IsValid :
    (amount value : ℕ) (s : Allocator)
    → IsValid s
    → HasRoom 1 amount s
    → Found s.memory amount s.table value
    → IsValid (after amount value s)
after-IsValid amount value s v room found = record {
  counted = omega (arith, place-live_count new refl s.allocations 0 s.table (omega arith));
  few = omega arith;
  blocks = place-AllLive new refl (IsBlock s.memory) s.allocations 0 s.table (omega arith) v.blocks;
  apart =
      place-Disjoint new refl s.allocations 0 s.table
        (Apart-of_free value amount new s.table refl refl found.free) v.apart;
}
  where
    new : Allocation
    new = entry_at value amount

after-live :
    (amount value : ℕ) (s : Allocator)
    → IsValid s
    → Found s.memory amount s.table value
    → Perm (live (after amount value s).table) ((value, value + amount) ∷ live s.table)
after-live amount value s v found =
    let exact : u64 (value + amount) ≡ value + amount = omega (arith, found.in_range) in
    subst (λ e. Perm (live (after amount value s).table) ((value, e) ∷ live s.table)) exact
      (place-live (entry_at value amount) refl s.allocations 0 s.table (omega (arith, v.counted)))

-- From a valid state with room for `amount` bytes, `allocate` ends and returns the start of a block
-- above `memory` that shares no byte with a live block; the live blocks afterwards are the old ones
-- and this one, and the state is valid.
pub allocate_lem :
    (amount : ℕ) (s : Allocator)
    → IsValid s
    → HasRoom 1 amount s
    → (p : ℕ) × (s' : Allocator) × (allocate amount s ≡ some (p, s'))
      × (s.memory ≤ p)
      × ((b : ℕ) → p ≤ b → b < p + amount → covered b s.table ≡ false)
      × Perm (live s'.table) ((p, p + amount) ∷ live s.table)
      × IsValid s'
allocate_lem amount s v room =
    let (value, runs, found) = allocate-Found amount s v room in
    (
      value,
      after amount value s,
      runs,
      found.from,
      (λ b lo hi. covered_of_free value amount b s.table found.free found.in_range lo hi),
      after-live amount value s v found,
      after-IsValid amount value s v room found,
    )

-- The block that `allocate` returns is the lowest one that is free: `amount` bytes at any lower
-- address from `memory` on would run into a live block.
pub allocate-lowest :
    (amount : ℕ) (s : Allocator) {p : ℕ} {s' : Allocator}
    → IsValid s
    → HasRoom 1 amount s
    → allocate amount s ≡ some (p, s')
    → (u : ℕ) → s.memory ≤ u
    → u < p
    → AnyLive (Across u amount) s.table
allocate-lowest amount s v room e u lo hi =
    let (value, runs, found) = allocate-Found amount s v room in
    Across-of_collides u amount s.table (ground (arith, found.in_range))
      (found.first u lo (ground (arith, e, runs)))

-- One `allocate` of several: it ends, the state stays valid, and the rest of the room is left.
pub allocate-HasRoom :
    (entries amount extra : ℕ) (s : Allocator)
    → IsValid s
    → HasRoom (suc entries) (amount + extra) s
    → (p : ℕ) × (s' : Allocator) × (allocate amount s ≡ some (p, s'))
      × IsValid s'
      × HasRoom entries extra s'
allocate-HasRoom entries amount extra s v room =
    let one : HasRoom 1 amount s =
      HasRoom-weaken 1 (suc entries) amount (amount + extra) s (omega arith) (omega arith) room in
    let (value, runs, found) = allocate-Found amount s v one in
    (
      value,
      after amount value s,
      runs,
      after-IsValid amount value s v one found,
      after-HasRoom entries amount extra value s room found,
    )
