-- ===== src/Memory.antt =====
-- The kernel's allocator: `allocate` and `unallocate` of src/main.h, `getUsedRam` of src/main.c.
--
-- The table of `Allocation` entries grows downwards from `allocated`. It is a list here: element i
-- is the entry at `allocated - i`, and the entries beyond the list have never been written, so
-- their `present` is FALSE. A loop that runs past the list finds no further entry and does not
-- end: such a run is `none` (for the inner search, `lost`).
pub mod Live
pub mod Allocate
pub mod EmptyBlock
pub mod Free
pub mod Usage
pub mod Within
pub mod Release
pub mod Search
pub mod Table
mod Tests
use korby_os.Base.{
  ℕ, zero, suc, ◌+◌, Bool, true, false, not, ◌&&◌, ◌||◌, Option, none, some, List, [], ◌∷◌, leb,
  ◌==◌, if◌then◌else◌, u64, sub64,
}
use mathlib.Core.Option

pub record Allocation : Type 0 where
  pub present : Bool
  pub start : ℕ
  pub end : ℕ

-- The globals `memory`, `allocated` (the table) and `allocations`.
pub record Allocator : Type 0 where
  pub memory : ℕ
  pub table : List Allocation
  pub allocations : ℕ

-- How a pass over the table ends.
pub data Pass : Type 0 where
  fits : Pass
  bump : ℕ → Pass
  lost : Pass

-- The block of `amount` bytes at `value` keeps clear of the entry.
abbrev pub clear_of : ℕ → ℕ → Allocation → Bool
clear_of value amount a = leb (u64 (value + amount)) a.start || leb a.end value

-- One pass of the first loop of `allocate`, from the top of the table or from `count` on.
pub pass : ℕ → ℕ → ℕ → ℕ → List Allocation → Pass
pass value amount allocations count [] = if count == allocations then fits else lost
pass value amount allocations count (a ∷ rest) =
    let further = pass value amount allocations (if a.present then count + 1 else count) rest in
    if count == allocations
    then fits
    else if a.present && not (clear_of value amount a)
    then bump a.end
    else further

-- The first loop of `allocate`: a collision moves `value` behind the entry and starts again.
pub find_value : ℕ → ℕ → ℕ → List Allocation → ℕ → Option ℕ
find_value zero amount allocations table value = none
find_value (suc fuel) amount allocations table value =
    elim (pass value amount allocations 0 table) [
      | fits ↦ some value
      | bump next ↦ find_value fuel amount allocations table next
      | lost ↦ none
    ]

-- The second loop of `allocate`: the first entry that is free, or the one behind all the others.
pub place : Allocation → ℕ → ℕ → List Allocation → List Allocation
place new allocations count [] = new ∷ []
place new allocations count (a ∷ rest) =
    if a.present && not (count == allocations)
    then a ∷ place new allocations (count + 1) rest
    else new ∷ rest

pub allocate : ℕ → Allocator → Option (ℕ × Allocator)
allocate amount s =
    Option.map
      (λ value. (
        value,
        record s {
          table =
              place (record { present = true; start = value; end = u64 (value + amount) })
                s.allocations 0 s.table;
          allocations = u64 (s.allocations + 1);
        },
      ))
      (find_value (suc s.allocations) amount s.allocations s.table s.memory)

-- The loop of `unallocate`, with the write to the entry that it stops at.
pub release : ℕ → List Allocation → Option (List Allocation)
release pointer [] = none
release pointer (a ∷ rest) =
    if not a.present || not (a.start == pointer)
    then Option.map (λ l. a ∷ l) (release pointer rest)
    else some (record a { present = false } ∷ rest)

pub unallocate : ℕ → Allocator → Option Allocator
unallocate pointer s =
    Option.map (λ l. record s { table = l; allocations = sub64 s.allocations 1 })
      (release pointer s.table)

-- The loop of `getUsedRam`.
pub used_from : ℕ → ℕ → ℕ → List Allocation → Option ℕ
used_from allocations count used [] = if count == allocations then some used else none
used_from allocations count used (a ∷ rest) =
    let further =
      used_from allocations (if a.present then count + 1 else count)
        (if a.present then u64 (used + sub64 a.end a.start) else used) rest in
    if count == allocations then some used else further

pub get_used_ram : Allocator → Option ℕ
get_used_ram s = used_from s.allocations 0 0 s.table
