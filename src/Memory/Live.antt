-- ===== src/Memory/Live.antt =====
-- What a table stands for: its live blocks, and what is assumed of them.
use korby_os.Base.{
  ℕ, suc, ◌+◌, ◌-◌, ◌^◌, ◌≤◌, ◌<◌, ◌≡◌, Bool, true, false, not, ◌&&◌, ◌||◌, List, [], ◌∷◌, arith,
  leb, ltb, if◌then◌else◌, ◌⊎◌, inl, inr, refl, Bool-cases,
}
use korby_os.Memory.{Allocation, Allocator, clear_of}

-- The blocks of the entries in use, from the top of the table: first byte and the one behind the last.
abbrev pub live : List Allocation → List (ℕ × ℕ)
live [] = []
live (a ∷ rest) = if a.present then (a.start, a.end) ∷ live rest else live rest

abbrev pub live_count : List Allocation → ℕ
live_count [] = 0
live_count (a ∷ rest) = if a.present then suc (live_count rest) else live_count rest

-- Some live entry is in the way of `amount` bytes at `value`.
abbrev pub collides : ℕ → ℕ → List Allocation → Bool
collides value amount [] = false
collides value amount (a ∷ rest) =
    (a.present && not (clear_of value amount a)) || collides value amount rest

-- A property of every live entry.
abbrev pub AllLive : (Allocation → Type 0) → List Allocation → Type 0
AllLive P [] = Unit {0}
AllLive P (a ∷ rest) = (a.present ≡ true → P a) × AllLive P rest

-- Two blocks share no byte.
abbrev pub Apart : Allocation → Allocation → Type 0
Apart a b = (leb a.end b.start || leb b.end a.start) ≡ true

abbrev pub Disjoint : List Allocation → Type 0
Disjoint [] = Unit {0}
Disjoint (a ∷ rest) = (a.present ≡ true → AllLive (Apart a) rest) × Disjoint rest

-- A block that does not wrap round the address space, at or above `memory`.
abbrev pub IsBlock : ℕ → Allocation → Type 0
IsBlock memory a = (memory ≤ a.start) × (a.start ≤ a.end) × (a.end < 2 ^ 64)

pub record IsValid (s : Allocator) : Type 0 where
  pub counted : s.allocations ≡ live_count s.table
  pub few : s.allocations < 2 ^ 64 - 1
  pub blocks : AllLive (IsBlock s.memory) s.table
  pub apart : Disjoint s.table

-- `entries` more entries can be counted, and `amount` more bytes fit below the end of the address
-- space, behind every block.
pub record HasRoom (entries amount : ℕ) (s : Allocator) : Type 0 where
  pub countable : s.allocations + entries < 2 ^ 64 - 1
  pub at_base : s.memory + amount < 2 ^ 64
  pub behind : AllLive (λ a. a.end + amount < 2 ^ 64) s.table

-- Some live entry has a property.
abbrev pub AnyLive : (Allocation → Type 0) → List Allocation → Type 0
AnyLive P [] = ⊥
AnyLive P (a ∷ rest) = (a.present ≡ true) × P a ⊎ AnyLive P rest

-- The byte belongs to a live block.
abbrev pub covered : ℕ → List Allocation → Bool
covered b [] = false
covered b (a ∷ rest) = (a.present && (leb a.start b && ltb b a.end)) || covered b rest

-- The entry lies across the `amount` bytes at `value`.
abbrev pub Across : ℕ → ℕ → Allocation → Type 0
Across value amount a = (a.start < value + amount) × (value < a.end)

pub covered_of_free :
    (value amount b : ℕ) (t : List Allocation)
    → collides value amount t ≡ false
    → value + amount < 2 ^ 64
    → value ≤ b
    → b < value + amount
    → covered b t ≡ false
covered_of_free value amount b [] h r lo hi = refl
covered_of_free value amount b (a ∷ t) h r lo hi = ground (arith, covered_of_free value amount b t)

pub Across-of_collides :
    (value amount : ℕ) (t : List Allocation)
    → value + amount < 2 ^ 64
    → collides value amount t ≡ true
    → AnyLive (Across value amount) t
Across-of_collides value amount [] r h = cc
Across-of_collides value amount (a ∷ t) r h =
    elim (Bool-cases (a.present && not (clear_of value amount a))) [
      | inl hit ↦ inl (ground arith, (ground arith, ground arith))
      | inr miss ↦ inr (Across-of_collides value amount t r (ground arith))
    ]
