-- ===== src/Memory/Usage.antt =====
-- What `getUsedRam` returns.
use korby_os.Base.{
  ℕ, ◌+◌, ◌-◌, ◌^◌, ◌<◌, ◌≡◌, refl, true, some, List, [], ◌∷◌, arith, ◌==◌, if◌then◌else◌, inl, inr,
  Bool-cases, ap, u64, sub64, ◌∙◌,
}
use korby_os.Memory.{Allocation, Allocator, allocate, place, used_from, get_used_ram}
use korby_os.Memory.Live.{live, live_count, AllLive, IsBlock, IsValid, HasRoom}
use korby_os.Memory.Allocate.{entry_at, after, allocate-Found, after-IsValid}

-- The bytes of some blocks.
abbrev pub total : List (ℕ × ℕ) → ℕ
total [] = 0
total ((start, end) ∷ blocks) = (end - start) + total blocks

used_none : (t : List Allocation) → live_count t ≡ 0 → total (live t) ≡ 0
used_none [] h = refl
used_none (a ∷ t) h = ground (arith, used_none t)

sum_step :
    (memory used : ℕ) (a : Allocation) (t : List Allocation)
    → used < 2 ^ 64
    → (a.present ≡ true → IsBlock memory a)
    → u64 ((if a.present then u64 (used + sub64 a.end a.start) else used) + total (live t))
      ≡ u64 (used + total (live (a ∷ t)))
sum_step memory used a t r block = elim (Bool-cases a.present) [
  | inl p ↦ let b = block p in rw p (omega (arith, b.0, b.1, b.2))
  | inr p ↦ rw p
]

used_from-total :
    (memory n count used : ℕ) (t : List Allocation)
    → count + live_count t ≡ n
    → used < 2 ^ 64
    → AllLive (IsBlock memory) t
    → used_from n count used t ≡ some (u64 (used + total (live t)))
unfolding used_from
used_from-total memory n count used [] e r all = ground arith
used_from-total memory n count used (a ∷ t) e r all = elim (Bool-cases (count == n)) [
  | inl stop ↦ rw stop (ap some (omega (arith, used_none (a ∷ t) (ground arith))))
  | inr more ↦ rw more (
      used_from-total memory n (if a.present then count + 1 else count)
        (if a.present then u64 (used + sub64 a.end a.start) else used) t (ground arith)
        (ground arith) all.1
      ∙ ap some (sum_step memory used a t r all.0))
]

-- In a valid state `getUsedRam` ends, and returns the bytes of the live blocks modulo 2^64.
pub get_used_ram-total :
    (s : Allocator) → IsValid s → get_used_ram s ≡ some (u64 (total (live s.table)))
unfolding get_used_ram
get_used_ram-total s v =
    used_from-total s.memory s.allocations 0 0 s.table (omega (arith, v.counted)) (omega arith)
      v.blocks
    ∙ ap some (omega arith)

place-total :
    (new : Allocation) (n count : ℕ) (t : List Allocation)
    → new.present ≡ true
    → count + live_count t ≡ n
    → total (live (place new n count t)) ≡ (new.end - new.start) + total (live t)
unfolding place
place-total new n count [] used e = ground arith
place-total new n count (a ∷ t) used e = ground (arith, place-total new n (count + 1) t)

-- After an `allocate` the number is larger by the amount, modulo 2^64.
pub get_used_ram-allocate :
    (amount : ℕ) (s : Allocator)
    → IsValid s
    → HasRoom 1 amount s
    → (p : ℕ) × (s' : Allocator) × (used : ℕ) × (allocate amount s ≡ some (p, s'))
      × (get_used_ram s ≡ some used)
      × (get_used_ram s' ≡ some (u64 (used + amount)))
get_used_ram-allocate amount s v room =
    let (value, runs, found) = allocate-Found amount s v room in
    let v' = after-IsValid amount value s v room found in
    (
      value,
      after amount value s,
      u64 (total (live s.table)),
      runs,
      get_used_ram-total s v,
      get_used_ram-total (after amount value s) v'
          ∙ ap some (
              omega (
                arith,
                place-total (entry_at value amount) s.allocations 0 s.table refl
                    (omega (arith, v.counted)),
                found.in_range,
              )),
    )
