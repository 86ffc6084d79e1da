-- ===== src/Memory/Within.antt =====
-- Which live block a byte lies in, and what keeps it there.
use korby_os.Base.{
  ℕ, ◌+◌, ◌<◌, ◌≤◌, ◌≡◌, ◌≢◌, Bool, true, false, ◌||◌, ◌&&◌, List, [], ◌∷◌, ◌==◌, leb, ltb, arith,
  Bool-cases, inl, inr,
}
use korby_os.Memory.{Allocation, place}
use korby_os.Memory.Live.{live_count, covered}
use korby_os.Memory.Release.{Released}

-- The byte lies in a live block that starts at `o`.
abbrev pub within : ℕ → ℕ → List Allocation → Bool
within o b [] = false
within o b (a ∷ t) = (a.present && (a.start == o && (leb o b && ltb b a.end))) || within o b t

pub within-covered : (o b : ℕ) (t : List Allocation) → within o b t ≡ true → covered b t ≡ true
within-covered o b [] h = cc
within-covered o b (a ∷ t) h = ground (arith, within-covered o b t)

pub within-covered_start :
    (o b : ℕ) (t : List Allocation) → within o b t ≡ true → covered o t ≡ true
within-covered_start o b [] h = cc
within-covered_start o b (a ∷ t) h = ground (arith, within-covered_start o b t)

pub within-place :
    (new : Allocation) (o b n count : ℕ) (t : List Allocation)
    → count + live_count t ≡ n
    → within o b t ≡ true
    → within o b (place new n count t) ≡ true
unfolding place
within-place new o b n count [] e h = cc
within-place new o b n count (a ∷ t) e h = ground (arith, within-place new o b n (count + 1) t)

pub within-place_self :
    (new : Allocation) (b n count : ℕ) (t : List Allocation)
    → new.present ≡ true
    → new.start ≤ b
    → b < new.end
    → count + live_count t ≡ n
    → within new.start b (place new n count t) ≡ true
unfolding place
within-place_self new b n count [] used lo hi e = ground arith
within-place_self new b n count (a ∷ t) used lo hi e =
    ground (arith, within-place_self new b n (count + 1) t)

pub within-Released :
    (o b : ℕ) {pointer : ℕ} {t t' : List Allocation}
    → o ≢ pointer
    → Released pointer t t'
    → within o b t ≡ true
    → within o b t' ≡ true
within-Released o b ne (Released.here used at) h = ground arith
within-Released o b ne (Released.there {a} {t} miss r) h = elim (Bool-cases (within o b t)) [
  | inl deep ↦ ground (arith, within-Released o b ne r deep)
  | inr top ↦ ground arith
]
