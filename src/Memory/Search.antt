-- ===== src/Memory/Search.antt =====
-- One pass of the search of `allocate`, and the search as a whole.
use korby_os.Base.{
  ℕ, zero, suc, ◌+◌, ◌^◌, ◌≤◌, ◌<◌, ◌≡◌, refl, true, false, not, ◌&&◌, some, List, [], ◌∷◌, arith,
  ltb, ◌==◌, if◌then◌else◌, inl, inr, Bool-cases,
}
use korby_os.Memory.{Allocation, Pass, fits, bump, lost, clear_of, pass, find_value}
use korby_os.Memory.Live.{live_count, collides, AllLive}

-- How many live blocks end behind `value`: what a restart of the search makes smaller.
ends_behind : ℕ → List Allocation → ℕ
ends_behind value [] = 0
ends_behind value (a ∷ rest) =
    if a.present && ltb value a.end then suc (ends_behind value rest) else ends_behind value rest

ends_behind_mono : (v w : ℕ) (t : List Allocation) → v ≤ w → ends_behind w t ≤ ends_behind v t
unfolding ends_behind
ends_behind_mono v w [] h = omega arith
ends_behind_mono v w (a ∷ t) h = ground (arith, ends_behind_mono v w t h)

ends_behind-le : (v : ℕ) (t : List Allocation) → ends_behind v t ≤ live_count t
unfolding ends_behind
ends_behind-le v [] = omega arith
ends_behind-le v (a ∷ t) = ground (arith, ends_behind-le v t)

abbrev Blocked : ℕ → ℕ → ℕ → List Allocation → Type 0
Blocked v w amount t = (u : ℕ) → v ≤ u → u < w → collides u amount t ≡ true

-- What the result of a pass says about the table.
abbrev PassMeans : ℕ → ℕ → List Allocation → Pass → Type 0
PassMeans v amount t fits = collides v amount t ≡ false
PassMeans v amount t (bump w) =
    (v < w)
    × Blocked v w amount t
    × (ends_behind w t < ends_behind v t)
    × (w + amount < 2 ^ 64)
    × ((limit : ℕ) → AllLive (λ a. a.end ≤ limit) t → w ≤ limit)
PassMeans v amount t lost = ⊥

collides_zero :
    (v amount : ℕ) (t : List Allocation) → live_count t ≡ 0 → collides v amount t ≡ false
collides_zero v amount [] h = refl
collides_zero v amount (a ∷ t) h = ground (arith, collides_zero v amount t)

-- The colliding entry stands at the head.
pass_head :
    (v amount : ℕ) (a : Allocation) (t : List Allocation)
    → a.present ≡ true
    → clear_of v amount a ≡ false
    → v + amount < 2 ^ 64
    → a.end + amount < 2 ^ 64
    → PassMeans v amount (a ∷ t) (bump a.end)
unfolding ends_behind
pass_head v amount a t p c hv he = (
  ground arith,
  λ u lo hi. ground arith,
  ground (arith, ends_behind_mono v a.end t),
  he,
  λ limit all. all.0 p,
)

-- The pass goes on behind an entry that is not in the way.
pass_tail :
    (v amount : ℕ) (a : Allocation) (t : List Allocation) (r : Pass)
    → (a.present && not (clear_of v amount a)) ≡ false
    → PassMeans v amount t r
    → PassMeans v amount (a ∷ t) r
unfolding ends_behind
pass_tail v amount a t fits c m = ground arith
pass_tail v amount a t (bump w) c m = (
  m.0,
  λ u lo hi. ground (arith, m.1 u lo hi),
  ground (arith, ends_behind_mono v w t),
  m.3,
  λ limit all. m.4 limit all.1,
)
pass_tail v amount a t lost c m = m

pass_means :
    (v amount n count : ℕ) (t : List Allocation)
    → count + live_count t ≡ n
    → v + amount < 2 ^ 64
    → AllLive (λ a. a.end + amount < 2 ^ 64) t
    → PassMeans v amount t (pass v amount n count t)
unfolding pass
pass_means v amount n count [] e hv room = ground arith
pass_means v amount n count (a ∷ t) e hv room = elim (Bool-cases (count == n)) [
  | inl stop ↦ rw stop (collides_zero v amount (a ∷ t) (ground arith))
  | inr more ↦ rw more (elim (Bool-cases (a.present && not (clear_of v amount a))) [
    | inl hit ↦
        rw hit (pass_head v amount a t (ground arith) (ground arith) hv (room.0 (ground arith)))
    | inr free ↦ rw free (
        pass_tail v amount a t _ free (
          pass_means v amount n (if a.present then count + 1 else count) t (ground arith) hv
            room.1))
  ])
]

-- The outcome of the search from `v` on: the first value whose block collides with nothing.
pub record Found (v amount : ℕ) (t : List Allocation) (value : ℕ) : Type 0 where
  pub from : v ≤ value
  pub free : collides value amount t ≡ false
  pub first : (u : ℕ) → v ≤ u → u < value → collides u amount t ≡ true
  pub in_range : value + amount < 2 ^ 64
  pub reach : (limit : ℕ) → v ≤ limit → AllLive (λ a. a.end ≤ limit) t → value ≤ limit

Found-later :
    {v w amount value : ℕ} {t : List Allocation}
    → v < w
    → Blocked v w amount t
    → ((limit : ℕ) → AllLive (λ a. a.end ≤ limit) t → w ≤ limit)
    → Found w amount t value
    → Found v amount t value
Found-later {w} below blocked edge f = record {
  from = omega arith;
  free = f.free;
  first = λ u lo hi. elim (Bool-cases (ltb u w)) [
    | inl early ↦ blocked u lo (ground arith)
    | inr late ↦ f.first u (ground arith) hi
  ];
  in_range = f.in_range;
  reach = λ limit lo all. f.reach limit (edge limit all) all;
}

abbrev Ends : ℕ → ℕ → ℕ → List Allocation → Type 0
Ends fuel amount v t =
    (value : ℕ) × (find_value fuel amount (live_count t) t v ≡ some value) × Found v amount t value

-- One round: the pass stops the search, or the search goes on from a larger value.
search_round :
    (fuel amount v : ℕ) (t : List Allocation) (r : Pass)
    → v + amount < 2 ^ 64
    → ((w : ℕ) → ends_behind w t < ends_behind v t → w + amount < 2 ^ 64 → Ends fuel amount w t)
    → pass v amount (live_count t) 0 t ≡ r
    → PassMeans v amount t r
    → Ends (suc fuel) amount v t
unfolding find_value
search_round fuel amount v t fits hv later e m =
    let found : Found v amount t v = record {
      from = omega arith;
      free = m;
      first = λ u lo hi. absurd (omega arith);
      in_range = hv;
      reach = λ limit lo all. lo;
    } in
    (v, rw (e, find_value), found)
search_round fuel amount v t (bump w) hv later e m =
    let (value, runs, found) = later w m.2 m.3 in
    (value, rw (e, find_value) runs, Found-later m.0 m.1 m.4 found)
search_round fuel amount v t lost hv later e m = absurd m

search_from :
    (fuel amount v : ℕ) (t : List Allocation)
    → ends_behind v t < fuel
    → v + amount < 2 ^ 64
    → AllLive (λ a. a.end + amount < 2 ^ 64) t
    → Ends fuel amount v t
search_from zero amount v t short hv room = absurd (omega arith)
search_from (suc fuel) amount v t short hv room =
    search_round fuel amount v t _ hv
      (λ w less hw. search_from fuel amount w t (omega arith) hw room) refl
      (pass_means v amount (live_count t) 0 t (omega arith) hv room)

-- With as much fuel as there are live blocks, and one more, the search ends.
pub search_total :
    (amount v : ℕ) (t : List Allocation)
    → v + amount < 2 ^ 64
    → AllLive (λ a. a.end + amount < 2 ^ 64) t
    → (value : ℕ) × (find_value (suc (live_count t)) amount (live_count t) t v ≡ some value)
      × Found v amount t value
search_total amount v t hv room =
    search_from (suc (live_count t)) amount v t (omega (arith, ends_behind-le v t)) hv room
