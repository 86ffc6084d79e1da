-- ===== src/Memory/Table.antt =====
-- How a new entry and a released one change the table.
use mathlib.Core.List.{Perm}
use mathlib.Core.List.Perm
use korby_os.Base.{
  ℕ, suc, ◌+◌, ◌≡◌, true, false, not, ◌&&◌, List, [], ◌∷◌, arith, ◌==◌, inl, inr, Bool-cases, u64,
}
use korby_os.Memory.{Allocation, place}
use korby_os.Memory.Live.{live, live_count, collides, AllLive, Apart, Disjoint}

Apart-symm : (a b : Allocation) → Apart a b → Apart b a
Apart-symm a b h = ground arith

-- A value that collides with nothing makes a block apart from every live one.
pub Apart-of_free :
    (value amount : ℕ) (new : Allocation) (t : List Allocation)
    → new.start ≡ value
    → new.end ≡ u64 (value + amount)
    → collides value amount t ≡ false
    → AllLive (Apart new) t
Apart-of_free value amount new [] s e h = tt
Apart-of_free value amount new (a ∷ t) s e h =
    (λ p. ground arith, Apart-of_free value amount new t s e (ground arith))

module _ (new : Allocation) (used : new.present ≡ true) where
  pub place-AllLive :
      (P : Allocation → Type 0) (n count : ℕ) (t : List Allocation)
      → P new
      → AllLive P t
      → AllLive P (place new n count t)
  unfolding place
  place-AllLive P n count [] h all = (λ p. h, tt)
  place-AllLive P n count (a ∷ t) h all = elim (Bool-cases (a.present && not (count == n))) [
    | inl on ↦ rw on (all.0, place-AllLive P n (count + 1) t h all.1)
    | inr here ↦ rw here (λ p. h, all.1)
  ]

  pub place-Disjoint :
      (n count : ℕ) (t : List Allocation)
      → AllLive (Apart new) t
      → Disjoint t
      → Disjoint (place new n count t)
  unfolding place
  place-Disjoint n count [] h d = (λ p. tt, tt)
  place-Disjoint n count (a ∷ t) h d = elim (Bool-cases (a.present && not (count == n))) [
    | inl on ↦ rw on (
      λ p. place-AllLive (Apart a) n (count + 1) t (Apart-symm new a (h.0 p)) (d.0 p),
      place-Disjoint n (count + 1) t h.1 d.1,
    )
    | inr here ↦ rw here (λ p. h.1, d.1)
  ]

  pub place-live_count :
      (n count : ℕ) (t : List Allocation)
      → count + live_count t ≡ n
      → live_count (place new n count t) ≡ suc (live_count t)
  unfolding place
  place-live_count n count [] e = ground arith
  place-live_count n count (a ∷ t) e = ground (arith, place-live_count n (count + 1) t)

  -- The live blocks afterwards are those before and the new one.
  pub place-live :
      (n count : ℕ) (t : List Allocation)
      → count + live_count t ≡ n
      → Perm (live (place new n count t)) ((new.start, new.end) ∷ live t)
  unfolding place
  place-live n count [] e = rw used (Perm.refl _)
  place-live n count (a ∷ t) e = elim (Bool-cases a.present) [
    | inl p ↦
        let on : (count == n) ≡ false = ground arith in
        rw (p, on)
          (Perm.trans (Perm.cons (a.start, a.end) (place-live n (count + 1) t (ground arith)))
            (Perm.swap (new.start, new.end) (a.start, a.end) (live t)))
    | inr p ↦ rw p (rw used (Perm.refl _))
  ]
