-- ===== src/Memory/Release.antt =====
-- What a released entry does to the table.
use mathlib.Core.List.{Perm}
use mathlib.Core.List.Perm
use korby_os.Base.{
  ℕ, suc, ◌+◌, ◌≡◌, refl, true, false, ◌&&◌, none, some, List, [], ◌∷◌, arith, ◌==◌, ◌⊎◌, inl, inr,
  Bool-cases, ◌≢◌,
}
use korby_os.Memory.{Allocation, place, release}
use korby_os.Memory.Live.{live, live_count, AllLive, Apart, Disjoint}

-- The outcome of `release`: the first live entry at the pointer is marked free, the rest stays.
pub data Released (pointer : ℕ) : List Allocation → List Allocation → Type 0 where
  here :
      {a : Allocation} {t : List Allocation}
      → a.present ≡ true
      → a.start ≡ pointer
      → Released pointer (a ∷ t) (record a { present = false } ∷ t)
  there :
      {a : Allocation} {t t' : List Allocation}
      → (a.present && a.start == pointer) ≡ false
      → Released pointer t t'
      → Released pointer (a ∷ t) (a ∷ t')

-- Either no live entry starts at the pointer and the loop does not end, or one is released.
abbrev pub Outcome : ℕ → List Allocation → Type 0
Outcome pointer t =
    AllLive (λ a. a.start ≢ pointer) t × (release pointer t ≡ none)
    ⊎ ((t' : List Allocation) × (release pointer t ≡ some t') × Released pointer t t')

Outcome-cons :
    (pointer : ℕ) (a : Allocation) (t : List Allocation)
    → (a.present && a.start == pointer) ≡ false
    → Outcome pointer t
    → Outcome pointer (a ∷ t)
unfolding release
Outcome-cons pointer a t miss (inl (none_at, e)) =
    inl ((λ p. ground arith, none_at), ground (arith, e))
Outcome-cons pointer a t miss (inr (t', e, r)) = inr (a ∷ t', ground (arith, e), there miss r)

pub release-Released : (pointer : ℕ) (t : List Allocation) → Outcome pointer t
unfolding release
release-Released pointer [] = inl (tt, refl)
release-Released pointer (a ∷ t) = elim (Bool-cases (a.present && a.start == pointer)) [
  | inl hit ↦
      let used : a.present ≡ true = ground arith in
      let at : a.start ≡ pointer = ground arith in
      inr (record a { present = false } ∷ t, ground arith, here used at)
  | inr miss ↦ Outcome-cons pointer a t miss (release-Released pointer t)
]

pub Released-AllLive :
    (P : Allocation → Type 0) {pointer : ℕ} {t t' : List Allocation}
    → Released pointer t t'
    → AllLive P t
    → AllLive P t'
Released-AllLive P (here used at) all = (λ p. cc, all.1)
Released-AllLive P (there miss r) all = (all.0, Released-AllLive P r all.1)

pub Released-Disjoint :
    {pointer : ℕ} {t t' : List Allocation} → Released pointer t t' → Disjoint t → Disjoint t'
Released-Disjoint (here used at) d = (λ p. cc, d.1)
Released-Disjoint (there {a} miss r) d =
    (λ p. Released-AllLive (Apart a) r (d.0 p), Released-Disjoint r d.1)

-- The live blocks before are the released one, which starts at the pointer, and those after.
pub Released-live :
    {pointer : ℕ} {t t' : List Allocation}
    → Released pointer t t'
    → (e : ℕ) × Perm (live t) ((pointer, e) ∷ live t')
Released-live (here {a} {t} used at) = (a.end, rw (used, at) (Perm.refl _))
Released-live {t} (there {a} {t = rest} {t' = rest'} miss r) =
    let (e, p) = Released-live r in
    (
      e,
      elim (Bool-cases a.present) [
        | inl used ↦ rw used (Perm.trans (Perm.cons (a.start, a.end) p) (Perm.swap _ _ _))
        | inr unused ↦ rw unused p
      ],
    )

pub Released-live_count :
    {pointer : ℕ} {t t' : List Allocation}
    → Released pointer t t'
    → live_count t ≡ suc (live_count t')
Released-live_count (here used at) = ground arith
Released-live_count (there miss r) = ground (arith, Released-live_count r)

-- Releasing a block just placed gives back the live blocks, where no other one starts there.
pub release-place :
    (new : Allocation) (n count : ℕ) (t : List Allocation)
    → new.present ≡ true
    → AllLive (λ a. a.start ≢ new.start) t
    → count + live_count t ≡ n
    → (t' : List Allocation) × (release new.start (place new n count t) ≡ some t')
      × (live t' ≡ live t)
unfolding release place
release-place new n count [] used other e =
    (record new { present = false } ∷ [], ground arith, refl)
release-place new n count (a ∷ t) used other e = elim (Bool-cases a.present) [
  | inl p ↦
      let (t', runs, same) = release-place new n (count + 1) t used other.1 (ground arith) in
      let ne : a.start ≢ new.start = other.0 p in
      (a ∷ t', ground (arith, runs), ground (arith, same))
  | inr p ↦ (record new { present = false } ∷ t, ground arith, ground arith)
]
