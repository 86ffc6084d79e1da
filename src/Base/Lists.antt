-- ===== src/Base/Lists.antt =====
-- Lists measured and indexed by native numbers, under the library's names.
use korby_os.Base.Tests.{◌==◌, if◌then◌else◌}
use Prim.Native.Nat.{ℕ, zero, suc, ◌+◌, ◌<◌}
use mathlib.Core.Bool.{Bool, false, ◌||◌}
use mathlib.Core.Path.{◌≡◌, refl, ap}
use mathlib.Core.Logic.{◌⊎◌, inl, inr}
use mathlib.Core.List.{List, [], ◌∷◌, ◌++◌}
use mathlib.Core.Option.{Option, none, some}
use native.Mathlib.Omega.{arith}

module _ {ℓ} {A : Type ℓ} where
  abbrev pub length : List A → ℕ
  length [] = 0
  length (x ∷ xs) = suc (length xs)

  abbrev pub get_elem? : List A → ℕ → Option A
  get_elem? [] i = none
  get_elem? (x ∷ xs) zero = some x
  get_elem? (x ∷ xs) (suc i) = get_elem? xs i

  abbrev pub get_or : List A → ℕ → A → A
  get_or [] i d = d
  get_or (x ∷ xs) zero d = x
  get_or (x ∷ xs) (suc i) d = get_or xs i d

  -- A write out of bounds changes nothing.
  abbrev pub set : List A → ℕ → A → List A
  set [] i v = []
  set (x ∷ xs) zero v = v ∷ xs
  set (x ∷ xs) (suc i) v = x ∷ set xs i v

  abbrev pub take : ℕ → List A → List A
  take zero xs = []
  take (suc n) [] = []
  take (suc n) (x ∷ xs) = x ∷ take n xs

  abbrev pub drop : ℕ → List A → List A
  drop zero xs = xs
  drop (suc n) [] = []
  drop (suc n) (x ∷ xs) = drop n xs

  abbrev pub tail : List A → List A
  tail [] = []
  tail (x ∷ xs) = xs

  pub length-cases : (xs : List A) → (xs ≡ []) ⊎ ((n : ℕ) × (length xs ≡ suc n))
  length-cases [] = inl refl
  length-cases (x ∷ xs) = inr (length xs, refl)

  abbrev pub replicate : ℕ → A → List A
  replicate zero a = []
  replicate (suc n) a = a ∷ replicate n a

  pub length-append : (xs ys : List A) → length (xs ++ ys) ≡ length xs + length ys
  length-append [] ys = omega arith
  length-append (x ∷ xs) ys = omega (arith, length-append xs ys)

  pub length-set : (xs : List A) (i : ℕ) (v : A) → length (set xs i v) ≡ length xs
  length-set [] i v = refl
  length-set (x ∷ xs) zero v = refl
  length-set (x ∷ xs) (suc i) v = ap suc (length-set xs i v)

  pub take-set :
      (n : ℕ) (c : A) (xs : List A)
      → n < length xs
      → take (suc n) (set xs n c) ≡ take n xs ++ c ∷ []
  take-set n c [] room = absurd (omega (arith, room))
  take-set zero c (x ∷ xs) room = refl
  take-set (suc n) c (x ∷ xs) room = ap (λ l. x ∷ l) (take-set n c xs (omega (arith, room)))

  pub get_elem?-set :
      (l : List A) (i j : ℕ) (a : A)
      → i < length l
      → get_elem? (set l i a) j ≡ (if i == j then some a else get_elem? l j)
  get_elem?-set [] i j a h = absurd (omega (arith, h))
  get_elem?-set (x ∷ l) zero zero a h = refl
  get_elem?-set (x ∷ l) zero (suc j) a h = ground arith
  get_elem?-set (x ∷ l) (suc i) zero a h = ground arith
  get_elem?-set (x ∷ l) (suc i) (suc j) a h =
      ground (arith, get_elem?-set l i j a (omega (arith, h)))

  abbrev pub All {κ} : (A → Type κ) → List A → Type κ
  All P [] = Unit
  All P (x ∷ xs) = P x × All P xs

-- Membership of a number, as a test.
abbrev pub has : ℕ → List ℕ → Bool
has number [] = false
has number (item ∷ items) = (number == item) || has number items
