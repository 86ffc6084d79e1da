-- ===== src/ItemList/Chain.antt =====
-- A chain of nodes in memory: what the walks find, and what a write to one word does.
use korby_os.Base.{
  ℕ, zero, suc, ◌<◌, ◌≡◌, refl, ◌≢◌, true, false, ◌||◌, some, List, [], ◌∷◌, ◌++◌, ◌==◌, arith, has,
  length,
}
use korby_os.ItemList.{Words, write, last_slot, slot_of, visits, iterate_list}

-- From the word at `list` the pointers lead through the nodes, and then to NULL.
abbrev pub Chain : Words → ℕ → List ℕ → Type 0
Chain m list [] = m list ≡ 0
Chain m list (x ∷ xs) = (m list ≡ x) × (x ≢ 0) × Chain m x xs

abbrev pub Distinct : List ℕ → Type 0
Distinct [] = Unit {0}
Distinct (x ∷ xs) = (has x xs ≡ false) × Distinct xs

-- The list at the address `list` has these nodes, all different and none at the list's own word.
pub record IsList (m : Words) (list : ℕ) (xs : List ℕ) : Type 0 where
  pub chain : Chain m list xs
  pub distinct : Distinct (list ∷ xs)

-- The word that holds the NULL pointer at the end.
abbrev pub last_of : ℕ → List ℕ → ℕ
last_of list [] = list
last_of list (x ∷ xs) = last_of x xs

pub has-append : (p : ℕ) (front back : List ℕ) → has p (front ++ back) ≡ (has p front || has p back)
has-append p [] back = refl
has-append p (item ∷ front) back = ground (arith, has-append p front back)

pub has-last_of : (list : ℕ) (xs : List ℕ) → has (last_of list xs) (list ∷ xs) ≡ true
has-last_of list [] = ground arith
has-last_of list (x ∷ xs) = ground (arith, has-last_of x xs)

pub ne_last_of : (a list : ℕ) (xs : List ℕ) → has a (list ∷ xs) ≡ false → a ≢ last_of list xs
ne_last_of a list [] h = ground arith
ne_last_of a list (x ∷ xs) h = ne_last_of a x xs (ground arith)

pub Chain-write :
    (m : Words) (a v list : ℕ) (xs : List ℕ)
    → has a (list ∷ xs) ≡ false
    → Chain m list xs
    → Chain (write m a v) list xs
unfolding write
Chain-write m a v list [] h c = ground arith
Chain-write m a v list (x ∷ xs) h c = (ground arith, c.1, Chain-write m a v x xs (ground arith) c.2)

pub last_slot_lem :
    (fuel : ℕ) (m : Words) (list : ℕ) (xs : List ℕ)
    → length xs < fuel
    → Chain m list xs
    → last_slot fuel m list ≡ some (last_of list xs)
unfolding last_slot
last_slot_lem zero m list xs short c = absurd (omega arith)
last_slot_lem (suc fuel) m list [] short c = rw (c, last_slot)
last_slot_lem (suc fuel) m list (x ∷ xs) short c =
    let more : (m list == 0) ≡ false = ground arith in
    rw (more, last_slot) (rw c.0 (last_slot_lem fuel m x xs (omega arith) c.2))

-- Hanging a new node behind the last one.
pub Chain-snoc :
    (m : Words) (p list : ℕ) (xs : List ℕ)
    → Chain m list xs
    → Distinct (list ∷ xs)
    → has p (list ∷ xs) ≡ false
    → p ≢ 0
    → Chain (write (write m (last_of list xs) p) p 0) list (xs ++ p ∷ [])
unfolding write
Chain-snoc m p list [] c d new ne = (ground arith, ne, ground arith)
Chain-snoc m p list (x ∷ xs) c d new ne =
    (ground (arith, ne_last_of list x xs), c.1, Chain-snoc m p x xs c.2 d.1 (ground arith) ne)

pub slot_of_lem :
    (fuel : ℕ) (m : Words) (list : ℕ) (xs : List ℕ) (item : ℕ) (ys : List ℕ)
    → length xs < fuel
    → Chain m list (xs ++ item ∷ ys)
    → Distinct (list ∷ (xs ++ item ∷ ys))
    → (slot_of fuel m list item ≡ some (last_of list xs)) × (m (last_of list xs) ≡ item)
unfolding slot_of
slot_of_lem zero m list xs item ys short c d = absurd (omega arith)
slot_of_lem (suc fuel) m list [] item ys short c d =
    let hit : (m list == item) ≡ true = ground arith in (rw (hit, slot_of), c.0)
slot_of_lem (suc fuel) m list (x ∷ xs) item ys short c d =
    let other : has x (xs ++ item ∷ ys) ≡ false = d.1.0 in
    let miss : (m list == item) ≡ false = ground (arith, has-append x xs (item ∷ ys)) in
    let more : (m list == 0) ≡ false = ground arith in
    let rest = slot_of_lem fuel m x xs item ys (omega arith) c.2 d.1 in
    (rw (miss, more, slot_of) (rw c.0 rest.0), rest.1)

-- Hanging what follows a node on the word that pointed to it.
pub Chain-unlink :
    (m : Words) (list : ℕ) (xs : List ℕ) (item : ℕ) (ys : List ℕ)
    → Chain m list (xs ++ item ∷ ys)
    → Distinct (list ∷ (xs ++ item ∷ ys))
    → Chain (write m (last_of list xs) (m item)) list (xs ++ ys)
unfolding write
Chain-unlink m list [] item [] c d = ground arith
Chain-unlink m list [] item (y ∷ ys) c d =
    (ground arith, c.2.1, Chain-write m list (m item) y ys (ground arith) c.2.2)
Chain-unlink m list (x ∷ xs) item ys c d = (
  ground (arith, ne_last_of list x xs, has-append list xs (item ∷ ys)),
  c.1,
  Chain-unlink m x xs item ys c.2 d.1,
)

pub visits_lem :
    (fuel : ℕ) (m : Words) (list : ℕ) (xs : List ℕ)
    → length xs < fuel
    → Chain m list xs
    → visits fuel m list ≡ some xs
unfolding visits iterate_list
visits_lem zero m list xs short c = absurd (omega arith)
visits_lem (suc fuel) m list [] short c = rw (c, visits)
visits_lem (suc fuel) m list (x ∷ xs) short c =
    let more : (m list == 0) ≡ false = ground arith in
    rw (more, visits) (rw c.0 (rw (visits_lem fuel m x xs (omega arith) c.2)))
