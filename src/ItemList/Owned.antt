-- ===== src/ItemList/Owned.antt =====
-- Lists whose nodes are live blocks of the allocator.
use mathlib.Core.Path.{subst}
use korby_os.Base.{
  ℕ, ◌+◌, ◌<◌, ◌≡◌, refl, ◌⊎◌, Bool, true, false, List, [], ◌∷◌, ◌==◌, arith, has, Bool-cases, inl,
  inr, All,
}
use korby_os.Memory.{Allocation, Allocator, place}
use korby_os.Memory.Live.{live_count, covered, IsValid}
use korby_os.Memory.Release.{Released}
use korby_os.Memory.Within.{within, within-covered_start, within-place, within-Released}
use korby_os.ItemList.{Machine}
use korby_os.ItemList.Chain.{IsList}

-- A live block starts at the node, and holds at least the node's first word.
abbrev pub is_node : ℕ → List Allocation → Bool
is_node p t = within p (p + 7) t

abbrev pub Nodes : List Allocation → List ℕ → Type 0
Nodes t xs = All (λ p. is_node p t ≡ true) xs

-- The list's own word lies below the heap, or in a live block that is none of the nodes.
abbrev pub HeadOutside : ℕ → List ℕ → Allocator → Type 0
HeadOutside list xs heap =
    (list < heap.memory) ⊎ ((o : ℕ) × (has o xs ≡ false) × (within o list heap.table ≡ true))

pub record IsOwned (s : Machine) (list : ℕ) (xs : List ℕ) : Type 0 where
  pub is_list : IsList s.word list xs
  pub nodes : Nodes s.heap.table xs
  pub head : HeadOutside list xs s.heap
  pub valid : IsValid s.heap
  pub base : 0 < s.heap.memory

pub Nodes-place :
    (new : Allocation) (n : ℕ) (t : List Allocation) (xs : List ℕ)
    → live_count t ≡ n
    → Nodes t xs
    → Nodes (place new n 0 t) xs
Nodes-place new n t [] e h = tt
Nodes-place new n t (x ∷ xs) e h =
    (within-place new x (x + 7) n 0 t (omega arith) h.0, Nodes-place new n t xs e h.1)

pub not-mem_of_free :
    (p : ℕ) (t : List Allocation) (xs : List ℕ)
    → covered p t ≡ false
    → Nodes t xs
    → has p xs ≡ false
not-mem_of_free p t [] free h = refl
not-mem_of_free p t (x ∷ xs) free h = elim (Bool-cases (p == x)) [
  | inl same ↦
      let e : x ≡ p = ground arith in
      let taken : covered p t ≡ true =
        within-covered_start p (p + 7) t (subst (λ z. is_node z t ≡ true) e h.0) in
      absurd (ground (arith, taken))
  | inr other ↦ ground (arith, not-mem_of_free p t xs free h.1)
]

pub Nodes-release :
    {pointer : ℕ} {t t' : List Allocation} (xs : List ℕ)
    → Released pointer t t'
    → has pointer xs ≡ false
    → Nodes t xs
    → Nodes t' xs
Nodes-release [] r out h = tt
Nodes-release (x ∷ xs) r out h =
    (within-Released x (x + 7) (ground arith) r h.0, Nodes-release xs r (ground arith) h.1)
