-- ===== src/ItemList/Walk.antt =====
-- Going through a list: `iterateList`, `listLength` and `unallocateList`.
use mathlib.Core.List.{Perm}
use mathlib.Core.List.Perm
use korby_os.Base.{
  ℕ, zero, suc, ◌+◌, ◌<◌, ◌^◌, ◌≡◌, refl, ◌≢◌, false, some, List, [], ◌∷◌, ◌++◌, ◌==◌, arith,
  length, u64, sub64, ap, ◌∙◌, map,
}
use korby_os.Memory.{Allocation, Allocator}
use korby_os.Memory.Live.{live, IsValid}
use korby_os.Memory.Release.{Released, Released-live}
use korby_os.Memory.Free.{Released-IsValid, unallocate-Released}
use korby_os.ItemList.{Machine, visits, list_length, length_from, unallocate_list}
use korby_os.ItemList.Chain.{Distinct, Chain}
use korby_os.ItemList.Owned.{Nodes, IsOwned, Nodes-release}
use korby_os.ItemList.Chain.{visits_lem}
use korby_os.ItemList.Remove.{node_found}

length_from_next :
    (fuel : ℕ) (m : ℕ → ℕ) (p i q : ℕ)
    → p ≢ 0
    → m p ≡ q
    → length_from (suc fuel) m p i ≡ length_from fuel m q (u64 (i + 1))
unfolding length_from
length_from_next fuel m p i q ne e =
    let more : (p == 0) ≡ false = ground arith in
    rw (more, length_from) (ap (λ z. length_from fuel m z (u64 (i + 1))) e)

length_from_end : (fuel : ℕ) (m : ℕ → ℕ) (i : ℕ) → length_from (suc fuel) m 0 i ≡ some i
unfolding length_from
length_from_end fuel m i = refl

length_from_lem :
    (fuel : ℕ) (m : ℕ → ℕ) (p i : ℕ) (xs : List ℕ)
    → p ≢ 0
    → Chain m p xs
    → length xs < fuel
    → i + length xs + 1 < 2 ^ 64
    → length_from (suc fuel) m p i ≡ some (i + length xs + 1)
length_from_lem zero m p i xs ne c short r = absurd (omega arith)
length_from_lem (suc fuel) m p i [] ne c short r =
    length_from_next (suc fuel) m p i 0 ne c
    ∙ length_from_end fuel m (u64 (i + 1))
    ∙ ap some (omega arith)
length_from_lem (suc fuel) m p i (x ∷ xs) ne c short r =
    length_from_next (suc fuel) m p i x ne c.0
    ∙ length_from_lem fuel m x (u64 (i + 1)) xs c.1 c.2 (omega arith) (omega arith)
    ∙ ap some (omega arith)

-- A loop over `iterateList` visits exactly the nodes, in order, and `listLength` counts them.
pub visits-list_length :
    (fuel : ℕ) (s : Machine) (list : ℕ) (xs : List ℕ)
    → IsOwned s list xs
    → list ≢ 0
    → length xs < fuel
    → length xs + 1 < 2 ^ 64
    → (visits fuel s.word list ≡ some xs) × (list_length (suc fuel) s.word list ≡ some (length xs))
unfolding list_length
visits-list_length fuel s list xs own ne enough r = (
  visits_lem fuel s.word list xs (omega arith) own.is_list.chain,
  rw (length_from_lem fuel s.word list 0 xs ne own.is_list.chain enough (omega arith))
      (ap some (omega arith)),
)

-- The blocks `bs` start at `xs`, and with those live in the second table they are the ones in the first.
abbrev pub Freed : List ℕ → List Allocation → List Allocation → Type 0
Freed xs t t' = (bs : List (ℕ × ℕ)) × (map (λ b. b.0) bs ≡ xs) × Perm (live t) (bs ++ live t')

Freed-cons :
    {x : ℕ} {t t' : List Allocation} (t'' : List Allocation) (xs : List ℕ)
    → Released x t t'
    → Freed xs t' t''
    → Freed (x ∷ xs) t t''
Freed-cons {x} t'' xs r (bs, starts, p) =
    let (e, q) = Released-live r in
    ((x, e) ∷ bs, ap (λ l. x ∷ l) starts, Perm.trans q (Perm.cons (x, e) p))

unallocate_list_walk :
    (fuel : ℕ) (m : ℕ → ℕ) (list : ℕ) (xs : List ℕ) (heap : Allocator)
    → Chain m list xs
    → Distinct xs
    → Nodes heap.table xs
    → IsValid heap
    → length xs < fuel
    → (heap' : Allocator) × (unallocate_list fuel m list heap ≡ some heap')
      × IsValid heap'
      × Freed xs heap.table heap'.table
unfolding unallocate_list
unallocate_list_walk zero m list xs heap c d n v short = absurd (omega arith)
unallocate_list_walk (suc fuel) m list [] heap c d n v short =
    (heap, rw (c, unallocate_list), v, ([], refl, Perm.refl _))
unallocate_list_walk (suc fuel) m list (x ∷ xs) heap c d n v short =
    let more : (m list == 0) ≡ false = ground arith in
    let (t', runs, r) = unallocate-Released x heap (node_found x heap.table n.0) in
    let next = record heap { table = t'; allocations = sub64 heap.allocations 1 } in
    let (heap', walks, valid, freed) =
      unallocate_list_walk fuel m x xs next c.2 d.1 (Nodes-release xs r d.0 n.1)
        (Released-IsValid x heap t' v r) (omega arith) in
    (
      heap',
      rw (more, unallocate_list) (rw c.0 (rw runs walks)),
      valid,
      Freed-cons heap'.table xs r freed,
    )

-- `unallocateList` on a list whose nodes are live blocks ends, and releases exactly the blocks of
-- the nodes. (It writes no word: the list's own word still points to the first of them.)
pub unallocate_list-Freed :
    (fuel : ℕ) (s : Machine) (list : ℕ) (xs : List ℕ)
    → IsOwned s list xs
    → length xs < fuel
    → (heap' : Allocator) × (unallocate_list fuel s.word list s.heap ≡ some heap')
      × IsValid heap'
      × Freed xs s.heap.table heap'.table
unallocate_list-Freed fuel s list xs own enough =
    unallocate_list_walk fuel s.word list xs s.heap own.is_list.chain own.is_list.distinct.1
      own.nodes own.valid enough
