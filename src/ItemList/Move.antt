-- ===== src/ItemList/Move.antt =====
-- `moveItemEnd`.
use korby_os.Base.{
  ℕ, ◌<◌, ◌≡◌, refl, ◌≢◌, false, some, List, [], ◌∷◌, ◌++◌, arith, has, length, inl, inr,
  length-append,
}
use korby_os.Memory.{Allocator}
use korby_os.ItemList.{Machine, write, move_item_end}
use korby_os.ItemList.Chain.{
  Distinct, Chain, last_of, ne_last_of, last_slot_lem, Chain-snoc, slot_of_lem, Chain-unlink,
  has-append,
}
use korby_os.ItemList.Owned.{HeadOutside, IsOwned}
use korby_os.ItemList.Add.{Distinct-snoc, Nodes-snoc, HeadOutside-snoc}
use korby_os.ItemList.Remove.{Distinct-unlink, Nodes-unlink}

Chain-behind :
    (m : ℕ → ℕ) (list : ℕ) (xs ys : List ℕ) → Chain m list (xs ++ ys) → Chain m (last_of list xs) ys
Chain-behind m list [] ys c = c
Chain-behind m list (x ∷ xs) ys c = Chain-behind m x xs ys c.2

last_of-append :
    (list : ℕ) (xs ys : List ℕ) → last_of (last_of list xs) ys ≡ last_of list (xs ++ ys)
last_of-append list [] ys = refl
last_of-append list (x ∷ xs) ys = last_of-append x xs ys

ne_null_of_mid :
    (m : ℕ → ℕ) (list : ℕ) (xs : List ℕ) (item : ℕ) (ys : List ℕ)
    → Chain m list (xs ++ item ∷ ys)
    → item ≢ 0
ne_null_of_mid m list [] item ys c = c.1
ne_null_of_mid m list (x ∷ xs) item ys c = ne_null_of_mid m x xs item ys c.2

HeadOutside-cut :
    {list : ℕ} (item : ℕ) (xs ys : List ℕ) (heap : Allocator)
    → HeadOutside list (xs ++ item ∷ ys) heap
    → HeadOutside list (item ∷ (xs ++ ys)) heap
HeadOutside-cut item xs ys heap (inl below) = inl below
HeadOutside-cut item xs ys heap (inr (o, out, inside)) =
    inr (o, ground (arith, out, has-append o xs (item ∷ ys), has-append o xs ys), inside)

Distinct-move :
    (list : ℕ) (xs : List ℕ) (item : ℕ) (ys : List ℕ)
    → Distinct (list ∷ (xs ++ item ∷ ys))
    → Distinct (list ∷ (xs ++ ys)) × (has item (list ∷ (xs ++ ys)) ≡ false)
Distinct-move list xs item ys d =
    let rest = Distinct-unlink xs item ys d.1 in
    let parts = has-append list xs (item ∷ ys) in
    (
      (ground (arith, d.0, parts, has-append list xs ys), rest.0),
      ground (arith, d.0, parts, rest.1),
    )

-- The three words that are written are of the list.
moved_other :
    (m : ℕ → ℕ) (list : ℕ) (xs : List ℕ) (item : ℕ) (ys : List ℕ) (a : ℕ)
    → has a (list ∷ (xs ++ item ∷ ys)) ≡ false
    → write (write (write m (last_of list xs) (m item)) (last_of list (xs ++ ys)) item) item 0 a
      ≡ m a
unfolding write
moved_other m list xs item ys a out =
    (let parts = has-append a xs (item ∷ ys) in
      let all = has-append a xs ys in
      let before = ne_last_of a list xs (ground (arith, out, parts)) in
      let behind = ne_last_of a list (xs ++ ys) (ground (arith, out, parts, all)) in
      let other : a ≢ item = ground (arith, out, parts) in ground (arith, before, behind, other))

-- `moveItemEnd` on a node of a list whose nodes are live blocks ends: the node comes last, the
-- others keep their order, no block is asked for or released, and only words of the list are written.
pub move_item_end-snoc :
    (fuel list item : ℕ) (s : Machine) (xs ys : List ℕ)
    → IsOwned s list (xs ++ item ∷ ys)
    → length (xs ++ ys) < fuel
    → (s' : Machine) × (move_item_end fuel list item s ≡ some s')
      × IsOwned s' list ((xs ++ ys) ++ item ∷ [])
      × (s'.heap ≡ s.heap)
      × ((a : ℕ) → has a (list ∷ (xs ++ item ∷ ys)) ≡ false → s'.word a ≡ s.word a)
unfolding move_item_end
move_item_end-snoc fuel list item s xs ys own enough =
    let found =
      slot_of_lem fuel s.word list xs item ys (omega (arith, length-append {0} xs ys))
        own.is_list.chain own.is_list.distinct in
    let nodes = Nodes-unlink s.heap.table xs item ys own.nodes in
    let distinct = Distinct-move list xs item ys own.is_list.distinct in
    let cut = Chain-unlink s.word list xs item ys own.is_list.chain own.is_list.distinct in
    let walk =
      last_slot_lem fuel (write s.word (last_of list xs) (s.word item)) (last_of list xs) ys
        (omega (arith, length-append {0} xs ys)) (Chain-behind _ list xs ys cut) in
    let word' = write s.word (last_of list xs) (s.word item) in
    (
      record s { word = write (write word' (last_of list (xs ++ ys)) item) item 0 },
      rw (found.0, walk, last_of-append list xs ys),
      record {
        is_list = record {
          chain =
              Chain-snoc word' item list (xs ++ ys) cut distinct.0 distinct.1
                (ne_null_of_mid s.word list xs item ys own.is_list.chain);
          distinct = Distinct-snoc item (list ∷ (xs ++ ys)) distinct.1 distinct.0;
        };
        nodes = Nodes-snoc s.heap.table (xs ++ ys) item nodes.1 nodes.0;
        head =
            HeadOutside-snoc list item (xs ++ ys) s.heap
              (HeadOutside-cut item xs ys s.heap own.head);
        valid = own.valid;
        base = own.base;
      },
      refl,
      (λ a out. moved_other s.word list xs item ys a out),
    )
