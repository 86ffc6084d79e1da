-- ===== src/ItemList/Remove.antt =====
-- `removeItem`.
use korby_os.Base.{
  ℕ, ◌<◌, ◌≡◌, ◌≢◌, true, false, some, List, [], ◌∷◌, ◌++◌, arith, has, length, Bool-cases, inl,
  inr, sub64,
}
use korby_os.Memory.{Allocation, Allocator, unallocate}
use korby_os.Memory.Live.{AllLive}
use korby_os.Memory.Release.{Released}
use korby_os.Memory.Free.{Released-IsValid, unallocate-Released}
use korby_os.Memory.Within.{within-Released}
use korby_os.ItemList.{Machine, write, remove_item}
use korby_os.ItemList.Chain.{Distinct, last_of, slot_of_lem, Chain-unlink, has-append}
use korby_os.ItemList.Owned.{is_node, Nodes, HeadOutside, IsOwned, Nodes-release}

pub Distinct-unlink :
    (xs : List ℕ) (item : ℕ) (ys : List ℕ)
    → Distinct (xs ++ item ∷ ys)
    → Distinct (xs ++ ys) × (has item (xs ++ ys) ≡ false)
Distinct-unlink [] item ys d = (d.1, d.0)
Distinct-unlink (x ∷ xs) item ys d =
    let rest = Distinct-unlink xs item ys d.1 in
    (
      (ground (arith, d.0, has-append x xs (item ∷ ys), has-append x xs ys), rest.0),
      ground (arith, d.0, has-append x xs (item ∷ ys), rest.1),
    )

pub Nodes-unlink :
    (t : List Allocation) (xs : List ℕ) (item : ℕ) (ys : List ℕ)
    → Nodes t (xs ++ item ∷ ys)
    → (is_node item t ≡ true) × Nodes t (xs ++ ys)
Nodes-unlink t [] item ys n = n
Nodes-unlink t (x ∷ xs) item ys n =
    let rest = Nodes-unlink t xs item ys n.1 in (rest.0, (n.0, rest.1))

-- A node is the start of a live block, so `unallocate` ends on it.
pub node_found :
    (item : ℕ) (t : List Allocation) → is_node item t ≡ true → AllLive (λ a. a.start ≢ item) t → ⊥
node_found item [] h all = cc
node_found item (a ∷ t) h all = elim (Bool-cases (is_node item t)) [
  | inl deep ↦ node_found item t deep all.1
  | inr top ↦ all.0 (ground arith) (ground arith)
]

-- Where the list's word and the other nodes are, nothing changes when the block is released.
HeadOutside-unlink :
    {list item : ℕ} (xs ys : List ℕ) (heap : Allocator) (n : ℕ) {t' : List Allocation}
    → Released item heap.table t'
    → HeadOutside list (xs ++ item ∷ ys) heap
    → HeadOutside list (xs ++ ys) (record heap { table = t'; allocations = n })
HeadOutside-unlink xs ys heap n r (inl below) = inl below
HeadOutside-unlink {list} {item} xs ys heap n r (inr (o, out, inside)) =
    let parts = has-append o xs (item ∷ ys) in
    inr (
      o,
      ground (arith, out, parts, has-append o xs ys),
      within-Released o list (ground (arith, out, parts)) r inside,
    )

-- `removeItem` on a node of a list whose nodes are live blocks ends: it takes that node out, keeps
-- the others in order, releases the node's block, and writes only the word that pointed to it.
pub remove_item-erase :
    (fuel list item : ℕ) (s : Machine) (xs ys : List ℕ)
    → IsOwned s list (xs ++ item ∷ ys)
    → length xs < fuel
    → (s' : Machine) × (remove_item fuel list item s ≡ some s')
      × IsOwned s' list (xs ++ ys)
      × (unallocate item s.heap ≡ some s'.heap)
      × ((a : ℕ) → a ≢ last_of list xs → s'.word a ≡ s.word a)
unfolding remove_item
remove_item-erase fuel list item s xs ys own enough =
    let found =
      slot_of_lem fuel s.word list xs item ys enough own.is_list.chain own.is_list.distinct in
    let nodes = Nodes-unlink s.heap.table xs item ys own.nodes in
    let (t', runs, r) = unallocate-Released item s.heap (node_found item s.heap.table nodes.0) in
    let distinct = Distinct-unlink xs item ys own.is_list.distinct.1 in
    (
      record {
        word = write s.word (last_of list xs) (s.word item);
        heap = record s.heap { table = t'; allocations = sub64 s.heap.allocations 1 };
      },
      rw (found.0, found.1, runs),
      record {
        is_list = record {
          chain = Chain-unlink s.word list xs item ys own.is_list.chain own.is_list.distinct;
          distinct = (
            ground (
              arith,
              own.is_list.distinct.0,
              has-append list xs (item ∷ ys),
              has-append list xs ys,
            ),
            distinct.0,
          );
        };
        nodes = Nodes-release (xs ++ ys) r distinct.1 nodes.1;
        head = HeadOutside-unlink xs ys s.heap (sub64 s.heap.allocations 1) r own.head;
        valid = Released-IsValid item s.heap t' own.valid r;
        base = own.base;
      },
      runs,
      (λ a out. unfold write in ground arith),
    )
