-- ===== src/ItemList/Add.antt =====
-- `addItem` and `addItemFirst`.
use mathlib.Core.Path.{subst}
use korby_os.Base.{
  ℕ, ◌+◌, ◌<◌, ◌≤◌, ◌≡◌, refl, ◌≢◌, true, false, some, List, [], ◌∷◌, ◌++◌, ◌==◌, arith, has,
  length, Bool-cases, inl, inr, sym,
}
use korby_os.Memory.{Allocation, Allocator, allocate}
use korby_os.Memory.Live.{live_count, covered, covered_of_free, IsValid, HasRoom}
use korby_os.Memory.Allocate.{entry_at, after, allocate-Found, after-IsValid}
use korby_os.Memory.Within.{within-covered, within-covered_start, within-place, within-place_self}
use korby_os.ItemList.{Machine, write, add_item, add_item_first}
use korby_os.ItemList.Chain.{
  Distinct, Chain, Chain-write, last_of, last_slot_lem, Chain-snoc, has-append, ne_last_of,
}
use korby_os.ItemList.Owned.{is_node, Nodes, HeadOutside, IsOwned, Nodes-place, not-mem_of_free}

-- What an `allocate` of at least a word does for the lists of the machine.
record Fresh (size : ℕ) (s : Machine) (list : ℕ) (xs : List ℕ) (p : ℕ) (heap' : Allocator)
    : Type 0 where
  new : has p (list ∷ xs) ≡ false
  ne_null : p ≢ 0
  node : is_node p heap'.table ≡ true
  nodes : Nodes heap'.table xs
  head : HeadOutside list (p ∷ xs) heap'
  valid : IsValid heap'
  base : 0 < heap'.memory
  unused : (b : ℕ) → p ≤ b → b < p + size → covered b s.heap.table ≡ false

head_ne :
    (list p : ℕ) (xs : List ℕ) (heap : Allocator)
    → HeadOutside list xs heap
    → heap.memory ≤ p
    → covered p heap.table ≡ false
    → p ≢ list
head_ne list p xs heap (inl below) up free e = omega arith
head_ne list p xs heap (inr (o, out, inside)) up free e =
    let taken = within-covered o list heap.table inside in
    let free' : covered list heap.table ≡ false =
      subst (λ z. covered z heap.table ≡ false) e free in
    absurd (ground (arith, taken, free'))

head_kept :
    (size list p : ℕ) (xs : List ℕ) (heap : Allocator)
    → live_count heap.table ≡ heap.allocations
    → covered p heap.table ≡ false
    → HeadOutside list xs heap
    → HeadOutside list (p ∷ xs) (after size p heap)
head_kept size list p xs heap e free (inl below) = inl below
head_kept size list p xs heap e free (inr (o, out, inside)) = inr (
  o,
  elim (Bool-cases (o == p)) [
    | inl same ↦
        let eq : o ≡ p = ground arith in
        let taken = within-covered_start o list heap.table inside in
        let taken' : covered p heap.table ≡ true =
          subst (λ z. covered z heap.table ≡ true) eq taken in
        absurd (ground (arith, taken', free))
    | inr other ↦ ground arith
  ],
  within-place (entry_at p size) o list heap.allocations 0 heap.table (omega arith) inside,
)

allocate-Fresh :
    (size list : ℕ) (xs : List ℕ) (s : Machine)
    → 8 ≤ size
    → HasRoom 1 size s.heap
    → IsOwned s list xs
    → (p : ℕ) × (heap' : Allocator) × (allocate size s.heap ≡ some (p, heap'))
      × Fresh size s list xs p heap'
allocate-Fresh size list xs s big room own =
    let (p, runs, found) = allocate-Found size s.heap own.valid room in
    let free : covered p s.heap.table ≡ false =
      covered_of_free p size p s.heap.table found.free found.in_range (omega arith) (omega arith) in
    (
      p,
      after size p s.heap,
      runs,
      record {
        new = ground (
          arith,
          head_ne list p xs s.heap own.head found.from free,
          not-mem_of_free p s.heap.table xs free own.nodes,
        );
        ne_null = omega (arith, found.from, own.base);
        node =
            within-place_self (entry_at p size) (p + 7) s.heap.allocations 0 s.heap.table refl
              (omega arith) (omega (arith, found.in_range)) (omega (arith, own.valid.counted));
        nodes =
            Nodes-place (entry_at p size) s.heap.allocations s.heap.table xs (sym own.valid.counted)
              own.nodes;
        head = head_kept size list p xs s.heap (sym own.valid.counted) free own.head;
        valid = after-IsValid size p s.heap own.valid room found;
        base = own.base;
        unused =
            λ b low high. covered_of_free p size b s.heap.table found.free found.in_range low high;
      },
    )

pub Distinct-snoc : (p : ℕ) (xs : List ℕ) → has p xs ≡ false → Distinct xs → Distinct (xs ++ p ∷ [])
Distinct-snoc p [] h d = (refl, tt)
Distinct-snoc p (x ∷ xs) h d =
    (ground (arith, has-append x xs (p ∷ [])), Distinct-snoc p xs (ground arith) d.1)

pub Nodes-snoc :
    (t : List Allocation) (xs : List ℕ) (p : ℕ)
    → Nodes t xs
    → is_node p t ≡ true
    → Nodes t (xs ++ p ∷ [])
Nodes-snoc t [] p h n = (n, tt)
Nodes-snoc t (x ∷ xs) p h n = (h.0, Nodes-snoc t xs p h.1 n)

pub HeadOutside-snoc :
    (list p : ℕ) (xs : List ℕ) (heap : Allocator)
    → HeadOutside list (p ∷ xs) heap
    → HeadOutside list (xs ++ p ∷ []) heap
HeadOutside-snoc list p xs heap (inl below) = inl below
HeadOutside-snoc list p xs heap (inr (o, out, inside)) =
    inr (o, ground (arith, has-append o xs (p ∷ [])), inside)

-- Writing the new node leaves every word alone that is none of the list's and not the node's.
pub write-write_other :
    (s : Machine) (last p v w a : ℕ)
    → a ≢ last
    → a ≢ p
    → write (write s.word last v) p w a ≡ s.word a
unfolding write
write-write_other s last p v w a h k = ground arith

-- `addItem` of at least 8 bytes, for which there is room, on a list whose nodes are live blocks ends: it
-- allocates a block of the size asked for, which shares no byte with a block that was live and is none
-- of the nodes, puts it behind the last node, keeps the nodes before it in order, and writes no word
-- outside the list and the new block.
pub add_item-append :
    (fuel list size : ℕ) (s : Machine) (xs : List ℕ)
    → IsOwned s list xs
    → HasRoom 1 size s.heap
    → 8 ≤ size
    → length xs < fuel
    → (p : ℕ) × (s' : Machine) × (add_item fuel list size s ≡ some (p, s'))
      × (allocate size s.heap ≡ some (p, s'.heap))
      × ((b : ℕ) → p ≤ b → b < p + size → covered b s.heap.table ≡ false)
      × (has p (list ∷ xs) ≡ false)
      × IsOwned s' list (xs ++ p ∷ [])
      × ((a : ℕ) → has a (list ∷ xs) ≡ false → a ≢ p → s'.word a ≡ s.word a)
unfolding add_item
add_item-append fuel list size s xs own room big enough =
    let (p, heap', runs, fresh) = allocate-Fresh size list xs s big room own in
    let slot = last_of list xs in
    let at_slot : write s.word slot p slot ≡ p = unfold write in ground arith in
    (
      p,
      record { word = write (write s.word slot p) p 0; heap = heap' },
      rw (last_slot_lem fuel s.word list xs enough own.is_list.chain, runs, at_slot),
      runs,
      fresh.unused,
      fresh.new,
      record {
        is_list = record {
          chain =
              Chain-snoc s.word p list xs own.is_list.chain own.is_list.distinct fresh.new
                fresh.ne_null;
          distinct = Distinct-snoc p (list ∷ xs) fresh.new own.is_list.distinct;
        };
        nodes = Nodes-snoc heap'.table xs p fresh.nodes fresh.node;
        head = HeadOutside-snoc list p xs heap' fresh.head;
        valid = fresh.valid;
        base = fresh.base;
      },
      (λ a out ne. write-write_other s slot p p 0 a (ne_last_of a list xs out) ne),
    )

cons-Chain :
    (m : ℕ → ℕ) (p list : ℕ) (xs : List ℕ)
    → has p (list ∷ xs) ≡ false
    → p ≢ 0
    → Distinct (list ∷ xs)
    → Chain m list xs
    → Chain (write (write m p (m list)) list p) list (p ∷ xs)
unfolding write
cons-Chain m p list [] new ne d c = (ground arith, ne, ground arith)
cons-Chain m p list (x ∷ xs) new ne d c = (
  ground arith,
  ne,
  (
    ground arith,
    c.1,
    Chain-write (write m p (m list)) list p x xs d.0
        (Chain-write m p (m list) x xs (ground arith) c.2),
  ),
)

-- `addItemFirst` does the same at the front, and needs no walk.
pub add_item_first-cons :
    (list size : ℕ) (s : Machine) (xs : List ℕ)
    → IsOwned s list xs
    → HasRoom 1 size s.heap
    → 8 ≤ size
    → (p : ℕ) × (s' : Machine) × (add_item_first list size s ≡ some (p, s'))
      × (has p (list ∷ xs) ≡ false)
      × IsOwned s' list (p ∷ xs)
      × ((a : ℕ) → a ≢ list → a ≢ p → s'.word a ≡ s.word a)
unfolding add_item_first
add_item_first-cons list size s xs own room big =
    let (p, heap', runs, fresh) = allocate-Fresh size list xs s big room own in
    (
      p,
      record { word = write (write s.word p (s.word list)) list p; heap = heap' },
      rw runs,
      fresh.new,
      record {
        is_list = record {
          chain =
              cons-Chain s.word p list xs fresh.new fresh.ne_null own.is_list.distinct
                own.is_list.chain;
          distinct = (
            ground (arith, fresh.new, own.is_list.distinct.0),
            (ground (arith, fresh.new), own.is_list.distinct.1),
          );
        };
        nodes = (fresh.node, fresh.nodes);
        head = fresh.head;
        valid = fresh.valid;
        base = fresh.base;
      },
      (λ a out ne. write-write_other s p list (s.word list) p a ne out),
    )
