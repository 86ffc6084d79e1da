-- ===== src/ItemList/Tests.antt =====
-- The list operations on a list of two nodes.
use korby_os.Base.{
  ◌+◌, ◌≤◌, ◌<◌, false, ℕ, ◌≡◌, refl, ◌≢◌, true, false, none, some, List, [], ◌∷◌, ◌++◌, inl, arith,
  has,
}
use korby_os.Memory.{Allocation, allocate, unallocate}
use korby_os.Memory.Live.{HasRoom, covered}
use korby_os.ItemList.{
  Machine, write, add_item, remove_item, visits, list_length, move_item_end, slot_of, length_from,
  iterate_list,
}
use korby_os.ItemList.Owned.{IsOwned}
use korby_os.ItemList.Add.{add_item-append}
use korby_os.ItemList.Remove.{remove_item-erase}
use korby_os.ItemList.Move.{move_item_end-snoc}

abbrev block : ℕ → ℕ → Allocation
block s e = record { present = true; start = s; end = e }

-- A list at the address 64 with nodes of 24 bytes at 4096 and 4120.
abbrev machine : Machine
machine = record {
  word = write (write (write (λ _. 0) 64 4120) 4120 4096) 4096 0;
  heap = record { memory = 4096; table = block 4096 4120 ∷ block 4120 4144 ∷ []; allocations = 2 };
}

abbrev nodes : List ℕ
nodes = 4120 ∷ 4096 ∷ []

visits_both : visits 3 machine.word 64 ≡ some nodes
unfolding visits iterate_list write
visits_both = refl

counts_both : list_length 4 machine.word 64 ≡ some 2
unfolding list_length length_from write
counts_both = refl

-- An item that is not in the list: the walk follows the NULL pointer.
absent_item : remove_item 9 64 5000 machine ≡ none
unfolding remove_item slot_of write
absent_item = refl

machine-IsOwned : IsOwned machine 64 nodes
unfolding write
machine-IsOwned = record {
  is_list = ground arith;
  nodes = (refl, (refl, tt));
  head = inl (omega arith);
  valid = ground arith;
  base = omega arith;
}

room : HasRoom 1 24 machine.heap
room = omega arith

add_item-append_example :
    (p : ℕ) × (s' : Machine) × (add_item 3 64 24 machine ≡ some (p, s'))
    × (allocate 24 machine.heap ≡ some (p, s'.heap))
    × ((b : ℕ) → p ≤ b → b < p + 24 → covered b machine.heap.table ≡ false)
    × (has p (64 ∷ nodes) ≡ false)
    × IsOwned s' 64 (nodes ++ p ∷ [])
    × ((a : ℕ) → has a (64 ∷ nodes) ≡ false → a ≢ p → s'.word a ≡ machine.word a)
add_item-append_example =
    add_item-append 3 64 24 machine nodes machine-IsOwned room (omega arith) (omega arith)

remove_item-erase_example :
    (s' : Machine) × (remove_item 3 64 4096 machine ≡ some s')
    × IsOwned s' 64 (4120 ∷ [])
    × (unallocate 4096 machine.heap ≡ some s'.heap)
    × ((a : ℕ) → a ≢ 4120 → s'.word a ≡ machine.word a)
remove_item-erase_example =
    remove_item-erase 3 64 4096 machine (4120 ∷ []) [] machine-IsOwned (omega arith)

move_item_end-snoc_example :
    (s' : Machine) × (move_item_end 3 64 4120 machine ≡ some s')
    × IsOwned s' 64 (4096 ∷ 4120 ∷ [])
    × (s'.heap ≡ machine.heap)
    × ((a : ℕ) → has a (64 ∷ 4120 ∷ 4096 ∷ []) ≡ false → s'.word a ≡ machine.word a)
move_item_end-snoc_example =
    move_item_end-snoc 3 64 4120 machine [] (4096 ∷ []) machine-IsOwned (omega arith)
