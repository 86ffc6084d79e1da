-- ===== src/ItemList.antt =====
-- The intrusive linked lists of src/shared.h: `addItem`, `addItemFirst`, `removeItem`,
-- `iterateList`, `moveItemEnd`, `listLength` and `unallocateList`.
--
-- A list is given by the address of the word that holds the pointer to its first node, and the first
-- word of a node is the pointer to the next. Memory is a function from an address to the word there;
-- a node is written through its first word only. Each loop takes fuel, and `none` stands for a loop
-- that does not end, or that follows the NULL pointer.
pub mod Add
pub mod Chain
pub mod Move
pub mod Owned
pub mod Remove
mod Tests
pub mod Walk
use korby_os.Base.{
  ℕ, zero, suc, ◌+◌, Bool, true, false, Option, none, some, List, [], ◌∷◌, ◌==◌, if◌then◌else◌,
  ◌>>=◌, sub64, u64,
}
use korby_os.Memory.{Allocator, allocate, unallocate}

abbrev pub Words : Type 0
Words = ℕ → ℕ

pub record Machine : Type 0 where
  pub word : Words
  pub heap : Allocator

unfoldable pub write : Words → ℕ → ℕ → Words
write m p v a = if a == p then v else m a

-- `while (*list) list = *list;`
pub last_slot : ℕ → Words → ℕ → Option ℕ
last_slot zero m list = none
last_slot (suc fuel) m list = elim (m list == 0) [
  | true ↦ some list
  | false ↦ last_slot fuel m (m list)
]

-- `while (*list != item) list = *list;`
pub slot_of : ℕ → Words → ℕ → ℕ → Option ℕ
slot_of zero m list item = none
slot_of (suc fuel) m list item = elim (m list == item) [
  | true ↦ some list
  | false ↦ elim (m list == 0) [ true ↦ none | false ↦ slot_of fuel m (m list) item ]
]

pub add_item : ℕ → ℕ → ℕ → Machine → Option (ℕ × Machine)
add_item fuel list size s = do
  slot ← last_slot fuel s.word list
  (p, heap') ← allocate size s.heap
  let word' = write s.word slot p
  some (p, record { word = write word' (word' slot) 0; heap = heap' })

pub add_item_first : ℕ → ℕ → Machine → Option (ℕ × Machine)
add_item_first list size s = do
  (p, heap') ← allocate size s.heap
  let word' = write s.word p (s.word list)
  some (p, record { word = write word' list p; heap = heap' })

pub remove_item : ℕ → ℕ → ℕ → Machine → Option Machine
remove_item fuel list item s = do
  slot ← slot_of fuel s.word list item
  heap' ← unallocate (s.word slot) s.heap
  some (record { word = write s.word slot (s.word (s.word slot)); heap = heap' })

-- One `iterateList`: the iterator moves on to the node behind it.
pub iterate_list : Words → ℕ → ℕ
iterate_list m iterator = m iterator

-- `iterator = &list; while (iterateList(&iterator)) …`: the nodes in the order of the visits.
pub visits : ℕ → Words → ℕ → Option (List ℕ)
visits zero m iterator = none
visits (suc fuel) m iterator =
    let next = iterate_list m iterator in
    elim (next == 0) [ true ↦ some [] | false ↦ visits fuel m next >>= λ rest. some (next ∷ rest) ]

pub move_item_end : ℕ → ℕ → ℕ → Machine → Option Machine
move_item_end fuel list item s = do
  slot ← slot_of fuel s.word list item
  let word' = write s.word slot (s.word item)
  last ← last_slot fuel word' slot
  some (record s { word = write (write word' last item) item 0 })

-- `current` is `&list`, so the local `list` itself is overwritten, and its first value is counted.
pub length_from : ℕ → Words → ℕ → ℕ → Option ℕ
length_from zero m current i = none
length_from (suc fuel) m current i = elim (current == 0) [
  | true ↦ some i
  | false ↦ length_from fuel m (m current) (u64 (i + 1))
]

pub list_length : ℕ → Words → ℕ → Option ℕ
list_length fuel m list = length_from fuel m list 0 >>= λ i. some (sub64 i 1)

-- The list's own word is left as it is.
pub unallocate_list : ℕ → Words → ℕ → Allocator → Option Allocator
unallocate_list zero m list heap = none
unallocate_list (suc fuel) m list heap = elim (m list == 0) [
  | true ↦ some heap
  | false ↦ unallocate (m list) heap >>= unallocate_list fuel m (m list)
]
