-- ===== src/Memory/Tests.antt =====
-- Runs of the allocator, and its theorems at a small table.
use mathlib.Core.List.{Perm}
use korby_os.Base.{ℕ, ◌+◌, ◌≤◌, ◌<◌, ◌≡◌, refl, true, false, some, [], ◌∷◌, arith}
use korby_os.Memory.{
  Allocation, Allocator, pass, find_value, place, allocate, release, unallocate, used_from,
  get_used_ram,
}
use korby_os.Memory.Live.{live, covered, IsValid, HasRoom}
use korby_os.Memory.Allocate.{allocate_lem}
use korby_os.Memory.Free.{unallocate-IsValid, allocate-unallocate}

abbrev used_entry : ℕ → ℕ → Allocation
used_entry s e = record { present = true; start = s; end = e }

abbrev free_entry : Allocation
free_entry = record { present = false; start = 4196; end = 4300 }

-- Two blocks with a gap of 104 bytes between them, whose entry has been given back.
abbrev heap : Allocator
heap = record {
  memory = 4096;
  table = used_entry 4096 4196 ∷ free_entry ∷ used_entry 4300 4400 ∷ [];
  allocations = 2;
}

abbrev filled : Allocator
filled = record {
  memory = 4096;
  table = used_entry 4096 4196 ∷ used_entry 4196 4300 ∷ used_entry 4300 4400 ∷ [];
  allocations = 3;
}

fills_the_gap : allocate 104 heap ≡ some (4196, filled)
unfolding allocate find_value pass place
fills_the_gap = refl

too_large_for_the_gap :
    allocate 105 heap
    ≡ some (
      4400,
      record filled {
        table = used_entry 4096 4196 ∷ used_entry 4400 4505 ∷ used_entry 4300 4400 ∷ [];
      },
    )
unfolding allocate find_value pass place
too_large_for_the_gap = refl

gives_back : unallocate 4196 filled ≡ some heap
unfolding unallocate release
gives_back = refl

counts_bytes : get_used_ram filled ≡ some 304
unfolding get_used_ram used_from
counts_bytes = refl

heap-IsValid : IsValid heap
heap-IsValid = ground arith

heap-HasRoom : HasRoom 1 104 heap
heap-HasRoom = omega arith

allocate_lem_example :
    (p : ℕ) × (s' : Allocator) × (allocate 104 heap ≡ some (p, s'))
    × (4096 ≤ p)
    × ((b : ℕ) → p ≤ b → b < p + 104 → covered b heap.table ≡ false)
    × Perm (live s'.table) ((p, p + 104) ∷ live heap.table)
    × IsValid s'
allocate_lem_example = allocate_lem 104 heap heap-IsValid heap-HasRoom

filled-IsValid : IsValid filled
filled-IsValid = ground arith

unallocate-IsValid_example :
    IsValid heap × ((e : ℕ) × Perm (live filled.table) ((4196, e) ∷ live heap.table))
unallocate-IsValid_example = unallocate-IsValid 4196 filled filled-IsValid gives_back

allocate-unallocate_example :
    (p : ℕ) × (s' : Allocator) × (s'' : Allocator) × (allocate 104 heap ≡ some (p, s'))
    × (unallocate p s' ≡ some s'')
    × (live s''.table ≡ live heap.table)
    × (s''.allocations ≡ 2)
allocate-unallocate_example =
    allocate-unallocate 104 heap heap-IsValid heap-HasRoom (omega arith) (omega arith)
