-- ===== src/Boot.antt =====
-- The start of the system in src/main.h: what `efi_main` finds out before the kernel runs.
--
-- The tables of the firmware are memory that is read; EFI's own calls are left out.
pub mod Cores
pub mod Folders
pub mod Found
pub mod Modes
pub mod Paths
mod Tests
use korby_os.Base.{
  ℕ, zero, suc, ◌+◌, ◌-◌, ◌*◌, ◌/◌, ◌^◌, Bool, true, false, not, ◌&&◌, Option, none, some, List, [],
  ◌∷◌, ◌++◌, ◌==◌, if◌then◌else◌, u32, u64, ltb, length, replicate, set, ◌>>=◌,
}

-- `*record == 0 && *(record + 3) != bsp`: a processor that is not the one that runs.
abbrev pub is_core : (ℕ → ℕ) → ℕ → ℕ → Bool
is_core table bsp i = table i == 0 && not (table (i + 3) == bsp)

-- The first loop over the records of an APIC table of a length, from offset `i` on, with `cpuCount`.
-- It ends only at exactly the length; on fuel.
unfoldable pub count_cores : ℕ → (ℕ → ℕ) → ℕ → ℕ → ℕ → ℕ → Option ℕ
count_cores zero table size bsp i count = none
count_cores (suc fuel) table size bsp i count = elim (i == size) [
  | true ↦ some count
  | false ↦
      count_cores fuel table size bsp (i + table (i + 1))
        (if is_core table bsp i then count + 1 else count)
]

-- The second loop, which fills `cpus`; a write behind its bytes is `none`.
unfoldable pub save_core : ℕ → ℕ → List ℕ → Option (List ℕ)
save_core cpu id cpus = if ltb cpu (length cpus) then some (set cpus cpu id) else none

unfoldable pub save_cores : ℕ → (ℕ → ℕ) → ℕ → ℕ → ℕ → ℕ → List ℕ → Option (List ℕ)
save_cores zero table size bsp i cpu cpus = none
save_cores (suc fuel) table size bsp i cpu cpus = elim (i == size) [
  | true ↦ some cpus
  | false ↦
      (elim (is_core table bsp i) [ true ↦ save_core cpu (table (i + 3)) cpus | false ↦ some cpus ])
      >>= save_cores fuel table size bsp (i + table (i + 1))
          (if is_core table bsp i then cpu + 1 else cpu)
]

-- Both loops, from the records behind the header's 44 bytes on: `cpuCount` and `cpus`, which starts
-- as some bytes of the pool.
unfoldable pub find_cores : ℕ → (ℕ → ℕ) → ℕ → ℕ → ℕ → Option (ℕ × List ℕ)
find_cores fuel table size bsp pool = count_cores fuel table size bsp 44 0 >>= λ count.
    save_cores fuel table size bsp 44 0 (replicate count pool) >>= λ cpus. some (count, cpus)

-- A descriptor of the memory map: its kind is one of those that are free from now on, or not.
pub record Descriptor : Type 0 where
  pub free : Bool
  pub start : ℕ
  pub pages : ℕ

-- `memorySize`, `memory` and `allocated`.
pub record Region : Type 0 where
  pub size : ℕ
  pub start : ℕ
  pub table : ℕ

-- `EFI_PAGE_SIZE` and `sizeof(Allocation)`.
abbrev pub page_size : ℕ
page_size = 4096

abbrev pub allocation_bytes : ℕ
allocation_bytes = 24

unfoldable pub consider : Descriptor → Region → Region
consider d r =
    (let size = u64 (d.pages * page_size) in
      if d.free && ltb r.size size
      then record {
        size = size;
        start = d.start;
        table = u64 (u64 (d.start + size) + 2 ^ 64 - allocation_bytes);
      }
      else r)

-- The loop over the memory map.
unfoldable pub choose_memory : List Descriptor → Region → Region
choose_memory [] r = r
choose_memory (d ∷ map) r = choose_memory map (consider d r)

-- `EFI_INPUT_KEY`.
pub record Key : Type 0 where
  pub scan_code : ℕ
  pub character : ℕ

-- A key moves the selection among `MaxMode` resolutions: 1 is up, and 2 is down.
unfoldable pub move_selection : ℕ → ℕ → ℕ → ℕ
move_selection modes scan_code selected =
    if scan_code == 1 && not (selected == 0)
    then u32 (selected + 2 ^ 32 - 1)
    else if scan_code == 2 && not (selected == u32 (modes + 2 ^ 32 - 1))
    then u32 (selected + 1)
    else selected

-- The loop that ends at the enter key, on the keys that are read; the code starts it with an up key.
unfoldable pub choose_mode : ℕ → ℕ → List Key → Option ℕ
choose_mode modes selected [] = none
choose_mode modes selected (k ∷ keys) = elim (k.character == b'\r') [
  | true ↦ some selected
  | false ↦ choose_mode modes (move_selection modes k.scan_code selected) keys
]
