-- ===== src/Boot/Tests.antt =====
-- A table of processors, a memory map, a volume and some keys, and the theorems applied to them.
use korby_os.Base.{ℕ, ◌≡◌, ◌-◌, refl, true, false, some, List, [], ◌∷◌, get_or, length, arith}
use korby_os.Boot.{Descriptor, Region, choose_memory, find_cores}
use korby_os.Boot.Cores.{Entry, Laid, next, end, others, find_cores-others}
use korby_os.Boot.Folders.{Entries, file, folder, end, entry, parse_folder, count_files}
use korby_os.Boot.Found.{Chosen, choose_memory-Chosen}
use korby_os.Boot.Paths.{Named, paths, booted, booted-paths}
use korby_os.Text.Example.{efi}

-- Processors 0 and 1, and an interrupt controller between them.
abbrev records : List ℕ
records =
    0 ∷ 8 ∷ 0 ∷ 0 ∷ 1 ∷ 0 ∷ 0 ∷ 0 ∷ 1 ∷ 12 ∷ 2 ∷ 0 ∷ 0 ∷ 0 ∷ 0xC0 ∷ 0xFE ∷ 0 ∷ 0 ∷ 0 ∷ 0 ∷ 0 ∷ 8 ∷ 1
    ∷ 1 ∷ 1 ∷ 0 ∷ 0 ∷ 0 ∷ []

abbrev apic : ℕ → ℕ
apic i = get_or records (i - 44) 0

abbrev entries : List Entry
entries =
    record { kind = 0; body = 0 ∷ 0 ∷ 1 ∷ 0 ∷ 0 ∷ 0 ∷ [] }
    ∷ record { kind = 1; body = 2 ∷ 0 ∷ 0 ∷ 0 ∷ 0xC0 ∷ 0xFE ∷ 0 ∷ 0 ∷ 0 ∷ 0 ∷ [] }
    ∷ record { kind = 0; body = 1 ∷ 1 ∷ 1 ∷ 0 ∷ 0 ∷ 0 ∷ [] }
    ∷ []

entries-Laid : Laid apic 72 44 entries
entries-Laid =
    next (record { kind = refl; size = refl; number = refl })
      (next (record { kind = refl; size = refl; number = refl })
        (next (record { kind = refl; size = refl; number = refl }) (end refl)))

find_cores-others_example :
    find_cores 4 apic 72 0 0xFF ≡ some (length (others 0 entries), others 0 entries)
find_cores-others_example = find_cores-others apic 72 0 4 0xFF entries entries-Laid (omega arith)

abbrev map : List Descriptor
map =
    record { free = true; start = 0; pages = 160 }
    ∷ record { free = false; start = 0x100000; pages = 4096 }
    ∷ record { free = true; start = 0x1100000; pages = 2048 }
    ∷ []

abbrev nothing : Region
nothing = record { size = 0; start = 0; table = 0 }

choose_memory-Chosen_example : Chosen map nothing (choose_memory map nothing)
choose_memory-Chosen_example = choose_memory-Chosen map nothing (
  record { fits = omega arith },
  (record { fits = omega arith }, (record { fits = omega arith }, _)),
)

-- A folder with one file in it.
abbrev volume : Entries
volume =
    entry (b'.' ∷ []) (folder end)
      (entry (b'f' ∷ []) (folder (entry (b'a' ∷ []) (file 7 4096) end)) end)

volume-Named : Named volume
unfolding Named
volume-Named = (
  (((λ e. omega (arith, e)), _), ((λ e. omega (arith, e)), _)),
  _,
  (
    (((λ e. omega (arith, e)), _), ((λ e. omega (arith, e)), _)),
    ((((λ e. omega (arith, e)), _), ((λ e. omega (arith, e)), _)), _, _),
    _,
  ),
)

booted-paths_example :
    (booted efi volume ≡ paths [] volume)
    × (count_files 0 (parse_folder efi (b'.' ∷ []) volume) ≡ length (paths [] volume))
booted-paths_example = booted-paths efi volume volume-Named
