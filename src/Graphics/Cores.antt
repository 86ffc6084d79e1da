-- ===== src/Graphics/Cores.antt =====
-- `splitTask`, `coreBlit` and `coreFill` of src/shared.h: a copy that the cores share.
--
-- A cell is a `uint64_t`, two pixels. The cores' parts are taken one after another, in the order in
-- which the cores finish; the number 0 is the core that calls `splitTask`.
use korby_os.Base.{
  ℕ, zero, suc, ◌+◌, ◌-◌, ◌*◌, ◌^◌, ◌≤◌, ◌<◌, ◌≡◌, refl, ap, ◌∙◌, inl, inr, true, List, [], ◌∷◌,
  ◌==◌, if◌then◌else◌, if_both, if_yes, if_no, u64, ltb, has, All, arith, Bool-cases,
}
use korby_os.Graphics.{Pixels}

abbrev pub put : ℕ → ℕ → Pixels → Pixels
put cell value m k = if k == cell then value else m k

-- The loop of `coreBlit` from `i` on, for a core's number.
unfoldable pub copy_cells : ℕ → ℕ → ℕ → ℕ → Pixels → Pixels → Pixels
copy_cells zero i size id source m = m
copy_cells (suc rounds) i size id source m =
    (let cell = u64 (i + size * id) in
      copy_cells rounds (suc i) size id source (put cell (source cell) m))

unfoldable pub core_blit : ℕ → Pixels → ℕ → Pixels → Pixels
core_blit size source id m = copy_cells size 0 size id source m

unfoldable pub fill_cells : ℕ → ℕ → ℕ → ℕ → ℕ → Pixels → Pixels
fill_cells zero i size id colour m = m
fill_cells (suc rounds) i size id colour m =
    fill_cells rounds (suc i) size id colour (put (u64 (i + size * id)) colour m)

unfoldable pub core_fill : ℕ → ℕ → ℕ → Pixels → Pixels
core_fill size colour id m = fill_cells size 0 size id colour m

unfoldable pub split_task : List ℕ → (ℕ → Pixels → Pixels) → Pixels → Pixels
split_task [] task m = m
split_task (id ∷ ids) task m = split_task ids task (task id m)

part_below : (size id count : ℕ) → id < count → size + size * id ≤ size * count
part_below size id count below =
    (let rest = count - suc id in
      let split : count ≡ suc id + rest = omega arith in
      let product : size * count ≡ size + size * id + size * rest =
        (ap (λ n. size * n) split ∙ grind arith) in
      omega (arith, product))

-- Each cell of the shared part belongs to a core.
pub part_of :
    (size count k : ℕ)
    → k < size * count
    → (id : ℕ) × (id < count) × (size * id ≤ k) × (k < size + size * id)
part_of size zero k below = absurd (grind arith)
part_of size (suc count) k below = elim (Bool-cases (ltb k (size * count))) [
  | inl lower ↦
      (let found = part_of size count k (ground arith) in
        (found.0, omega (arith, found.1), found.2, found.3))
  | inr last ↦
      (let product : size * suc count ≡ size + size * count = grind arith in
        (count, omega arith, ground (arith, product), omega (arith, below, product)))
]

module _ (size : ℕ) (source : Pixels) (k : ℕ) where
  -- A cell that is right stays right.
  copy_cells-kept :
      (rounds i id : ℕ) (m : Pixels)
      → m k ≡ source k
      → copy_cells rounds i size id source m k ≡ source k
  unfolding copy_cells
  copy_cells-kept zero i id m right = right
  copy_cells-kept (suc rounds) i id m right = copy_cells-kept rounds (suc i) id _ (
      if_both (λ v. v ≡ source k) (k == u64 (i + size * id))
        (λ here. ap source (let same : u64 (i + size * id) ≡ k = ground arith in same))
        (λ _. right))

  copy_cells-inside :
      (rounds i id : ℕ) (m : Pixels)
      → k < 2 ^ 64
      → i + size * id ≤ k
      → k < i + rounds + size * id
      → copy_cells rounds i size id source m k ≡ source k
  unfolding copy_cells
  copy_cells-inside zero i id m small low high = absurd (omega (arith, low, high))
  copy_cells-inside (suc rounds) i id m small low high = elim (Bool-cases (k == i + size * id)) [
    | inl here ↦
        (let same : k ≡ i + size * id = ground arith in
          let cell : u64 (i + size * id) ≡ k = omega (arith, same, small) in
          copy_cells-kept rounds (suc i) id _
            (if_yes {b = k == u64 (i + size * id)} _ (m k) (ground (arith, cell)) ∙ ap source cell))
    | inr there ↦
        copy_cells-inside rounds (suc i) id _ small (ground (arith, low)) (omega (arith, high))
  ]

  copy_cells-aside :
      (rounds i id : ℕ) (m : Pixels)
      → i + rounds + size * id ≤ k
      → copy_cells rounds i size id source m k ≡ m k
  unfolding copy_cells
  copy_cells-aside zero i id m high = refl
  copy_cells-aside (suc rounds) i id m high =
      copy_cells-aside rounds (suc i) id _ (omega (arith, high))
      ∙ if_no {b = k == u64 (i + size * id)} (source (u64 (i + size * id))) _ (ground (arith, high))

  split_task-kept :
      (ids : List ℕ) (m : Pixels)
      → m k ≡ source k
      → split_task ids (core_blit size source) m k ≡ source k
  unfolding split_task core_blit
  split_task-kept [] m right = right
  split_task-kept (id ∷ ids) m right = split_task-kept ids _ (copy_cells-kept size 0 id m right)

  split_task-inside :
      (ids : List ℕ) (m : Pixels) (id : ℕ)
      → has id ids ≡ true
      → k < 2 ^ 64
      → size * id ≤ k
      → k < size + size * id
      → split_task ids (core_blit size source) m k ≡ source k
  unfolding split_task core_blit
  split_task-inside [] m id runs small low high = absurd (ground (arith, runs))
  split_task-inside (first ∷ ids) m id runs small low high = elim (Bool-cases (id == first)) [
    | inl now ↦
        (let same : id ≡ first = ground arith in
          let product : size * id ≡ size * first = ap (λ n. size * n) same in
          split_task-kept ids _ (
            copy_cells-inside size 0 first m small (omega (arith, low, product))
              (omega (arith, high, product))))
    | inr later ↦ split_task-inside ids _ id (ground (arith, runs)) small low high
  ]

  split_task-aside :
      (count : ℕ) (ids : List ℕ) (m : Pixels)
      → All (λ id. id < count) ids
      → size * count ≤ k
      → split_task ids (core_blit size source) m k ≡ m k
  unfolding split_task core_blit
  split_task-aside count [] m bounded high = refl
  split_task-aside count (id ∷ ids) m bounded high =
      split_task-aside count ids _ bounded.1 high
      ∙ copy_cells-aside size 0 id m (omega (arith, high, part_below size id count bounded.0))

-- If every core runs its part, in whatever order, and the number of cells shared is at most 2^64,
-- these are copied, and the cells behind them, such as the rest of a division, are as they were.
pub split_task-core_blit :
    (size count : ℕ) (ids : List ℕ) (source m : Pixels)
    → size * count ≤ 2 ^ 64
    → All (λ id. id < count) ids
    → ((id : ℕ) → id < count → has id ids ≡ true)
    → ((k : ℕ) → k < size * count → split_task ids (core_blit size source) m k ≡ source k)
      × ((k : ℕ) → size * count ≤ k → split_task ids (core_blit size source) m k ≡ m k)
split_task-core_blit size count ids source m fits bounded all_run = (
  (λ k below.
      let part = part_of size count k below in
      split_task-inside size source k ids m part.0 (all_run part.0 part.1)
        (omega (arith, below, fits)) part.2 part.3),
  λ k high. split_task-aside size source k count ids m bounded high,
)

fill_cells-copy_cells :
    (rounds i size id colour : ℕ) (m : Pixels)
    → fill_cells rounds i size id colour m ≡ copy_cells rounds i size id (λ _. colour) m
unfolding fill_cells copy_cells
fill_cells-copy_cells zero i size id colour m = refl
fill_cells-copy_cells (suc rounds) i size id colour m =
    fill_cells-copy_cells rounds (suc i) size id colour (put (u64 (i + size * id)) colour m)

-- A core fills as it would copy cells of the colour.
pub core_fill-core_blit :
    (size colour id : ℕ) (m : Pixels)
    → core_fill size colour id m ≡ core_blit size (λ _. colour) id m
unfolding core_fill core_blit
core_fill-core_blit size colour id m = fill_cells-copy_cells size 0 size id colour m
