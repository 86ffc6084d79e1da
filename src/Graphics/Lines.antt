-- ===== src/Graphics/Lines.antt =====
-- The cores together move the picture up by a line.
use korby_os.Base.{
  ℕ, ◌+◌, ◌-◌, ◌*◌, ◌/◌, ◌%◌, ◌^◌, ◌≤◌, ◌<◌, ◌≡◌, ◌≢◌, ◌⊎◌, inl, inr, refl, ap, ◌∙◌, true, false,
  List, [], ◌∷◌, ◌==◌, ltb, has, All, Bool-cases, arith,
}
use korby_os.Graphics.{Pixels}
use korby_os.Graphics.Cores.{split_task, part_of}
use korby_os.Graphics.Scroll.{cell, core_drop, product_step, drop_rows-other, drop_rows-moved}

-- No core twice.
abbrev pub Distinct : List ℕ → Type 0
Distinct [] = Unit
Distinct (id ∷ ids) = (has id ids ≡ false) × Distinct ids

-- The size of a picture of at least one line, of which every pixel has a number.
pub record Picture (width height count : ℕ) : Type 0 where
  pub numbered : height * width ≤ 2 ^ 32
  pub wide : width < 2 ^ 32
  pub high : height < 2 ^ 32
  pub line : 32 ≤ height
  pub cores : 0 < count

module _ (width height count : ℕ) (p : Picture width height count) where
  -- The columns of a core.
  abbrev columns : ℕ
  columns = width / count

  part_within : (id : ℕ) → id < count → id * columns + columns ≤ width
  part_within id below =
      (let step = product_step columns id count below in
        let some_cores = p.cores in
        let whole : width / count * count ≤ width = omega (arith, some_cores) in
        let product : width / count * count ≡ count * columns = grind arith in
        omega (arith, step, whole, product))

  rows : (height + 2 ^ 32 - 32) % 2 ^ 32 ≡ height - 32
  rows = (let line = p.line in let high = p.high in omega (arith, line, high))

  core_drop-moved :
      (id y x : ℕ) (m : Pixels)
      → id < count
      → y + 32 < height
      → id * columns ≤ x
      → x < id * columns + columns
      → core_drop width height count id m (cell width y x) ≡ m (cell width (y + 32) x)
  unfolding core_drop
  core_drop-moved id y x m below low first last =
      (let own = part_within id below in
        let line = p.line in
        let wide = p.wide in
        let size = rows in
        drop_rows-moved width height p.numbered columns id own _ 0 y x m (omega (arith, size, line))
          (omega (arith, own, last)) (omega (arith, wide)) (omega arith) (omega (arith, size, low))
          first last)

  core_drop-other :
      (id y x : ℕ) (m : Pixels)
      → id < count
      → y < height
      → x < width
      → (height ≤ y + 32) ⊎ ((x < id * columns) ⊎ (id * columns + columns ≤ x))
      → core_drop width height count id m (cell width y x) ≡ m (cell width y x)
  unfolding core_drop
  core_drop-other id y x m below low left other =
      (let own = part_within id below in
        let line = p.line in
        let wide = p.wide in
        let size = rows in
        drop_rows-other width height p.numbered columns id own _ 0 y x m (omega (arith, size, line))
          low left (omega (arith, wide))
          (elim other [ inl behind ↦ inl (inr (omega (arith, size, behind))) | inr out ↦ inr out ]))

  -- A core's columns are no other core's.
  other_columns :
      (id owner x : ℕ)
      → id ≢ owner
      → owner * columns ≤ x
      → x < owner * columns + columns
      → (x < id * columns) ⊎ (id * columns + columns ≤ x)
  other_columns id owner x differ first last = elim (Bool-cases (ltb id owner)) [
    | inl less ↦
        (let step = product_step columns id owner (ground arith) in
          inr (omega (arith, step, first)))
    | inr more ↦
        (let step = product_step columns owner id (ground (arith, differ, more)) in
          inl (omega (arith, step, last)))
  ]

  has-below :
      (owner : ℕ) (ids : List ℕ) → All (λ id. id < count) ids → has owner ids ≡ true → owner < count
  has-below owner [] below there = absurd (ground (arith, there))
  has-below owner (id ∷ ids) below there = elim (Bool-cases (owner == id)) [
    | inl same ↦ (let first = below.0 in ground (arith, same, first))
    | inr other ↦ has-below owner ids below.1 (ground (arith, there, other))
  ]

  twice : (ids : List ℕ) (id later : ℕ) → has id ids ≡ false → has later ids ≡ true → later ≢ id
  twice ids id later absent there e =
      absurd (let same = ap (λ k. has k ids) e in ground (arith, absent, there, same))

  split_task-kept :
      (ids : List ℕ) (y x : ℕ) (m : Pixels)
      → All (λ id. id < count) ids
      → y < height
      → x < width
      → ((id : ℕ)
          → has id ids ≡ true
          → (height ≤ y + 32) ⊎ ((x < id * columns) ⊎ (id * columns + columns ≤ x)))
      → split_task ids (core_drop width height count) m (cell width y x) ≡ m (cell width y x)
  unfolding split_task
  split_task-kept [] y x m below low left other = refl
  split_task-kept (id ∷ ids) y x m below low left other =
      split_task-kept ids y x (core_drop width height count id m) below.1 low left
        (λ later h. other later (ground (arith, h)))
      ∙ core_drop-other id y x m below.0 low left (other id (ground arith))

  split_task-moved :
      (ids : List ℕ) (owner y x : ℕ) (m : Pixels)
      → All (λ id. id < count) ids
      → Distinct ids
      → has owner ids ≡ true
      → y + 32 < height
      → owner * columns ≤ x
      → x < owner * columns + columns
      → split_task ids (core_drop width height count) m (cell width y x) ≡ m (cell width (y + 32) x)
  unfolding split_task
  split_task-moved [] owner y x m below distinct there low first last =
      absurd (ground (arith, there))
  split_task-moved (id ∷ ids) owner y x m below distinct there low first last =
      (let dropped = core_drop width height count id m in
        let own = part_within owner (has-below owner (id ∷ ids) below there) in
        let left : x < width = omega (arith, own, last) in
        elim (Bool-cases (owner == id)) [
          | inl same ↦
              (let here : owner ≡ id = ground arith in
                split_task-kept ids y x dropped below.1 (omega (arith, low)) left (λ later h. inr (
                  other_columns later owner x (λ e. twice ids id later distinct.0 h (e ∙ here))
                    first last))
                ∙ core_drop-moved id y x m below.0 low
                    (omega (arith, first, ap (λ k. k * columns) here))
                    (omega (arith, last, ap (λ k. k * columns) here)))
          | inr differ ↦
              split_task-moved ids owner y x dropped below.1 distinct.1
                (ground (arith, there, differ)) low first last
              ∙ core_drop-other id (y + 32) x m below.0 low left
                  (inr (other_columns id owner x (ground (arith, differ)) first last))
        ])

  -- When each core runs once, in whatever order, the columns that the cores share have moved up by 32
  -- rows, and the last 32 rows and the columns behind the shared ones are as before.
  pub split_task-core_drop :
      (ids : List ℕ) (m : Pixels)
      → All (λ id. id < count) ids
      → Distinct ids
      → ((id : ℕ) → id < count → has id ids ≡ true)
      → ((y x : ℕ)
          → y + 32 < height
          → x < columns * count
          → split_task ids (core_drop width height count) m (cell width y x)
            ≡ m (cell width (y + 32) x))
        × ((y x : ℕ)
            → y < height
            → x < width
            → (height ≤ y + 32) ⊎ (columns * count ≤ x)
            → split_task ids (core_drop width height count) m (cell width y x) ≡ m (cell width y x))
  split_task-core_drop ids m below distinct all = (
    (λ y x low left.
        let (owner, in_count, first, last) = part_of columns count x left in
        let product : columns * owner ≡ owner * columns = grind arith in
        split_task-moved ids owner y x m below distinct (all owner in_count) low
          (omega (arith, first, product)) (omega (arith, last, product))),
    (λ y x low left other. split_task-kept ids y x m below low left (λ id h. elim other [
      | inl behind ↦ inl behind
      | inr out ↦
          (let step = product_step columns id count (has-below id ids below h) in
            let product : columns * count ≡ count * columns = grind arith in
            inr (inr (omega (arith, step, product, out))))
    ])),
  )
