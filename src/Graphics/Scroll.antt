-- ===== src/Graphics/Scroll.antt =====
-- `coreDrop` of src/main.c: all cores together move the picture up by a line of 32 pixels, each in its
-- columns. The buffer is the one that is read.
use korby_os.Base.{
  ℕ, zero, suc, ◌+◌, ◌-◌, ◌*◌, ◌/◌, ◌%◌, ◌^◌, ◌≤◌, ◌<◌, ◌≡◌, ◌≢◌, ◌⊎◌, inl, inr, refl, sym, ap, ◌∙◌,
  ◌==◌, if_yes, if_no, ltb, u32, Bool-cases, arith,
}
use korby_os.Graphics.{Pixels}
use korby_os.Graphics.Cores.{put}

-- The number of a pixel, computed in `uint32_t`.
abbrev pub cell : ℕ → ℕ → ℕ → ℕ
cell width y x = u32 (u32 (y * width) + x)

-- The loop over `x`, for `columns` columns of a core, of the row `y`.
unfoldable pub drop_columns : ℕ → ℕ → ℕ → ℕ → ℕ → ℕ → Pixels → Pixels
drop_columns zero x y width columns id m = m
drop_columns (suc rest) x y width columns id m =
    (let new_x = u32 (x + id * columns) in
      drop_columns rest (suc x) y width columns id
        (put (cell width y new_x) (m (cell width (y + 32) new_x)) m))

unfoldable pub drop_rows : ℕ → ℕ → ℕ → ℕ → ℕ → Pixels → Pixels
drop_rows zero y width columns id m = m
drop_rows (suc rest) y width columns id m =
    drop_rows rest (suc y) width columns id (drop_columns columns 0 y width columns id m)

unfoldable pub core_drop : ℕ → ℕ → ℕ → ℕ → Pixels → Pixels
core_drop width height count id m =
    drop_rows ((height + 2 ^ 32 - 32) % 2 ^ 32) 0 width (width / count) id m

-- The pixels of different places have different numbers.
pub product_step : (w a b : ℕ) → a < b → a * w + w ≤ b * w
product_step w a b less =
    (let rest = b - suc a in
      let split : b ≡ suc a + rest = omega arith in
      let product : (suc a + rest) * w ≡ a * w + w + rest * w = grind arith in
      omega (arith, ap (λ n. n * w) split, product))

module _ (width height : ℕ) (fits : height * width ≤ 2 ^ 32) where
  cell_is : (y x : ℕ) → y < height → x < width → cell width y x ≡ y * width + x
  cell_is y x low left =
      (let step = product_step width y height low in omega (arith, step, fits, left))

  cell-injective :
      (y x y' x' : ℕ)
      → y < height
      → x < width
      → y' < height
      → x' < width
      → cell width y x ≡ cell width y' x'
      → (y ≡ y') × (x ≡ x')
  cell-injective y x y' x' low left low' left' e =
      (let same : y * width + x ≡ y' * width + x' =
          sym (cell_is y x low left) ∙ (e ∙ cell_is y' x' low' left') in
        elim (Bool-cases (y == y')) [
          | inl equal ↦
              (let row : y ≡ y' = ground arith in
                (row, omega (arith, same, ap (λ n. n * width) row)))
          | inr other ↦ absurd (elim (Bool-cases (ltb y y')) [
            | inl less ↦
                (let step = product_step width y y' (ground arith) in
                  omega (arith, same, step, left, left'))
            | inr more ↦
                (let step = product_step width y' y (ground (arith, other, more)) in
                  omega (arith, same, step, left, left'))
          ])
        ])

  -- A pixel of another place is not written.
  put-other :
      (y x y' x' v : ℕ) (m : Pixels)
      → y < height
      → x < width
      → y' < height
      → x' < width
      → (y ≢ y') ⊎ (x ≢ x')
      → put (cell width y' x') v m (cell width y x) ≡ m (cell width y x)
  put-other y x y' x' v m low left low' left' other =
      if_no {b = cell width y x == cell width y' x'} v _
        (elim (Bool-cases (cell width y x == cell width y' x')) [
          | inr differ ↦ differ
          | inl same ↦ absurd (
              let (rows, columns) =
                cell-injective y x y' x' low left low' left' (ground (arith, same)) in
              elim other [ inl differ ↦ differ rows | inr differ ↦ differ columns ])
        ])

  put-here : (y x v : ℕ) (m : Pixels) → put (cell width y x) v m (cell width y x) ≡ v
  put-here y x v m = if_yes {b = cell width y x == cell width y x} v _ (ground arith)

  module _ (columns id : ℕ) (own : id * columns + columns ≤ width) where
    -- A place that the loop over the columns does not write.
    drop_columns-other :
        (rest from row y x : ℕ) (m : Pixels)
        → from + rest ≤ columns
        → row < height
        → y < height
        → x < width
        → width ≤ 2 ^ 32
        → (y ≢ row) ⊎ ((x < id * columns + from) ⊎ (id * columns + (from + rest) ≤ x))
        → drop_columns rest from row width columns id m (cell width y x) ≡ m (cell width y x)
    unfolding drop_columns
    drop_columns-other zero from row y x m within inside low left small other = refl
    drop_columns-other (suc rest) from row y x m within inside low left small other =
        (let new_x = u32 (from + id * columns) in
          let new : new_x ≡ id * columns + from = omega (arith, own, within, small) in
          drop_columns-other rest (suc from) row y x _ (omega (arith, within)) inside low left small
            (elim other [
              | inl row' ↦ inl row'
              | inr (inl before) ↦ inr (inl (omega (arith, before)))
              | inr (inr behind) ↦ inr (inr (omega (arith, behind)))
            ])
          ∙ put-other y x row new_x _ m low left inside (omega (arith, new, own, within))
              (elim other [
                | inl row' ↦ inl row'
                | inr (inl before) ↦ inr (λ e. omega (arith, e, new, before))
                | inr (inr behind) ↦ inr (λ e. omega (arith, e, new, behind))
              ]))

    -- A place of the row that the loop writes gets what stands a line below it.
    drop_columns-moved :
        (rest from row x : ℕ) (m : Pixels)
        → from + rest ≤ columns
        → row + 32 < height
        → x < width
        → width ≤ 2 ^ 32
        → id * columns + from ≤ x
        → x < id * columns + (from + rest)
        → drop_columns rest from row width columns id m (cell width row x)
          ≡ m (cell width (row + 32) x)
    unfolding drop_columns
    drop_columns-moved zero from row x m within inside left small low high =
        absurd (omega (arith, low, high))
    drop_columns-moved (suc rest) from row x m within inside left small low high =
        (let new_x = u32 (from + id * columns) in
          let new : new_x ≡ id * columns + from = omega (arith, own, within, small) in
          let v = m (cell width (row + 32) new_x) in
          elim (Bool-cases (x == new_x)) [
            | inl same ↦
                (let here : x ≡ new_x = ground arith in
                  drop_columns-other rest (suc from) row row x (put (cell width row new_x) v m)
                    (omega (arith, within)) (omega (arith, inside)) (omega (arith, inside)) left
                    small (inr (inl (omega (arith, here, new))))
                  ∙ (ap (λ c. put (cell width row new_x) v m (cell width row c)) here
                      ∙ (put-here row new_x v m
                          ∙ ap (λ c. m (cell width (row + 32) c)) (sym here))))
            | inr other ↦
                drop_columns-moved rest (suc from) row x (put (cell width row new_x) v m)
                  (omega (arith, within)) inside left small (ground (arith, other, low, new))
                  (omega (arith, high))
                ∙ put-other (row + 32) x row new_x v m inside left (omega (arith, inside))
                    (omega (arith, new, own, within)) (inl (λ e. omega (arith, e)))
          ])

    -- A column that is not the core's.
    abbrev Outside : ℕ → Type 0
    Outside x = (x < id * columns) ⊎ (id * columns + columns ≤ x)

    drop_columns-column :
        (row y x : ℕ) (m : Pixels)
        → row < height
        → y < height
        → x < width
        → width ≤ 2 ^ 32
        → (y ≢ row) ⊎ Outside x
        → drop_columns columns 0 row width columns id m (cell width y x) ≡ m (cell width y x)
    drop_columns-column row y x m inside low left small other =
        drop_columns-other columns 0 row y x m (omega arith) inside low left small (elim other [
          | inl row' ↦ inl row'
          | inr (inl before) ↦ inr (inl (omega (arith, before)))
          | inr (inr behind) ↦ inr (inr (omega (arith, behind)))
        ])

    -- Rows behind or before those of the loop, and columns of others, stay.
    pub drop_rows-other :
        (rest from y x : ℕ) (m : Pixels)
        → from + rest ≤ height
        → y < height
        → x < width
        → width ≤ 2 ^ 32
        → ((y < from) ⊎ (from + rest ≤ y)) ⊎ Outside x
        → drop_rows rest from width columns id m (cell width y x) ≡ m (cell width y x)
    unfolding drop_rows
    drop_rows-other zero from y x m within low left small other = refl
    drop_rows-other (suc rest) from y x m within low left small other =
        drop_rows-other rest (suc from) y x _ (omega (arith, within)) low left small (elim other [
          | inl (inl before) ↦ inl (inl (omega (arith, before)))
          | inl (inr behind) ↦ inl (inr (omega (arith, behind)))
          | inr out ↦ inr out
        ])
        ∙ drop_columns-column from y x m (omega (arith, within)) low left small (elim other [
          | inl (inl before) ↦ inl (λ e. omega (arith, e, before))
          | inl (inr behind) ↦ inl (λ e. omega (arith, e, behind))
          | inr out ↦ inr out
        ])

    pub drop_rows-moved :
        (rest from y x : ℕ) (m : Pixels)
        → from + rest + 32 ≤ height
        → x < width
        → width ≤ 2 ^ 32
        → from ≤ y
        → y < from + rest
        → id * columns ≤ x
        → x < id * columns + columns
        → drop_rows rest from width columns id m (cell width y x) ≡ m (cell width (y + 32) x)
    unfolding drop_rows
    drop_rows-moved zero from y x m within left small low high first last =
        absurd (omega (arith, low, high))
    drop_rows-moved (suc rest) from y x m within left small low high first last =
        (let dropped = drop_columns columns 0 from width columns id m in
          elim (Bool-cases (y == from)) [
            | inl same ↦
                (let here : y ≡ from = ground arith in
                  drop_rows-other rest (suc from) y x dropped (omega (arith, within))
                    (omega (arith, within, high)) left small (inl (inl (omega (arith, here))))
                  ∙ (ap (λ r. dropped (cell width r x)) here
                      ∙ (drop_columns-moved columns 0 from x m (omega arith) (omega (arith, within))
                            left small (omega (arith, first)) (omega (arith, last))
                          ∙ ap (λ r. m (cell width (r + 32) x)) (sym here))))
            | inr other ↦
                drop_rows-moved rest (suc from) y x dropped (omega (arith, within)) left small
                  (ground (arith, other, low)) (omega (arith, high)) first last
                ∙ drop_columns-column from (y + 32) x m (omega (arith, within))
                    (omega (arith, within, high)) left small (inl (λ e. omega (arith, e, low)))
          ])
