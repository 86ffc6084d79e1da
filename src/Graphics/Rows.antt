-- ===== src/Graphics/Rows.antt =====
-- The loops that copy: which pixels they write, and what.
use korby_os.Base.{ℕ, zero, suc, ◌+◌, ◌*◌, ◌≤◌, ◌<◌, ◌≡◌, ◌⊎◌, refl, ap, sym, ◌∙◌, inl, inr, arith}
use korby_os.Graphics.{Pixels, put_pair, copy_pairs, copy_rows, fill_pairs, fill_rows}

put_pair-left :
    (to left right : ℕ) (m : Pixels) (i : ℕ) → i ≡ to → put_pair to left right m i ≡ left
unfolding put_pair
put_pair-left to left right m i e = ground arith

put_pair-right :
    (to left right : ℕ) (m : Pixels) (i : ℕ) → i ≡ suc to → put_pair to left right m i ≡ right
unfolding put_pair
put_pair-right to left right m i e = ground arith

pub copy_pairs-aside :
    (pairs to from : ℕ) (source m : Pixels) (i : ℕ)
    → (i < to) ⊎ (to + 2 * pairs ≤ i)
    → copy_pairs pairs to from source m i ≡ m i
unfolding copy_pairs put_pair
copy_pairs-aside zero to from source m i aside = refl
copy_pairs-aside (suc pairs) to from source m i aside =
    copy_pairs-aside pairs (to + 2) (from + 2) source _ i (ground arith) ∙ ground arith

pub copy_pairs-inside :
    (pairs to from : ℕ) (source m : Pixels) (c : ℕ)
    → c < 2 * pairs
    → copy_pairs pairs to from source m (to + c) ≡ source (from + c)
unfolding copy_pairs
copy_pairs-inside zero to from source m c inside = absurd (omega (arith, inside))
copy_pairs-inside (suc pairs) to from source m zero inside =
    copy_pairs-aside pairs (to + 2) (from + 2) source _ (to + 0) (inl (omega arith))
    ∙ (put_pair-left to (source from) (source (suc from)) m (to + 0) (omega arith)
        ∙ ap source (omega arith))
copy_pairs-inside (suc pairs) to from source m (suc zero) inside =
    copy_pairs-aside pairs (to + 2) (from + 2) source _ (to + 1) (inl (omega arith))
    ∙ (put_pair-right to (source from) (source (suc from)) m (to + 1) (omega arith)
        ∙ ap source (omega arith))
copy_pairs-inside (suc pairs) to from source m (suc (suc c)) inside =
    (let at : to + suc (suc c) ≡ (to + 2) + c = omega arith in
      ap (copy_pairs pairs (to + 2) (from + 2) source _) at
      ∙ (copy_pairs-inside pairs (to + 2) (from + 2) source _ c (omega (arith, inside))
          ∙ ap source (omega arith)))

-- Behind the rows that are still to come, and before them, nothing is written; nor is it behind the
-- pairs of a row.
module _ (pairs rest : ℕ) (source : Pixels) where
  abbrev pub stride : ℕ
  stride = 2 * pairs + 2 * rest

  pub copy_rows-before :
      (height to from : ℕ) (m : Pixels) (i : ℕ)
      → i < to
      → copy_rows height pairs rest to from source m i ≡ m i
  unfolding copy_rows
  copy_rows-before zero to from m i before = refl
  copy_rows-before (suc height) to from m i before =
      copy_rows-before height (to + stride) _ _ i (omega (arith, before))
      ∙ copy_pairs-aside pairs to from source m i (inl before)

  pub copy_rows-behind :
      (height to from : ℕ) (m : Pixels) (i : ℕ)
      → to + height * stride ≤ i
      → copy_rows height pairs rest to from source m i ≡ m i
  unfolding copy_rows
  copy_rows-behind zero to from m i behind = refl
  copy_rows-behind (suc height) to from m i behind =
      (let product : suc height * stride ≡ stride + height * stride = grind arith in
        copy_rows-behind height (to + stride) _ _ i (omega (arith, behind, product))
        ∙ copy_pairs-aside pairs to from source m i (inr (omega (arith, behind, product))))

  pub copy_rows-between :
      (height to from : ℕ) (m : Pixels) (row column : ℕ)
      → row < height
      → 2 * pairs ≤ column
      → column < stride
      → copy_rows height pairs rest to from source m (to + row * stride + column)
        ≡ m (to + row * stride + column)
  unfolding copy_rows
  copy_rows-between zero to from m row column high wide narrow = absurd (omega (arith, high))
  copy_rows-between (suc height) to from m zero column high wide narrow =
      copy_rows-before height (to + stride) _ _ (to + 0 * stride + column) (omega (arith, narrow))
      ∙ copy_pairs-aside pairs to from source m _ (inr (omega (arith, wide)))
  copy_rows-between (suc height) to from m (suc row) column high wide narrow =
      (let at : to + suc row * stride + column ≡ (to + stride) + row * stride + column =
          grind arith in
        ap (copy_rows height pairs rest (to + stride) (from + 2 * pairs) source _) at
        ∙ (copy_rows-between height (to + stride) _ _ row column (omega (arith, high)) wide narrow
            ∙ (copy_pairs-aside pairs to from source m _ (inr (omega (arith, wide)))
                ∙ ap m (sym at))))

  pub copy_rows-inside :
      (height to from : ℕ) (m : Pixels) (row column : ℕ)
      → row < height
      → column < 2 * pairs
      → copy_rows height pairs rest to from source m (to + row * stride + column)
        ≡ source (from + row * (2 * pairs) + column)
  unfolding copy_rows
  copy_rows-inside zero to from m row column high narrow = absurd (omega (arith, high))
  copy_rows-inside (suc height) to from m zero column high narrow =
      copy_rows-before height (to + stride) _ _ (to + 0 * stride + column) (omega (arith, narrow))
      ∙ (ap (copy_pairs pairs to from source m) (omega arith)
          ∙ (copy_pairs-inside pairs to from source m column narrow ∙ ap source (omega arith)))
  copy_rows-inside (suc height) to from m (suc row) column high narrow =
      (let at : to + suc row * stride + column ≡ (to + stride) + row * stride + column =
          grind arith in
        let in_source : (from + 2 * pairs) + row * (2 * pairs) + column
            ≡ from + suc row * (2 * pairs) + column =
          grind arith in
        ap (copy_rows height pairs rest (to + stride) (from + 2 * pairs) source _) at
        ∙ (copy_rows-inside height (to + stride) (from + 2 * pairs) _ row column
              (omega (arith, high)) narrow
            ∙ ap source in_source))

-- Filling is copying from a buffer of one colour.
fill_pairs-copy_pairs :
    (pairs to from colour : ℕ) (m : Pixels)
    → fill_pairs pairs to colour m ≡ copy_pairs pairs to from (λ _. colour) m
unfolding fill_pairs copy_pairs
fill_pairs-copy_pairs zero to from colour m = refl
fill_pairs-copy_pairs (suc pairs) to from colour m =
    fill_pairs-copy_pairs pairs (to + 2) (from + 2) colour (put_pair to colour colour m)

pub fill_rows-copy_rows :
    (height pairs rest to from colour : ℕ) (m : Pixels)
    → fill_rows height pairs rest to colour m ≡ copy_rows height pairs rest to from (λ _. colour) m
unfolding fill_rows copy_rows
fill_rows-copy_rows zero pairs rest to from colour m = refl
fill_rows-copy_rows (suc height) pairs rest to from colour m =
    ap (fill_rows height pairs rest (to + (2 * pairs + 2 * rest)) colour)
      (fill_pairs-copy_pairs pairs to from colour m)
    ∙ fill_rows-copy_rows height pairs rest (to + (2 * pairs + 2 * rest)) (from + 2 * pairs) colour
        _
