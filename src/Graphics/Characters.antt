-- ===== src/Graphics/Characters.antt =====
-- The pixels of a character.
use korby_os.Base.{
  ℕ, zero, suc, ◌+◌, ◌-◌, ◌*◌, ◌%◌, ◌^◌, ◌≤◌, ◌<◌, ◌≡◌, ◌⊎◌, inl, inr, refl, sym, ap, ap₂, ◌∙◌,
  if◌then◌else◌, u32, arith,
}
use korby_os.Graphics.{Pixels}
use korby_os.Graphics.Glyph.{
  draw_glyph, draw_character, drawn_row, drawn_row-other, drawn_row-bit, bit_of, word_of_font,
}

-- Where no row of the glyph has a pixel.
abbrev pub Beside : ℕ → ℕ → ℕ → ℕ → Type 0
Beside pitch rows address k =
    (row : ℕ) → row < rows → (k < address + row * pitch) ⊎ (address + row * pitch + 16 ≤ k)

module _ (pitch : ℕ) (font : ℕ → ℕ) (colour : ℕ) (wide : 16 ≤ pitch) (small : pitch < 2 ^ 32) where
  next_row : (address : ℕ) → address + 16 + (pitch + 2 ^ 32 - 16) % 2 ^ 32 ≡ address + pitch
  next_row address = omega (arith, wide, small)

  row_behind : (address row : ℕ) → address + pitch + row * pitch ≡ address + suc row * pitch
  row_behind address row = grind arith

  draw_glyph-other :
      (rows address glyph k : ℕ) (m : Pixels)
      → Beside pitch rows address k
      → draw_glyph rows pitch address font glyph colour m k ≡ m k
  unfolding draw_glyph
  draw_glyph-other zero address glyph k m beside = refl
  draw_glyph-other (suc rows) address glyph k m beside =
      (let row = drawn_row address font glyph colour m in
        ap (λ a. draw_glyph rows pitch a font (glyph + 2) colour row k) (next_row address)
        ∙ (draw_glyph-other rows (address + pitch) (glyph + 2) k row (λ r below.
              let behind = row_behind address r in
              elim (beside (suc r) (omega (arith, below))) [
                | inl before ↦ inl (omega (arith, behind, before))
                | inr after ↦ inr (omega (arith, behind, after))
              ])
            ∙ drawn_row-other address font glyph colour k m (elim (beside 0 (omega arith)) [
              | inl before ↦ inl (omega (arith, before))
              | inr after ↦ inr (omega (arith, after))
            ])))

  draw_glyph-bit :
      (rows address glyph row column : ℕ) (m : Pixels)
      → row < rows
      → column < 16
      → draw_glyph rows pitch address font glyph colour m (address + row * pitch + column) ≡ (
          if bit_of font (glyph + 2 * row) column
          then colour
          else m (address + row * pitch + column))
  unfolding draw_glyph
  draw_glyph-bit zero address glyph row column m below inside = absurd (omega (arith, below))
  draw_glyph-bit (suc rows) address glyph zero column m below inside =
      (let first = drawn_row address font glyph colour m in
        let at : address + 0 * pitch + column ≡ address + column = omega arith in
        ap
          (λ a.
            draw_glyph rows pitch a font (glyph + 2) colour first (address + 0 * pitch + column))
          (next_row address)
        ∙ (draw_glyph-other rows (address + pitch) (glyph + 2) (address + 0 * pitch + column) first
              (λ r _. inl (omega (arith, wide, inside)))
            ∙ (ap first at
                ∙ (drawn_row-bit address font glyph colour column m inside
                    ∙ ap₂ (λ g k. if bit_of font g column then colour else m k) (omega arith)
                        (sym at)))))
  draw_glyph-bit (suc rows) address glyph (suc row) column m below inside =
      (let first = drawn_row address font glyph colour m in
        let behind = row_behind address row in
        let at : address + suc row * pitch + column ≡ address + pitch + row * pitch + column =
          omega (arith, behind) in
        ap₂ (λ a k. draw_glyph rows pitch a font (glyph + 2) colour first k) (next_row address) at
        ∙ (draw_glyph-bit rows (address + pitch) (glyph + 2) row column first (omega (arith, below))
              inside
            ∙ (ap (λ v. if bit_of font (glyph + 2 + 2 * row) column then colour else v)
                  (drawn_row-other address font glyph colour
                    (address + pitch + row * pitch + column) m (inr (omega (arith, wide))))
                ∙ ap₂ (λ g k. if bit_of font g column then colour else m k) (omega arith)
                    (sym at))))

  -- In a buffer with rows of at least 16 pixels, a character fills 32 rows of 16 columns at its
  -- place: where the bit of the glyph is set there is the colour, and where it is not, or beside
  -- the character, the pixel stays.
  pub draw_character-bit :
      (character x y : ℕ) (m : Pixels)
      → ((row column : ℕ)
          → row < 32
          → column < 16
          → draw_character font pitch character x y colour m
              (u32 (y * pitch) + x + row * pitch + column)
            ≡ (if bit_of font
                  (word_of_font font 8 + u32 (word_of_font font 20 * character) + 2 * row)
                  column
                then colour
                else m (u32 (y * pitch) + x + row * pitch + column)))
        × ((k : ℕ)
            → Beside pitch 32 (u32 (y * pitch) + x) k
            → draw_character font pitch character x y colour m k ≡ m k)
  unfolding draw_character
  draw_character-bit character x y m = (
    (λ row column below inside. draw_glyph-bit 32 _ _ row column m below inside),
    (λ k beside. draw_glyph-other 32 _ _ k m beside),
  )
