-- ===== src/Graphics/Glyph.antt =====
-- `drawCharacter` of src/shared.h: the pixels of a glyph, 16 columns by 32 rows.
--
-- The font is a function from addresses to bytes, and `glyph` is the place of the character's first
-- byte. Each row has two bytes.
use korby_os.Base.{
  ℕ, zero, suc, ◌+◌, ◌-◌, ◌*◌, ◌/◌, ◌%◌, ◌^◌, ◌≤◌, ◌<◌, ◌≡◌, ◌≢◌, ◌⊎◌, inl, inr, refl, sym, ap, ap₂,
  ◌∙◌, Bool, ◌==◌, if◌then◌else◌, if_yes, if_no, if_both, u32, ltb, Bool-cases, arith,
}
use korby_os.Graphics.{Pixels}
use korby_os.Graphics.Cores.{put}

-- `byte & (0b10000000 >> x)`
abbrev pub bit_at : ℕ → ℕ → Bool
bit_at byte x = byte / 2 ^ (7 - x) % 2 == 1

-- A loop over `x`: the colour where the bit is set, and the next address.
unfoldable pub draw_byte : ℕ → ℕ → ℕ → ℕ → ℕ → Pixels → Pixels
draw_byte zero x address byte colour m = m
draw_byte (suc rest) x address byte colour m =
    draw_byte rest (suc x) (suc address) byte colour
      (if bit_at byte x then put address colour m else m)

unfoldable pub draw_glyph : ℕ → ℕ → ℕ → (ℕ → ℕ) → ℕ → ℕ → Pixels → Pixels
draw_glyph zero pitch address font glyph colour m = m
draw_glyph (suc rest) pitch address font glyph colour m =
    draw_glyph rest pitch (address + 16 + (pitch + 2 ^ 32 - 16) % 2 ^ 32) font (glyph + 2) colour (
      draw_byte 8 0 (address + 8) (font (glyph + 1)) colour
        (draw_byte 8 0 address (font glyph) colour m))

-- A `uint32_t` of the font.
abbrev pub word_of_font : (ℕ → ℕ) → ℕ → ℕ
word_of_font font i = font i + 2 ^ 8 * font (i + 1) + 2 ^ 16 * font (i + 2) + 2 ^ 24 * font (i + 3)

unfoldable pub draw_character : (ℕ → ℕ) → ℕ → ℕ → ℕ → ℕ → ℕ → Pixels → Pixels
draw_character font pitch character x y colour m =
    draw_glyph 32 pitch (u32 (y * pitch) + x) font
      (word_of_font font 8 + u32 (word_of_font font 20 * character)) colour m

-- One round.
abbrev stepped : ℕ → ℕ → ℕ → ℕ → Pixels → Pixels
stepped x address byte colour m = if bit_at byte x then put address colour m else m

stepped-here :
    (x address byte colour k : ℕ) (m : Pixels)
    → k ≡ address
    → stepped x address byte colour m k ≡ (if bit_at byte x then colour else m k)
stepped-here x address byte colour k m here = elim (Bool-cases (bit_at byte x)) [
  | inl set ↦
      ap (λ n. n k) (if_yes (put address colour m) m set)
      ∙ (if_yes {b = k == address} colour (m k) (ground (arith, here))
          ∙ sym (if_yes colour (m k) set))
  | inr clear ↦
      ap (λ n. n k) (if_no (put address colour m) m clear) ∙ sym (if_no colour (m k) clear)
]

stepped-other :
    (x address byte colour k : ℕ) (m : Pixels)
    → k ≢ address
    → stepped x address byte colour m k ≡ m k
stepped-other x address byte colour k m other =
    if_both (λ (n : Pixels). n k ≡ m k) (bit_at byte x)
      (λ _. if_no {b = k == address} colour (m k) (ground (arith, other))) (λ _. refl)

-- What is not written stays.
draw_byte-other :
    (rest x address byte colour k : ℕ) (m : Pixels)
    → (k < address) ⊎ (address + rest ≤ k)
    → draw_byte rest x address byte colour m k ≡ m k
unfolding draw_byte
draw_byte-other zero x address byte colour k m other = refl
draw_byte-other (suc rest) x address byte colour k m other =
    draw_byte-other rest (suc x) (suc address) byte colour k _ (elim other [
      | inl before ↦ inl (omega (arith, before))
      | inr behind ↦ inr (omega (arith, behind))
    ])
    ∙ stepped-other x address byte colour k m (elim other [
      | inl before ↦ (λ e. omega (arith, e, before))
      | inr behind ↦ (λ e. omega (arith, e, behind))
    ])

-- The pixel of a bit.
draw_byte-bit :
    (rest x address byte colour i : ℕ) (m : Pixels)
    → i < rest
    → draw_byte rest x address byte colour m (address + i)
      ≡ (if bit_at byte (x + i) then colour else m (address + i))
unfolding draw_byte
draw_byte-bit zero x address byte colour i m below = absurd (omega (arith, below))
draw_byte-bit (suc rest) x address byte colour zero m below =
    draw_byte-other rest (suc x) (suc address) byte colour (address + 0)
      (stepped x address byte colour m) (inl (omega arith))
    ∙ (stepped-here x address byte colour (address + 0) m (omega arith)
        ∙ ap (λ n. if bit_at byte n then colour else m (address + 0))
            (let same : x ≡ x + 0 = omega arith in same))
draw_byte-bit (suc rest) x address byte colour (suc i) m below =
    (let next : address + suc i ≡ suc address + i = omega arith in
      let column : suc x + i ≡ x + suc i = omega arith in
      ap (draw_byte rest (suc x) (suc address) byte colour (stepped x address byte colour m)) next
      ∙ (draw_byte-bit rest (suc x) (suc address) byte colour i (stepped x address byte colour m)
            (omega (arith, below))
          ∙ (ap (λ v. if bit_at byte (suc x + i) then colour else v)
                (stepped-other x address byte colour (suc address + i) m (λ e. omega (arith, e)))
              ∙ ap₂ (λ n a. if bit_at byte n then colour else m a) column (sym next))))

-- Both bytes of a row.
abbrev pub drawn_row : ℕ → (ℕ → ℕ) → ℕ → ℕ → Pixels → Pixels
drawn_row address font glyph colour m =
    draw_byte 8 0 (address + 8) (font (glyph + 1)) colour
      (draw_byte 8 0 address (font glyph) colour m)

pub drawn_row-other :
    (address : ℕ) (font : ℕ → ℕ) (glyph colour k : ℕ) (m : Pixels)
    → (k < address) ⊎ (address + 16 ≤ k)
    → drawn_row address font glyph colour m k ≡ m k
drawn_row-other address font glyph colour k m other =
    draw_byte-other 8 0 (address + 8) (font (glyph + 1)) colour k _ (elim other [
      | inl before ↦ inl (omega (arith, before))
      | inr behind ↦ inr (omega (arith, behind))
    ])
    ∙ draw_byte-other 8 0 address (font glyph) colour k m
        (elim other [ inl before ↦ inl before | inr behind ↦ inr (omega (arith, behind)) ])

-- The bit of a column: the highest bit of a byte is its first column.
abbrev pub bit_of : (ℕ → ℕ) → ℕ → ℕ → Bool
bit_of font glyph column = font (glyph + column / 8) / 2 ^ (7 - column % 8) % 2 == 1

pub drawn_row-bit :
    (address : ℕ) (font : ℕ → ℕ) (glyph colour column : ℕ) (m : Pixels)
    → column < 16
    → drawn_row address font glyph colour m (address + column)
      ≡ (if bit_of font glyph column then colour else m (address + column))
drawn_row-bit address font glyph colour column m inside =
    (let first = draw_byte 8 0 address (font glyph) colour m in
      elim (Bool-cases (ltb column 8)) [
        | inl left ↦
            (let low : column < 8 = ground (arith, left) in
              draw_byte-other 8 0 (address + 8) (font (glyph + 1)) colour (address + column) first
                (inl (omega (arith, low)))
              ∙ (draw_byte-bit 8 0 address (font glyph) colour column m low
                  ∙ ap₂ (λ g n. if bit_at (font g) n then colour else m (address + column))
                      (omega (arith, low)) (omega (arith, low))))
        | inr right ↦
            (let high : 8 ≤ column = ground (arith, right) in
              let at : address + column ≡ (address + 8) + (column - 8) = omega (arith, high) in
              ap (draw_byte 8 0 (address + 8) (font (glyph + 1)) colour first) at
              ∙ (draw_byte-bit 8 0 (address + 8) (font (glyph + 1)) colour (column - 8) first
                    (omega (arith, inside))
                  ∙ (ap (λ v. if bit_at (font (glyph + 1)) (0 + (column - 8)) then colour else v)
                        (ap first (sym at)
                          ∙ draw_byte-other 8 0 address (font glyph) colour (address + column) m
                              (inr (omega (arith, high))))
                      ∙ ap₂ (λ g n. if bit_at (font g) n then colour else m (address + column))
                          (omega (arith, high, inside)) (omega (arith, high, inside)))))
      ])
