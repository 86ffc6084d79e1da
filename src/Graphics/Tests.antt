-- ===== src/Graphics/Tests.antt =====
-- A buffer of eight pixels a row: some pixels that are drawn, and the theorems applied to it.
use korby_os.Base.{
  ℕ, ◌+◌, ◌*◌, ◌≡◌, ◌≤◌, ◌<◌, ◌⊎◌, ◌%◌, u32, if◌then◌else◌, refl, true, [], ◌∷◌, has, arith,
}
use korby_os.Graphics.{Pixels, put_pair, copy_pairs, copy_rows, draw_image}
use korby_os.Graphics.Cores.{core_blit, split_task, split_task-core_blit}
use korby_os.Graphics.Lines.{Picture, split_task-core_drop}
use korby_os.Graphics.Scroll.{cell, core_drop}
use korby_os.Graphics.Characters.{Beside, draw_character-bit}
use korby_os.Graphics.Glyph.{draw_character, bit_of, word_of_font}
use korby_os.Graphics.Image.{Drawn, Fits, draw_image-Drawn}

abbrev ramp : Pixels
ramp i = 10 + i

abbrev blank : Pixels
blank i = 0

-- The second pixel of the second row.
drawn : draw_image 8 2 1 4 2 ramp blank 19 ≡ 15
unfolding draw_image copy_rows copy_pairs put_pair
drawn = refl

fitting : Fits 8 2 1 4
fitting = record {
  width_even = refl;
  pitch_even = refl;
  narrow = omega arith;
  line = omega arith;
  first = omega arith;
}

draw_image-Drawn_example : Drawn 8 (1 * 8 + 2) 4 2 ramp blank (draw_image 8 2 1 4 2 ramp blank)
draw_image-Drawn_example = draw_image-Drawn 8 2 1 4 2 ramp blank fitting

-- Three cores, the third of which finishes first, share a buffer of ten cells.
split_task-core_blit_example :
    ((k : ℕ) → k < 3 * 3 → split_task (2 ∷ 0 ∷ 1 ∷ []) (core_blit 3 ramp) blank k ≡ ramp k)
    × ((k : ℕ) → 3 * 3 ≤ k → split_task (2 ∷ 0 ∷ 1 ∷ []) (core_blit 3 ramp) blank k ≡ blank k)
split_task-core_blit_example =
    split_task-core_blit 3 3 (2 ∷ 0 ∷ 1 ∷ []) ramp blank (omega arith)
      (omega arith, (omega arith, (omega arith, _))) all_run
  where
    all_run : (id : ℕ) → id < 3 → has id (2 ∷ 0 ∷ 1 ∷ []) ≡ true
    all_run id below = ground arith

-- Three cores, with two columns each, on a picture of 40 rows.
small : Picture 7 40 3
small = record {
  numbered = omega arith;
  wide = omega arith;
  high = omega arith;
  line = omega arith;
  cores = omega arith;
}

split_task-core_drop_example :
    ((y x : ℕ)
      → y + 32 < 40
      → x < 2 * 3
      → split_task (2 ∷ 0 ∷ 1 ∷ []) (core_drop 7 40 3) ramp (cell 7 y x) ≡ ramp (cell 7 (y + 32) x))
    × ((y x : ℕ)
        → y < 40
        → x < 7
        → (40 ≤ y + 32) ⊎ (2 * 3 ≤ x)
        → split_task (2 ∷ 0 ∷ 1 ∷ []) (core_drop 7 40 3) ramp (cell 7 y x) ≡ ramp (cell 7 y x))
split_task-core_drop_example =
    split_task-core_drop 7 40 3 small (2 ∷ 0 ∷ 1 ∷ []) ramp
      (omega arith, (omega arith, (omega arith, _))) (refl, (refl, (refl, _))) all_run
  where
    all_run : (id : ℕ) → id < 3 → has id (2 ∷ 0 ∷ 1 ∷ []) ≡ true
    all_run id below = ground arith

abbrev font : ℕ → ℕ
font address = address % 256

draw_character-bit_example :
    ((row column : ℕ)
      → row < 32
      → column < 16
      → draw_character font 640 b'A' 100 50 9 blank (u32 (50 * 640) + 100 + row * 640 + column) ≡ (
          if bit_of font (word_of_font font 8 + u32 (word_of_font font 20 * b'A') + 2 * row) column
          then 9
          else blank (u32 (50 * 640) + 100 + row * 640 + column)))
    × ((k : ℕ)
        → Beside 640 32 (u32 (50 * 640) + 100) k
        → draw_character font 640 b'A' 100 50 9 blank k ≡ blank k)
draw_character-bit_example =
    draw_character-bit 640 font 9 (omega arith) (omega arith) b'A' 100 50 blank
