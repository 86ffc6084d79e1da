-- ===== src/Graphics.antt =====
-- Drawing in src/shared.h: `blit`, `drawImage` and `drawRectangle`.
--
-- A buffer is a function from the numbers of its pixels; the source copies two pixels at a time, as
-- a `uint64_t`. What is copied lies in another buffer.
pub mod Characters
pub mod Cores
pub mod Glyph
pub mod Image
pub mod Lines
pub mod Rows
pub mod Scroll
mod Tests
use korby_os.Base.{ℕ, zero, suc, ◌+◌, ◌-◌, ◌*◌, ◌/◌, ◌%◌, ◌^◌, ◌==◌, if◌then◌else◌, u32}

abbrev pub Pixels : Type 0
Pixels = ℕ → ℕ

-- `*to = …` for two pixels.
unfoldable pub put_pair : ℕ → ℕ → ℕ → Pixels → Pixels
put_pair to left right m i = if i == to then left else if i == suc to then right else m i

-- `*to++ = *from++` for a number of pairs.
unfoldable pub copy_pairs : ℕ → ℕ → ℕ → Pixels → Pixels → Pixels
copy_pairs zero to from source m = m
copy_pairs (suc pairs) to from source m =
    copy_pairs pairs (to + 2) (from + 2) source (put_pair to (source from) (source (suc from)) m)

unfoldable pub blit : Pixels → ℕ → ℕ → Pixels → Pixels
blit source width height m = copy_pairs (u32 (width * height) / 2) 0 0 source m

-- The rows of an image: after each, the rest of the buffer's row is passed over.
unfoldable pub copy_rows : ℕ → ℕ → ℕ → ℕ → ℕ → Pixels → Pixels → Pixels
copy_rows zero pairs rest to from source m = m
copy_rows (suc height) pairs rest to from source m =
    copy_rows height pairs rest (to + (2 * pairs + 2 * rest)) (from + 2 * pairs) source
      (copy_pairs pairs to from source m)

-- `(graphicsPitch - width) / 2`
abbrev pub drop_of : ℕ → ℕ → ℕ
drop_of pitch width = ((pitch + 2 ^ 32 - width) % 2 ^ 32) / 2

unfoldable pub draw_image : ℕ → ℕ → ℕ → ℕ → ℕ → Pixels → Pixels → Pixels
draw_image pitch x y width height source m =
    copy_rows height (width / 2) (drop_of pitch width) (u32 (y * pitch) + x) 0 source m

unfoldable pub fill_pairs : ℕ → ℕ → ℕ → Pixels → Pixels
fill_pairs zero to colour m = m
fill_pairs (suc pairs) to colour m = fill_pairs pairs (to + 2) colour (put_pair to colour colour m)

unfoldable pub fill_rows : ℕ → ℕ → ℕ → ℕ → ℕ → Pixels → Pixels
fill_rows zero pairs rest to colour m = m
fill_rows (suc height) pairs rest to colour m =
    fill_rows height pairs rest (to + (2 * pairs + 2 * rest)) colour (fill_pairs pairs to colour m)

unfoldable pub draw_rectangle : ℕ → ℕ → ℕ → ℕ → ℕ → ℕ → Pixels → Pixels
draw_rectangle pitch x y width height colour m =
    fill_rows height (width / 2) (drop_of pitch width) (u32 (y * pitch) + x) colour m
