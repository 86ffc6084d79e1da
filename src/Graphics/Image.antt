-- ===== src/Graphics/Image.antt =====
-- What drawing an image, a rectangle and a whole picture leave in a buffer.
use korby_os.Base.{ℕ, ◌+◌, ◌*◌, ◌/◌, ◌%◌, ◌^◌, ◌≤◌, ◌<◌, ◌≡◌, ap, sym, subst, ◌∙◌, inr, u32, arith}
use korby_os.Graphics.{Pixels, drop_of, copy_pairs, copy_rows, draw_image, draw_rectangle, blit}
use korby_os.Graphics.Rows.{
  stride, copy_pairs-aside, copy_pairs-inside, copy_rows-before, copy_rows-behind,
  copy_rows-between, copy_rows-inside, fill_rows-copy_rows,
}

-- An image that starts at the pixel `corner` of a buffer: it is there, row by row, and the pixels
-- before, beside and behind it are as they were.
pub record Drawn (pitch corner width height : ℕ) (source m m' : Pixels) : Type 0 where
  pub inside :
      (row column : ℕ)
      → row < height
      → column < width
      → m' (corner + row * pitch + column) ≡ source (row * width + column)
  pub beside :
      (row column : ℕ)
      → row < height
      → width ≤ column
      → column < pitch
      → m' (corner + row * pitch + column) ≡ m (corner + row * pitch + column)
  pub before : (i : ℕ) → i < corner → m' i ≡ m i
  pub behind : (i : ℕ) → corner + height * pitch ≤ i → m' i ≡ m i

-- Two pixels are copied at a time: both widths are even. The first pixel's number is a `uint32_t`.
pub record Fits (pitch x y width : ℕ) : Type 0 where
  pub width_even : width % 2 ≡ 0
  pub pitch_even : pitch % 2 ≡ 0
  pub narrow : x + width ≤ pitch
  pub line : pitch < 2 ^ 32
  pub first : y * pitch < 2 ^ 32

copy_rows-Drawn :
    (pitch corner pairs rest width height : ℕ) (source m : Pixels)
    → 2 * pairs ≡ width
    → 2 * pairs + 2 * rest ≡ pitch
    → Drawn pitch corner width height source m (copy_rows height pairs rest corner 0 source m)
copy_rows-Drawn pitch corner pairs rest width height source m w p =
    subst
      (λ q. Drawn q corner width height source m (copy_rows height pairs rest corner 0 source m)) p
      (subst
        (λ v.
          Drawn (stride pairs rest source) corner v height source m
            (copy_rows height pairs rest corner 0 source m))
        w
        record {
          inside = λ row column high narrow.
              copy_rows-inside pairs rest source height corner 0 m row column high narrow
              ∙ ap source (omega arith);
          beside = copy_rows-between pairs rest source height corner 0 m;
          before = copy_rows-before pairs rest source height corner 0 m;
          behind = copy_rows-behind pairs rest source height corner 0 m;
        })

-- An image of an even width that fits in the rows of a buffer, which are of an even length, is drawn
-- at (x, y) row by row, and all other pixels are as they were.
pub draw_image-Drawn :
    (pitch x y width height : ℕ) (source m : Pixels)
    → Fits pitch x y width
    → Drawn pitch (y * pitch + x) width height source m (draw_image pitch x y width height source m)
unfolding draw_image
draw_image-Drawn pitch x y width height source m f =
    (let first = f.first in
      let even = f.width_even in
      let whole = f.pitch_even in
      let narrow = f.narrow in
      let line = f.line in
      subst
        (λ corner.
          Drawn pitch (y * pitch + x) width height source m
            (copy_rows height (width / 2) (drop_of pitch width) corner 0 source m))
        (omega arith)
        (copy_rows-Drawn pitch (y * pitch + x) (width / 2) (drop_of pitch width) width height source
          m (omega arith) (omega arith)))

-- Whatever fits or not, a rectangle is drawn as an image of one colour is.
pub draw_rectangle-draw_image :
    (pitch x y width height colour : ℕ) (m : Pixels)
    → draw_rectangle pitch x y width height colour m
      ≡ draw_image pitch x y width height (λ _. colour) m
unfolding draw_rectangle draw_image
draw_rectangle-draw_image pitch x y width height colour m =
    fill_rows-copy_rows height (width / 2) (drop_of pitch width) (u32 (y * pitch) + x) 0 colour m

-- A rectangle of an even width that fits in the rows of a buffer, which are of an even length, is
-- filled with its colour, and all other pixels are as they were.
pub draw_rectangle-Drawn :
    (pitch x y width height colour : ℕ) (m : Pixels)
    → Fits pitch x y width
    → Drawn pitch
        (y * pitch + x)
        width
        height
        (λ _. colour)
        m
        (draw_rectangle pitch x y width height colour m)
draw_rectangle-Drawn pitch x y width height colour m f =
    subst (Drawn pitch (y * pitch + x) width height (λ _. colour) m)
      (sym (draw_rectangle-draw_image pitch x y width height colour m))
      (draw_image-Drawn pitch x y width height (λ _. colour) m f)

-- A picture of an even number of pixels is copied to the start of the buffer.
pub blit-Drawn :
    (width height : ℕ) (source m : Pixels)
    → width * height < 2 ^ 32
    → (width * height) % 2 ≡ 0
    → ((i : ℕ) → i < width * height → blit source width height m i ≡ source i)
      × ((i : ℕ) → width * height ≤ i → blit source width height m i ≡ m i)
unfolding blit
blit-Drawn width height source m fits even =
    (let pairs = u32 (width * height) / 2 in
      (
        (λ i below.
            let start : 0 + i ≡ i = omega arith in
            subst (λ k. copy_pairs pairs 0 0 source m k ≡ source k) start
              (copy_pairs-inside pairs 0 0 source m i (omega arith))),
        λ i above. copy_pairs-aside pairs 0 0 source m i (inr (omega arith)),
      ))
