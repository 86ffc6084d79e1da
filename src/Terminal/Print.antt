-- ===== src/Terminal/Print.antt =====
-- Printing a character, and taking one back: where the cursor is.
use korby_os.Base.{
  ℕ, suc, ◌+◌, ◌-◌, ◌*◌, ◌^◌, ◌≤◌, ◌<◌, ◌≡◌, ◌≢◌, refl, ap, ◌∙◌, not, List, [], ◌∷◌, ◌==◌, u32,
  arith, if_both,
}
use korby_os.Terminal.{Terminal, Draw, black, fill_cursor, next_line, put, put_all, terminal_print}

-- A grid with room for a line of 127 characters above its last line.
pub record Grid (t : Terminal) : Type 0 where
  pub wide : t.width < 2 ^ 32
  pub high : t.height < 2 ^ 32
  pub cells : t.width * t.height < 2 ^ 32
  pub column : t.cursor_x < t.width
  pub row : t.cursor_y < t.height
  pub roomy : (y : ℕ) → y + 1 ≡ t.height → 128 ≤ y * t.width

-- The cursor is `n` characters behind the start of the line.
abbrev pub Behind : ℕ → Terminal → Type 0
Behind n t = t.cursor_x + t.cursor_y * t.width ≡ t.typing_start + n

-- What printing leaves alone.
pub record Same (t u : Terminal) : Type 0 where
  pub width : u.width ≡ t.width
  pub height : u.height ≡ t.height
  pub typing : u.typing ≡ t.typing
  pub current : u.typing_current ≡ t.typing_current
  pub buffer : u.typing_buffer ≡ t.typing_buffer
  pub left : u.left_shift ≡ t.left_shift
  pub right : u.right_shift ≡ t.right_shift
  pub shift : u.shift ≡ t.shift
  pub caps : u.caps ≡ t.caps

-- A cell of the grid has a number below the number of cells.
pub cell_bound : (x y w h : ℕ) → x < w → y < h → x + y * w < w * h
cell_bound x y w h column row =
    (let rest = h - suc y in
      let split : h ≡ suc y + rest = omega arith in
      let product : w * h ≡ w + y * w + w * rest = (ap (λ k. w * k) split ∙ grind arith) in
      omega (arith, product))

-- Only the cursor, the drawing and the start of the line change.
pub placed :
    {t u : Terminal} (x y start : ℕ) (calls : List Draw)
    → Same t u
    → Same t (record u { cursor_x = x; cursor_y = y; typing_start = start; drawn = calls })
placed x y start calls s = record {
  width = s.width;
  height = s.height;
  typing = s.typing;
  current = s.current;
  buffer = s.buffer;
  left = s.left;
  right = s.right;
  shift = s.shift;
  caps = s.caps;
}

pub Same-refl : (t : Terminal) → Same t t
Same-refl t = record {
  width = refl;
  height = refl;
  typing = refl;
  current = refl;
  buffer = refl;
  left = refl;
  right = refl;
  shift = refl;
  caps = refl;
}

next_line-Same : {t : Terminal} (u : Terminal) → Same t u → Same t (next_line u)
unfolding next_line
next_line-Same {t} u s =
    if_both (Same t) (not (u32 (u.cursor_y + 1) == u.height)) (λ _. placed _ _ _ _ s)
      (λ _. placed _ _ _ _ s)

put-Same : (c : ℕ) {t : Terminal} (u : Terminal) → Same t u → Same t (put c u)
unfolding put
put-Same c {t} u s =
    if_both (Same t) (c == b'\n') (λ _. next_line-Same u s)
      (λ _.
        if_both (Same t) (u32 (u.cursor_x + 1) == u.width)
          (λ _. next_line-Same _ (placed _ _ _ _ s)) (λ _. placed _ _ _ _ s))

put_all-Same :
    (message : List ℕ) {t : Terminal} (u : Terminal) → Same t u → Same t (put_all message u)
unfolding put_all
put_all-Same [] u s = s
put_all-Same (c ∷ message) u s = put_all-Same message (put c u) (put-Same c u s)

pub terminal_print-Same : (message : List ℕ) (t : Terminal) → Same t (terminal_print message t)
unfolding terminal_print
terminal_print-Same message t =
    placed _ _ _ _ (put_all-Same message _ (placed _ _ _ _ (Same-refl t)))

pub drawn-Grid : (calls : List Draw) (t : Terminal) → Grid t → Grid (record t { drawn = calls })
drawn-Grid calls t g = record {
  wide = g.wide;
  high = g.high;
  cells = g.cells;
  column = g.column;
  row = g.row;
  roomy = g.roomy;
}

-- The next line, from the last column of a line of at most 127 characters.
next_line-Grid : (t : Terminal) → Grid t → Grid (next_line t)
unfolding next_line
next_line-Grid t g =
    if_both Grid (not (u32 (t.cursor_y + 1) == t.height))
      (λ more. record {
        wide = g.wide;
        high = g.high;
        cells = g.cells;
        column = (let column = g.column in omega arith);
        row = (let high = g.high in let row = g.row in ground arith);
        roomy = g.roomy;
      })
      (λ _. record {
        wide = g.wide;
        high = g.high;
        cells = g.cells;
        column = (let column = g.column in omega arith);
        row = g.row;
        roomy = g.roomy;
      })

next_line-Behind :
    (n : ℕ) (t : Terminal)
    → Grid t
    → n ≤ 126
    → t.cursor_x + 1 ≡ t.width
    → Behind n t
    → Behind (suc n) (next_line t)
unfolding next_line
next_line-Behind n t g few last behind =
    if_both (Behind (suc n)) (not (u32 (t.cursor_y + 1) == t.height))
      (λ more.
        let row = g.row in
        let high = g.high in
        let next : u32 (t.cursor_y + 1) ≡ suc t.cursor_y = ground arith in
        let product : u32 (t.cursor_y + 1) * t.width ≡ t.width + t.cursor_y * t.width =
          (ap (λ y. y * t.width) next ∙ grind arith) in
        omega (arith, product, last, behind))
      (λ bottom.
        let row = g.row in
        let high = g.high in
        let cells = g.cells in
        let base = g.roomy t.cursor_y (ground arith) in
        let inside = cell_bound t.cursor_x t.cursor_y t.width t.height g.column g.row in
        omega (arith, base, inside, last, behind, few, cells))

module _ (n c : ℕ) (t : Terminal) (g : Grid t) where
  put-Grid : Grid (put c t)
  unfolding put
  put-Grid =
      if_both Grid (c == b'\n') (λ _. next_line-Grid t g)
        (λ _.
          if_both Grid (u32 (t.cursor_x + 1) == t.width) (λ _. next_line-Grid _ (drawn-Grid _ t g))
            (λ more. record {
              wide = g.wide;
              high = g.high;
              cells = g.cells;
              column = (let wide = g.wide in let column = g.column in ground arith);
              row = g.row;
              roomy = g.roomy;
            }))

  -- Printing a character of the line moves the cursor on by one.
  put-Behind : c ≢ b'\n' → n ≤ 126 → Behind n t → Behind (suc n) (put c t)
  unfolding put
  put-Behind shown few behind =
      if_both (Behind (suc n)) (c == b'\n') (λ newline. absurd (shown (ground arith)))
        (λ _.
          if_both (Behind (suc n)) (u32 (t.cursor_x + 1) == t.width)
            (λ last.
              next_line-Behind n _ (drawn-Grid _ t g) few
                (let wide = g.wide in let column = g.column in ground arith) behind)
            (λ more.
              let wide = g.wide in
              let column = g.column in
              let moved : u32 (t.cursor_x + 1) ≡ suc t.cursor_x = ground arith in
              omega (arith, moved, behind)))

put_all-Grid : (message : List ℕ) (t : Terminal) → Grid t → Grid (put_all message t)
unfolding put_all
put_all-Grid [] t g = g
put_all-Grid (c ∷ message) t g = put_all-Grid message (put c t) (put-Grid 0 c t g)

-- Whatever is printed, a cursor in the grid stays in the grid.
pub terminal_print-Grid :
    (message : List ℕ) (t : Terminal) → Grid t → Grid (terminal_print message t)
unfolding terminal_print
terminal_print-Grid message t g = drawn-Grid _ _ (put_all-Grid message _ (drawn-Grid _ t g))

-- What printing a character of the line leaves: the cursor is one character further.
pub record Shown (n : ℕ) (t u : Terminal) : Type 0 where
  pub grid : Grid u
  pub behind : Behind (suc n) u
  pub same : Same t u

pub terminal_print-Shown :
    (n c : ℕ) (t : Terminal)
    → Grid t
    → c ≢ b'\n'
    → n ≤ 126
    → Behind n t
    → Shown n t (terminal_print (c ∷ []) t)
unfolding terminal_print put_all
terminal_print-Shown n c t g shown few behind =
    (let start = fill_cursor black t in
      let g0 = drawn-Grid start.drawn t g in
      record {
        grid = drawn-Grid _ (put c start) (put-Grid n c start g0);
        behind = put-Behind n c start g0 shown few behind;
        same = terminal_print-Same (c ∷ []) t;
      })
