-- ===== src/Terminal/Backspace.antt =====
-- Taking a character back: where the cursor is.
use korby_os.Base.{
  ℕ, zero, suc, ◌+◌, ◌-◌, ◌*◌, ◌%◌, ◌^◌, ◌≤◌, ◌≡◌, refl, ap, ap₂, ◌∙◌, ltb, u32, sub64, arith,
  if_both,
}
use korby_os.Terminal.{Terminal, normal, fill_cursor, backspace}
use korby_os.Terminal.Print.{Grid, Behind, Same, Same-refl, placed, cell_bound}

-- The backspace key on an empty line does nothing.
pub backspace-empty : (t : Terminal) → Grid t → Behind 0 t → backspace t ≡ t
unfolding backspace
backspace-empty t g behind =
    (let inside = cell_bound t.cursor_x t.cursor_y t.width t.height g.column g.row in
      let cells = g.cells in
      if_both (λ u. u ≡ t) (ltb t.typing_start (u32 (t.cursor_x + t.cursor_y * t.width)))
        (λ behind_start. absurd (ground (arith, inside, cells, behind))) (λ _. refl))

-- The last column of the line above.
line_above : (y w s : ℕ) → y * w ≡ suc s → 1 ≤ w → (1 ≤ y) × ((w - 1) + (y - 1) * w ≡ s)
line_above zero w s full wide = absurd (omega (arith, full))
line_above (suc y) w s full wide =
    (let product : suc y * w ≡ w + y * w = grind arith in
      let same : (suc y - 1) * w ≡ y * w = ap (λ k. k * w) (omega arith) in
      (omega arith, omega (arith, product, same, full)))

-- What taking a character back leaves: the cursor is one character before.
pub record TakenBack (n : ℕ) (t u : Terminal) : Type 0 where
  pub grid : Grid u
  pub behind : Behind n u
  pub current : u.typing_current ≡ sub64 t.typing_current 1
  pub same : Same (record t { typing_current = sub64 t.typing_current 1 }) u

pub backspace-TakenBack :
    (n : ℕ) (t : Terminal) → Grid t → Behind (suc n) t → TakenBack n t (backspace t)
unfolding backspace
backspace-TakenBack n t g behind =
    (let inside = cell_bound t.cursor_x t.cursor_y t.width t.height g.column g.row in
      let cells = g.cells in
      if_both (TakenBack n t) (ltb t.typing_start (u32 (t.cursor_x + t.cursor_y * t.width)))
        (λ _.
          if_both (λ u. TakenBack n t (fill_cursor normal u)) (ltb 0 t.cursor_x)
            (λ middle. record {
              grid = record {
                wide = g.wide;
                high = g.high;
                cells = g.cells;
                column = (let column = g.column in omega arith);
                row = g.row;
                roomy = g.roomy;
              };
              behind = (let start = behind in ground arith);
              current = refl;
              same = placed _ _ _ _ (Same-refl _);
            })
            (λ first.
              let at_start : t.cursor_x ≡ 0 = ground arith in
              let wide = g.wide in
              let high = g.high in
              let row = g.row in
              let column = g.column in
              let above =
                line_above t.cursor_y t.width (t.typing_start + n) (omega (arith, at_start, behind))
                  (omega arith) in
              let low = above.0 in
              let x : (t.width + 2 ^ 32 - 1) % 2 ^ 32 ≡ t.width - 1 = omega arith in
              let y : (t.cursor_y + 2 ^ 32 - 1) % 2 ^ 32 ≡ t.cursor_y - 1 = omega arith in
              record {
                grid = record {
                  wide = g.wide;
                  high = g.high;
                  cells = g.cells;
                  column = omega (arith, x);
                  row = omega (arith, y);
                  roomy = g.roomy;
                };
                behind = ap₂ (λ a b. a + b * t.width) x y ∙ above.1;
                current = refl;
                same = placed _ _ _ _ (Same-refl _);
              }))
        (λ before. absurd (ground (arith, inside, cells, behind))))
