-- ===== src/Desktop/Move.antt =====
-- `mouseMove` of src/programs/desktop/program.c. An `int16_t` argument is its value.
use korby_os.Base.{ℕ, Bool, false, ◌&&◌, ◌||◌, Option, none, some, ◌==◌, if◌then◌else◌, ◌>>=◌}
use korby_os.Base.Int.{ℤ, pos, ◌+ℤ◌, ◌-ℤ◌, ltb_ℤ}
use korby_os.Desktop.{
  move, Window, Desktop, sub32, window_at, update, send_focus, in_contents, deref,
}

-- `if (v < 0) v = 0; else if (v > top) v = top;`
unfoldable pub clamp : ℤ → ℕ → ℤ
clamp v top = if ltb_ℤ v (pos 0) then pos 0 else if ltb_ℤ (pos top) v then pos top else v

-- The window with the focus takes all movement: its mouse mode is 2 and it is under the mouse.
unfoldable pub captures : ℤ → ℤ → Option Window → Bool
captures x y none = false
captures x y (some w) = (w.mouse_mode == 2) && (w.fullscreen || in_contents x y w)

abbrev pub place_at : ℤ → ℤ → Window → Window
place_at x y w = record w { x = x; y = y }

-- The window that is dragged moves, and the mouse keeps its place on it.
unfoldable pub drag : ℕ → Window → ℤ → ℤ → Desktop → Desktop
drag p w dx dy s =
    let x : ℤ = clamp (w.x +ℤ dx) (sub32 (sub32 s.display_width w.width) 20) in
    let y : ℤ = clamp (w.y -ℤ dy) (sub32 (sub32 s.display_height w.height) 89) in
    record s {
      windows = update p (place_at x y) s.windows;
      mouse_x = x -ℤ s.dragging_x;
      mouse_y = y -ℤ s.dragging_y;
    }

-- The mouse alone moves, within the display.
unfoldable pub point : ℤ → ℤ → Desktop → Desktop
point dx dy s = record s {
  mouse_x = clamp (s.mouse_x +ℤ dx) (sub32 s.display_width 1);
  mouse_y = clamp (s.mouse_y -ℤ dy) (sub32 s.display_height 1);
}

-- The first argument is `dragging`.
unfoldable pub shift : Option ℕ → ℤ → ℤ → Desktop → Option Desktop
shift none dx dy s = some (point dx dy s)
shift (some p) dx dy s = window_at p s.windows >>= λ w. some (drag p w dx dy s)

-- Where the window with the focus hears of the mouse, and in which coordinates.
unfoldable pub follow : Option Window → Desktop → Desktop
follow none s = s
follow (some w) s =
    if w.mouse_mode == 2
    then s
    else if w.fullscreen
    then send_focus (move s.mouse_x s.mouse_y) s
    else if in_contents s.mouse_x s.mouse_y w
    then send_focus (move (s.mouse_x -ℤ w.x -ℤ pos 10) (s.mouse_y -ℤ w.y -ℤ pos 47)) s
    else s

unfoldable pub mouse_move : ℤ → ℤ → Desktop → Option Desktop
mouse_move dx dy s =
    let moved =
      shift s.dragging dx dy s >>= λ t. deref t.focus t.windows >>= λ f. some (follow f t) in
    deref s.focus s.windows >>= λ f.
    if captures s.mouse_x s.mouse_y f then some (send_focus (move dx dy) s) else moved
