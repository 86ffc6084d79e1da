-- ===== src/Desktop/Click.antt =====
-- `mouseClick` of src/programs/desktop/program.c.
--
-- The program behind an icon runs inside `execute`, and what its system calls do to the desktop is
-- the parameter `run`. The array in which the windows are put in reverse order is a list here.
use mathlib.Core.List.{reverse}
use korby_os.Base.{
  ℕ, ◌+◌, ◌*◌, Bool, true, false, not, ◌&&◌, ◌||◌, Option, none, some, List, [], ◌∷◌, map, length,
  if◌then◌else◌, u8, ◌>>=◌,
}
use korby_os.Base.Int.{ℤ, pos, ◌+ℤ◌, ◌-ℤ◌, ltb_ℤ, leb_ℤ}
use korby_os.Desktop.{
  quit, click, Window, Desktop, sub32, window_at, update, send, send_to, is_at, move_to_end, in_box,
  in_contents, deref,
}

abbrev pub raise_window : ℕ → Desktop → Desktop
raise_window p s = record s { focus = some p; windows = move_to_end p s.windows }

abbrev pub set_minimised : Bool → Window → Window
set_minimised b w = record w { minimised = b }

-- The mouse is on the icon with this number, of 24 pixels in a row from `left` on.
abbrev pub on_icon : ℤ → ℕ → ℕ → Bool
on_icon x left i = leb_ℤ (pos (left + i * 32)) x && ltb_ℤ x (pos (left + i * 32 + 24))

-- A click on a window's entry of the taskbar.
unfoldable pub task_action : Bool → Window → Desktop → Desktop
task_action left w s =
    if not left
    then send_to w.address quit s
    else if w.minimised
    then raise_window w.address
        (record s { windows = update w.address (set_minimised false) s.windows })
    else if is_at s.focus w.address
    then record s { focus = none; windows = update w.address (set_minimised true) s.windows }
    else raise_window w.address s

unfoldable pub task_click : Bool → ℕ → List ℕ → Desktop → Option Desktop
task_click left i [] s = some s
task_click left i (p ∷ rest) s =
    let later = task_click left (i + 1) rest s in
    if on_icon s.mouse_x 5 i
    then (window_at p s.windows >>= λ w. some (task_action left w s))
    else later

-- The loop over the icons of the programs, which does not stop at the one that is run.
unfoldable pub program_click : (ℕ → Desktop → Desktop) → ℕ → List ℕ → Desktop → Desktop
program_click run i [] s = s
program_click run i (name ∷ rest) s =
    program_click run (i + 1) rest (if on_icon s.mouse_x 4 i then run name s else s)

-- A press on the bar at the lower edge; `programCount` is one more than the number of programs.
unfoldable pub bar_click : (ℕ → Desktop → Desktop) → Bool → Desktop → Option Desktop
bar_click run left s =
    let count : ℕ = u8 (1 + length s.programs) in
    if leb_ℤ (pos (5 + 32 * count)) s.mouse_x
    then task_click left count s.taskbar s
    else if not left
    then some s
    else if leb_ℤ (pos 4) s.mouse_x && ltb_ℤ s.mouse_x (pos 28)
    then some (record s { exiting = true; windows = map (send quit) s.windows })
    else some (program_click run 1 s.programs s)

-- A click that a window's contents get: the window with the focus hears of it.
abbrev pub contents_action : Bool → Bool → Bool → Window → Desktop → Desktop
contents_action raises left pressed w s =
    if is_at s.focus w.address
    then send_to w.address (click left pressed) s
    else if raises
    then raise_window w.address s
    else s

abbrev pub grip : Window → Desktop → Desktop
grip w s =
    let t : Desktop = record s {
      dragging_x = w.x -ℤ s.mouse_x;
      dragging_y = w.y -ℤ s.mouse_y;
      dragging = some w.address;
    } in
    if is_at s.focus w.address then t else raise_window w.address t

-- The mouse is on the button that closes a window, on the one that minimises it, or on its upper bar.
module _ (w : Window) (s : Desktop) where
  abbrev pub on_close : Bool
  on_close =
      let right : ℤ = w.x +ℤ pos w.width in
      in_box s.mouse_x s.mouse_y (right -ℤ pos 22) (right +ℤ pos 10) (w.y +ℤ pos 10) (w.y +ℤ pos 42)

  abbrev pub on_minimise : Bool
  on_minimise =
      let right : ℤ = w.x +ℤ pos w.width in
      in_box s.mouse_x s.mouse_y (right -ℤ pos 59) (right -ℤ pos 27) (w.y +ℤ pos 10) (w.y +ℤ pos 42)

  abbrev pub on_title : Bool
  on_title = in_box s.mouse_x s.mouse_y w.x (w.x +ℤ pos w.width +ℤ pos 20) w.y (w.y +ℤ pos 47)

-- The frame of a window that is pressed: its two buttons, and the bar by which it is dragged.
unfoldable pub frame_action : Window → Desktop → Option Desktop
frame_action w s =
    if on_close w s
    then some (send_to w.address quit s)
    else if on_minimise w s
    then some (record s {
      focus = if is_at s.focus w.address then none else s.focus;
      windows = update w.address (set_minimised true) s.windows;
    })
    else if on_title w s
    then some (grip w s)
    else none

-- The focus is on a fullscreen window.
abbrev pub is_fullscreen : Option Window → Bool
is_fullscreen none = false
is_fullscreen (some w) = w.fullscreen

-- What a window makes of a click. `none` leaves it to the windows below.
unfoldable pub reaction : Bool → Bool → Option Window → Desktop → Window → Option Desktop
reaction left pressed f s w =
    if w.minimised
    then none
    else if w.fullscreen
    then (if is_fullscreen f || ltb_ℤ s.mouse_y (pos (sub32 s.display_height 32))
        then some (contents_action true left pressed w s)
        else none)
    else if in_contents s.mouse_x s.mouse_y w
    then some (contents_action (left && pressed) left pressed w s)
    else if left && pressed
    then frame_action w s
    else none

-- The loop over the windows from the last one on.
unfoldable pub window_click : Bool → Bool → Option Window → List Window → Desktop → Desktop
window_click left pressed f [] s = s
window_click left pressed f (w ∷ rest) s = elim (reaction left pressed f s w) [
  | some t ↦ t
  | none ↦ window_click left pressed f rest s
]

abbrev pub on_bar : Option Window → Desktop → Bool
on_bar f s =
    not (is_fullscreen f)
    && (leb_ℤ (pos (sub32 s.display_height 28)) s.mouse_y
        && ltb_ℤ s.mouse_y (pos (sub32 s.display_height 4)))

-- A release of the left button ends the dragging.
abbrev pub released : Bool → Bool → Desktop → Desktop
released left pressed s = if left && not pressed then record s { dragging = none } else s

unfoldable pub mouse_click : (ℕ → Desktop → Desktop) → Bool → Bool → Desktop → Option Desktop
mouse_click run left pressed s = do
  f ← deref s.focus s.windows
  t ←
      if on_bar f s
      then (if pressed then bar_click run left s else some s)
      else some (window_click left pressed f (reverse s.windows) s)
  some (released left pressed t)
