-- ===== src/Desktop.antt =====
-- The window manager, src/programs/desktop/program.c: windows, focus, dragging, and the events that
-- keys and the mouse give to windows.
--
-- A window is known by its address; `windows` is the list of the windows themselves in its order,
-- `taskbar` the addresses that its entries hold, `programs` the names behind its first icons. Coordinates are integers, sizes `uint32_t` values.
-- The title, the icon and the pixels are left out, and so are the blocks of the events.
pub mod Click
pub mod Lookup
pub mod Move
pub mod Moves
pub mod Clicks
pub mod Contents
pub mod Reach
pub mod Reshaped
pub mod Tasks
mod Tests
pub mod Valid
pub mod Top
pub mod Windows
use korby_os.Base.{
  ℕ, zero, suc, ◌+◌, ◌-◌, ◌*◌, ◌/◌, ◌%◌, ◌^◌, Bool, true, false, not, ◌&&◌, ◌||◌, Option, none,
  some, List, [], ◌∷◌, ◌++◌, ◌==◌, if◌then◌else◌, u32,
}
use korby_os.Base.Int.{ℤ, pos, ◌+ℤ◌, ◌-ℤ◌, ltb_ℤ, leb_ℤ}

pub data Event : Type 0 where
  quit : Event
  key : ℕ → Bool → Event
  click : Bool → Bool → Event
  move : ℤ → ℤ → Event

pub record Window : Type 0 where
  pub address : ℕ
  pub x : ℤ
  pub y : ℤ
  pub width : ℕ
  pub height : ℕ
  pub mouse_mode : ℕ
  pub fullscreen : Bool
  pub minimised : Bool
  pub events : List Event

-- A NULL pointer is `none`.
pub record Desktop : Type 0 where
  pub display_width : ℕ
  pub display_height : ℕ
  pub mouse_x : ℤ
  pub mouse_y : ℤ
  pub windows : List Window
  pub taskbar : List ℕ
  pub focus : Option ℕ
  pub dragging : Option ℕ
  pub dragging_x : ℤ
  pub dragging_y : ℤ
  pub programs : List ℕ
  pub exiting : Bool

-- The desktop after `start`: no windows, and the mouse in the middle of the display.
abbrev pub started : ℕ → ℕ → List ℕ → Desktop
started width height programs = record {
  display_width = width;
  display_height = height;
  mouse_x = pos (width / 2);
  mouse_y = pos (height / 2);
  windows = [];
  taskbar = [];
  focus = none;
  dragging = none;
  dragging_x = pos 0;
  dragging_y = pos 0;
  programs = programs;
  exiting = false;
}

-- `a - b` of `uint32_t` values.
abbrev pub sub32 : ℕ → ℕ → ℕ
sub32 a b = (a + 2 ^ 32 - b) % 2 ^ 32

-- The window at an address. A pointer to none of the windows dangles.
unfoldable pub window_at : ℕ → List Window → Option Window
window_at p [] = none
window_at p (w ∷ rest) = if w.address == p then some w else window_at p rest

-- A write through a pointer to a window.
unfoldable pub update : ℕ → (Window → Window) → List Window → List Window
update p f [] = []
update p f (w ∷ rest) = (if w.address == p then f w else w) ∷ update p f rest

-- `addItem(&window->events, …)`.
abbrev pub send : Event → Window → Window
send e w = record w { events = w.events ++ e ∷ [] }

-- The pointer itself is compared, dangling or not.
abbrev pub is_at : Option ℕ → ℕ → Bool
is_at none p = false
is_at (some q) p = q == p

-- The window that `allocateWindow` makes, in the middle of the display.
abbrev pub centred : ℕ → ℕ → ℕ → Desktop → Window
centred p width height s = record {
  address = p;
  x = pos (sub32 (s.display_width / 2) (u32 (width + 20) / 2));
  y = pos (sub32 (s.display_height / 2) (u32 (height + 57) / 2));
  width = width;
  height = height;
  mouse_mode = 0;
  fullscreen = false;
  minimised = false;
  events = [];
}

-- `allocateWindow`; `p` is the block that `addItem` returns.
unfoldable pub allocate_window : ℕ → ℕ → ℕ → Desktop → Desktop
allocate_window p width height s = record s {
  windows = s.windows ++ centred p width height s ∷ [];
  focus = some p;
  taskbar = s.taskbar ++ p ∷ [];
}

-- `allocateFullscreenWindow`.
unfoldable pub allocate_fullscreen_window : ℕ → Desktop → Desktop
allocate_fullscreen_window p s =
    let new : Window = record {
      address = p;
      x = pos 0;
      y = pos 0;
      width = s.display_width;
      height = s.display_height;
      mouse_mode = 0;
      fullscreen = true;
      minimised = false;
      events = [];
    } in
    record s { windows = s.windows ++ new ∷ []; focus = some p; taskbar = s.taskbar ++ p ∷ [] }

unfoldable pub erase : ℕ → List ℕ → List ℕ
erase p [] = []
erase p (q ∷ rest) = if q == p then rest else q ∷ erase p rest

-- `removeItem` of a window.
unfoldable pub erase_window : ℕ → List Window → List Window
erase_window p [] = []
erase_window p (w ∷ rest) = if w.address == p then rest else w ∷ erase_window p rest

-- `unallocateWindow`.
unfoldable pub unallocate_window : ℕ → Desktop → Desktop
unallocate_window p s = record s {
  taskbar = erase p s.taskbar;
  focus = if is_at s.focus p then none else s.focus;
  windows = erase_window p s.windows;
}

-- `moveItemEnd(&windows, window)`.
unfoldable pub move_to_end : ℕ → List Window → List Window
move_to_end p windows = elim (window_at p windows) [
  | none ↦ windows
  | some w ↦ erase_window p windows ++ w ∷ []
]

abbrev pub send_to : ℕ → Event → Desktop → Desktop
send_to p e s = record s { windows = update p (send e) s.windows }

abbrev pub send_at : Option ℕ → Event → Desktop → Desktop
send_at none e s = s
send_at (some p) e s = send_to p e s

-- An event for the window that has the focus, if one has.
abbrev pub send_focus : Event → Desktop → Desktop
send_focus e s = send_at s.focus e s

-- `keyPress`: the key with the code 91 takes the focus away.
unfoldable pub key_press : ℕ → Bool → Desktop → Desktop
key_press scancode pressed s =
    let t : Desktop =
      if pressed && (scancode == 91) then record s { dragging = none; focus = none } else s in
    send_focus (key scancode pressed) t

-- The point is in the rectangle from `x0` to `x1` and from `y0` to `y1`, without the last ones.
unfoldable pub in_box : ℤ → ℤ → ℤ → ℤ → ℤ → ℤ → Bool
in_box x y x0 x1 y0 y1 = leb_ℤ x0 x && (ltb_ℤ x x1 && (leb_ℤ y0 y && ltb_ℤ y y1))

-- The point is in the contents of a window that is not fullscreen.
unfoldable pub in_contents : ℤ → ℤ → Window → Bool
in_contents x y w =
    in_box x y (w.x +ℤ pos 10) (w.x +ℤ pos w.width +ℤ pos 10) (w.y +ℤ pos 47)
      (w.y +ℤ pos 47 +ℤ pos w.height)

-- What a pointer that may be NULL points to. A dangling pointer has no result.
unfoldable pub deref : Option ℕ → List Window → Option (Option Window)
deref none windows = some none
deref (some p) windows = elim (window_at p windows) [ none ↦ none | some w ↦ some (some w) ]
