-- ===== src/Desktop/Tests.antt =====
-- A concrete desktop: where the mouse and the windows are after some events, and the theorems
-- applied to it.
use korby_os.Base.{ℕ, ◌≡◌, refl, true, some, [], ◌∷◌, arith}
use korby_os.Base.Int.{pos, negsuc, ◌+ℤ◌, ◌-ℤ◌}
use korby_os.Desktop.{
  Window, Desktop, started, centred, window_at, in_box, in_contents, deref, allocate_window,
  key_press,
}
use korby_os.Desktop.Click.{mouse_click}
use korby_os.Desktop.Move.{clamp, point}
use korby_os.Desktop.Reach.{opened, pressed_key, here, next, started-IsValid, Reach-IsValid}
use korby_os.Desktop.Contents.{clicked, mouse_click-contents}
use korby_os.Desktop.Valid.{IsValid}
use korby_os.Desktop.Windows.{allocate_window-IsValid}

abbrev idle : ℕ → Desktop → Desktop
idle name s = s

abbrev empty : Desktop
empty = started 640 480 []

-- With one window, of which the contents reach from (220, 209) to (420, 309).
abbrev one_window : Desktop
unfolding allocate_window
one_window = allocate_window 64 200 100 empty

middle : one_window.windows ≡ centred 64 200 100 empty ∷ []
unfolding one_window
middle = refl

one_window-IsValid : IsValid one_window
unfolding window_at one_window
one_window-IsValid =
    allocate_window-IsValid 64 200 100 empty refl (omega arith) (omega arith)
      (started-IsValid 640 480 [] (omega arith) (omega arith) (omega arith) (omega arith))

-- The mouse stops at the edge.
at_edge :
    point (negsuc 999) (negsuc 999) empty ≡ record empty { mouse_x = pos 0; mouse_y = pos 479 }
unfolding point clamp ◌+ℤ◌ ◌-ℤ◌
at_edge = refl

Reach-IsValid_example : IsValid (key_press 30 true one_window)
unfolding window_at one_window
Reach-IsValid_example =
    Reach-IsValid idle 640 480 [] (key_press 30 true one_window) (λ name s v. v) (omega arith)
      (omega arith) (omega arith) (omega arith)
      (next (next here (opened 64 200 100 refl (omega arith) (omega arith))) (pressed_key 30 true))

-- The window in the middle is between another one of the same place and one in the corner; the first
-- has the focus.
abbrev low : Window
low = centred 128 200 100 empty

abbrev high : Window
high = record (centred 192 200 100 empty) { x = pos 0; y = pos 0 }

abbrev three : Desktop
three = record empty {
  windows = low ∷ centred 64 200 100 empty ∷ high ∷ [];
  taskbar = 128 ∷ 64 ∷ 192 ∷ [];
  focus = some 128;
}

mouse_click-contents_example :
    mouse_click idle true true three
    ≡ some (clicked true true three (low ∷ []) (centred 64 200 100 empty) (high ∷ []))
unfolding deref window_at in_contents in_box ◌+ℤ◌
mouse_click-contents_example =
    mouse_click-contents idle true true three (some low) (low ∷ []) (high ∷ [])
      (centred 64 200 100 empty) refl refl refl refl refl ((λ shown. (refl, refl, omega arith)), _)
      refl refl refl
