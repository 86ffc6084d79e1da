-- ===== src/Desktop/Reach.antt =====
-- The desktop as a state machine: what it reaches from its start by any sequence of events.
use korby_os.Base.{ℕ, ◌+◌, ◌^◌, ◌≤◌, ◌<◌, ◌≡◌, refl, subst, Bool, false, Option, some, List, arith}
use korby_os.Base.Int.{ℤ}
use korby_os.Desktop.{
  Event, Window, Desktop, started, window_at, update, is_at, allocate_window,
  allocate_fullscreen_window, unallocate_window, key_press,
}
use korby_os.Desktop.Click.{mouse_click}
use korby_os.Desktop.Clicks.{mouse_click-IsValid}
use korby_os.Desktop.Lookup.{is_some}
use korby_os.Desktop.Move.{mouse_move}
use korby_os.Desktop.Moves.{mouse_move-IsValid}
use korby_os.Desktop.Valid.{IsValid}
use korby_os.Desktop.Windows.{
  touch, key_press-IsValid, allocate_window-IsValid, allocate_fullscreen_window-IsValid,
  unallocate_window-IsValid,
}

-- What a program writes into its window: it takes events and chooses the mouse mode.
abbrev pub served : ℕ → List Event → Window → Window
served mode events w = record w { mouse_mode = mode; events = events }

-- The events. Programs ask for windows that fit, the allocator gives blocks that are free, and no
-- program gives up a window while it is being dragged; `run` is what a program that is started from
-- the bar does to the desktop.
pub data Step (run : ℕ → Desktop → Desktop) (s : Desktop) : Desktop → Type 0 where
  opened :
      (p width height : ℕ)
      → is_some (window_at p s.windows) ≡ false
      → width + 20 ≤ s.display_width
      → height + 89 ≤ s.display_height
      → Step run s (allocate_window p width height s)
  opened_fullscreen :
      (p : ℕ)
      → is_some (window_at p s.windows) ≡ false
      → Step run s (allocate_fullscreen_window p s)
  closed : (p : ℕ) → is_at s.dragging p ≡ false → Step run s (unallocate_window p s)
  served_window :
      (p mode : ℕ) (events : List Event)
      → Step run s (record s { windows = update p (served mode events) s.windows })
  pressed_key : (scancode : ℕ) (pressed : Bool) → Step run s (key_press scancode pressed s)
  moved : (dx dy : ℤ) (t : Desktop) → mouse_move dx dy s ≡ some t → Step run s t
  clicked :
      (left pressed : Bool) (t : Desktop) → mouse_click run left pressed s ≡ some t → Step run s t

pub data Reach (run : ℕ → Desktop → Desktop) (s : Desktop) : Desktop → Type 0 where
  here : Reach run s s
  next : {t u : Desktop} → Reach run s t → Step run t u → Reach run s u

pub started-IsValid :
    (width height : ℕ) (programs : List ℕ)
    → 0 < width
    → width < 2 ^ 32
    → 0 < height
    → height < 2 ^ 32
    → IsValid (started width height programs)
unfolding window_at
started-IsValid width height programs w0 w1 h0 h1 = record {
  narrow = w1;
  low = h1;
  left = omega arith;
  right = omega arith;
  top = omega arith;
  bottom = omega arith;
  distinct = _;
  fits = λ p w e. cc;
  focused = λ p e. cc;
  held = λ p e. cc;
  single = _;
  tasks = λ p. refl;
}

some-IsValid :
    (o : Option Desktop) (t : Desktop)
    → ((u : Desktop) × (o ≡ some u) × IsValid u)
    → o ≡ some t
    → IsValid t
some-IsValid o t (u, runs, v) e = (let same : u ≡ t = cc in subst IsValid same v)

Step-IsValid :
    (run : ℕ → Desktop → Desktop) (s t : Desktop)
    → ((name : ℕ) (s : Desktop) → IsValid s → IsValid (run name s))
    → IsValid s
    → Step run s t
    → IsValid t
Step-IsValid run s _ safe v (opened p width height out wide high) =
    allocate_window-IsValid p width height s out wide high v
Step-IsValid run s _ safe v (opened_fullscreen p out) = allocate_fullscreen_window-IsValid p s out v
Step-IsValid run s _ safe v (closed p still) = unallocate_window-IsValid p s still v
Step-IsValid run s _ safe v (served_window p mode events) =
    touch s p (served mode events) (λ w. (refl, refl, refl, refl)) v
Step-IsValid run s _ safe v (pressed_key scancode pressed) = key_press-IsValid scancode pressed s v
Step-IsValid run s _ safe v (moved dx dy t e) =
    some-IsValid (mouse_move dx dy s) t (mouse_move-IsValid dx dy s v) e
Step-IsValid run s _ safe v (clicked left pressed t e) =
    some-IsValid (mouse_click run left pressed s) t (mouse_click-IsValid run left pressed s safe v)
      e

Reach-keeps :
    (run : ℕ → Desktop → Desktop) (s t : Desktop)
    → ((name : ℕ) (s : Desktop) → IsValid s → IsValid (run name s))
    → IsValid s
    → Reach run s t
    → IsValid t
Reach-keeps run s _ safe v here = v
Reach-keeps run s _ safe v (next {t} {u} r st) =
    Step-IsValid run t u safe (Reach-keeps run s t safe v r) st

-- A desktop starts on a display that is not empty, and goes through any sequence of windows opened, served
-- and closed, keys, movements and clicks, in which a window that is opened has an address that no other
-- has and is fullscreen or fits in the display with 20 columns and 89 rows to spare, and no window is
-- closed while it is dragged; what programs started from the bar do leaves a valid desktop. The desktop
-- then stays valid: the mouse is on the display, the pointers to the focus and to the window that is
-- dragged point to windows of the list, and the taskbar has one entry for each window and no other.
pub Reach-IsValid :
    (run : ℕ → Desktop → Desktop) (width height : ℕ) (programs : List ℕ) (t : Desktop)
    → ((name : ℕ) (s : Desktop) → IsValid s → IsValid (run name s))
    → 0 < width
    → width < 2 ^ 32
    → 0 < height
    → height < 2 ^ 32
    → Reach run (started width height programs) t
    → IsValid t
Reach-IsValid run width height programs t safe w0 w1 h0 h1 r =
    Reach-keeps run (started width height programs) t safe
      (started-IsValid width height programs w0 w1 h0 h1) r
