-- ===== src/Desktop/Valid.antt =====
-- What holds of the desktop between any two events.
use korby_os.Base.{
  ℕ, ◌+◌, ◌^◌, ◌≤◌, ◌<◌, ◌≡◌, refl, sym, ap, ◌∙◌, true, false, Option, none, some, List, arith, has,
}
use korby_os.Base.Int.{ℤ, pos, ◌+ℤ◌, ◌≤ℤ◌, ◌<ℤ◌}
use korby_os.ItemList.Chain.{Distinct}
use korby_os.Desktop.{Window, Desktop, window_at}
use korby_os.Desktop.Lookup.{ids, is_some}
use korby_os.Desktop.Reshaped.{Match, Reshaped}

-- A window that can be dragged is no larger than the display leaves room for.
abbrev pub Fits : Desktop → Window → Type 0
Fits s w =
    w.fullscreen ≡ false → (w.width + 20 ≤ s.display_width) × (w.height + 89 ≤ s.display_height)

-- The mouse holds a window by its upper bar.
pub record Held (x y : ℤ) (w : Window) : Type 0 where
  pub framed : w.fullscreen ≡ false
  pub right_of : x ≤ℤ pos 0
  pub left_of : pos 0 <ℤ x +ℤ pos (w.width + 20)
  pub below : y ≤ℤ pos 0
  pub above : pos 0 <ℤ y +ℤ pos 47

pub record IsValid (s : Desktop) : Type 0 where
  pub narrow : s.display_width < 2 ^ 32
  pub low : s.display_height < 2 ^ 32
  -- The mouse is on the display.
  pub left : pos 0 ≤ℤ s.mouse_x
  pub right : s.mouse_x <ℤ pos s.display_width
  pub top : pos 0 ≤ℤ s.mouse_y
  pub bottom : s.mouse_y <ℤ pos s.display_height
  pub distinct : Distinct (ids s.windows)
  pub fits : (p : ℕ) (w : Window) → window_at p s.windows ≡ some w → Fits s w
  -- The pointers point to windows, and the taskbar has an entry for each window and no other.
  pub focused : (p : ℕ) → s.focus ≡ some p → (w : Window) × (window_at p s.windows ≡ some w)
  pub held :
      (p : ℕ)
      → s.dragging ≡ some p
      → (w : Window) × (window_at p s.windows ≡ some w) × Held s.dragging_x s.dragging_y w
  pub single : Distinct s.taskbar
  pub tasks : (p : ℕ) → has p s.taskbar ≡ is_some (window_at p s.windows)

-- What matches a window is a window of its size.
pub matched :
    (o p : Option Window) (w : Window)
    → Match o p
    → o ≡ some w
    → (v : Window) × (p ≡ some v) × Match (some w) (some v)
matched none p w m e = cc
matched (some u) none w m e = elim m [ ]
matched (some u) (some v) w m e =
    (v, refl, (m.0 ∙ ground (arith, e), m.1 ∙ ground (arith, e), m.2 ∙ ground (arith, e)))

Match-is_some : (o p : Option Window) → Match o p → is_some o ≡ is_some p
Match-is_some none none m = refl
Match-is_some none (some v) m = elim m [ ]
Match-is_some (some w) none m = elim m [ ]
Match-is_some (some w) (some v) m = refl

Match-sym : (o p : Option Window) → Match o p → Match p o
Match-sym none none m = m
Match-sym none (some v) m = elim m [ ]
Match-sym (some w) none m = elim m [ ]
Match-sym (some w) (some v) m = (sym m.0, sym m.1, sym m.2)

Held-Match : (x y : ℤ) (w v : Window) → Match (some w) (some v) → Held x y w → Held x y v
Held-Match x y w v m h = record {
  framed = m.2 ∙ h.framed;
  right_of = h.right_of;
  left_of = rw m.0 h.left_of;
  below = h.below;
  above = h.above;
}

-- New places, marks and events of the windows, and a new order, keep a desktop valid.
pub reshape :
    (s : Desktop) (vs : List Window)
    → IsValid s
    → Reshaped s.windows vs
    → IsValid (record s { windows = vs })
reshape s vs v r = record {
  narrow = v.narrow;
  low = v.low;
  left = v.left;
  right = v.right;
  top = v.top;
  bottom = v.bottom;
  distinct = r.distinct;
  fits = λ p w e.
      let (u, found, m) =
        matched (window_at p vs) (window_at p s.windows) w
          (Match-sym (window_at p s.windows) (window_at p vs) (r.matching p)) e in
      λ framed.
        let room = v.fits p u found (m.2 ∙ framed) in
        (omega (arith, room, m.0), omega (arith, room, m.1));
  focused = λ p e.
      let (w, found) = v.focused p e in
      let (u, now, m) = matched (window_at p s.windows) (window_at p vs) w (r.matching p) found in
      (u, now);
  held = λ p e.
      let (w, found, h) = v.held p e in
      let (u, now, m) = matched (window_at p s.windows) (window_at p vs) w (r.matching p) found in
      (u, now, Held-Match s.dragging_x s.dragging_y w u m h);
  single = v.single;
  tasks = λ p. v.tasks p ∙ Match-is_some (window_at p s.windows) (window_at p vs) (r.matching p);
}

pub refocus :
    (s : Desktop) (f : Option ℕ)
    → IsValid s
    → ((p : ℕ) → f ≡ some p → (w : Window) × (window_at p s.windows ≡ some w))
    → IsValid (record s { focus = f })
refocus s f v h = record {
  narrow = v.narrow;
  low = v.low;
  left = v.left;
  right = v.right;
  top = v.top;
  bottom = v.bottom;
  distinct = v.distinct;
  fits = v.fits;
  focused = h;
  held = v.held;
  single = v.single;
  tasks = v.tasks;
}

pub unfocus : (s : Desktop) → IsValid s → IsValid (record s { focus = none })
unfocus s v = refocus s none v (λ p e. cc)

pub let_go : (s : Desktop) → IsValid s → IsValid (record s { dragging = none })
let_go s v = record {
  narrow = v.narrow;
  low = v.low;
  left = v.left;
  right = v.right;
  top = v.top;
  bottom = v.bottom;
  distinct = v.distinct;
  fits = v.fits;
  focused = v.focused;
  held = λ p e. cc;
  single = v.single;
  tasks = v.tasks;
}

pub closing : (s : Desktop) → IsValid s → IsValid (record s { exiting = true })
closing s v = record {
  narrow = v.narrow;
  low = v.low;
  left = v.left;
  right = v.right;
  top = v.top;
  bottom = v.bottom;
  distinct = v.distinct;
  fits = v.fits;
  focused = v.focused;
  held = v.held;
  single = v.single;
  tasks = v.tasks;
}

-- A window under the mouse, held where the mouse is.
pub hold :
    (s : Desktop) (w : Window) (x y : ℤ)
    → window_at w.address s.windows ≡ some w
    → Held x y w
    → IsValid s
    → IsValid (record s { dragging_x = x; dragging_y = y; dragging = some w.address })
hold s w x y found h v = record {
  narrow = v.narrow;
  low = v.low;
  left = v.left;
  right = v.right;
  top = v.top;
  bottom = v.bottom;
  distinct = v.distinct;
  fits = v.fits;
  focused = v.focused;
  held = λ p e. (w, ap (λ n. window_at n s.windows) (ground arith) ∙ found, h);
  single = v.single;
  tasks = v.tasks;
}
