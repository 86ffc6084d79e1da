-- ===== src/Desktop/Moves.antt =====
-- Moving the mouse keeps a desktop valid, and the mouse on the display.
use korby_os.Base.{
  ℕ, ◌+◌, ◌^◌, ◌≤◌, ◌<◌, ◌≡◌, refl, sym, Bool, true, false, Option, none, some, ◌==◌, if◌then◌else◌,
  arith, Bool-cases, Option-cases, inl, inr,
}
use korby_os.Base.Int.{ℤ, pos, ◌+ℤ◌, ◌-ℤ◌, ◌≤ℤ◌, ◌<ℤ◌, +ℤ_parts, -ℤ_parts}
use korby_os.Desktop.{
  move, Window, Desktop, sub32, window_at, update, send_focus, in_contents, deref,
}
use korby_os.Desktop.Move.{clamp, captures, place_at, drag, point, shift, follow, mouse_move}
use korby_os.Desktop.Valid.{Held, IsValid}
use korby_os.Desktop.Windows.{touch, send_focus-IsValid}

pub clamp_bounds : (v : ℤ) (top : ℕ) → (pos 0 ≤ℤ clamp v top) × (clamp v top ≤ℤ pos top)
unfolding clamp
clamp_bounds v top = ground arith

-- A new place of the mouse on the display keeps a desktop valid.
place_mouse :
    (s : Desktop) (x y : ℤ)
    → IsValid s
    → pos 0 ≤ℤ x
    → x <ℤ pos s.display_width
    → pos 0 ≤ℤ y
    → y <ℤ pos s.display_height
    → IsValid (record s { mouse_x = x; mouse_y = y })
place_mouse s x y v left right top bottom = record {
  narrow = v.narrow;
  low = v.low;
  left = left;
  right = right;
  top = top;
  bottom = bottom;
  distinct = v.distinct;
  fits = v.fits;
  focused = v.focused;
  held = v.held;
  single = v.single;
  tasks = v.tasks;
}

-- The bound that `clamp` gets is one less than the size of the display, which is not 0.
last : (size : ℕ) (x : ℤ) → size < 2 ^ 32 → pos 0 ≤ℤ x → x <ℤ pos size → sub32 size 1 + 1 ≡ size
last size x small low high = omega arith

point-IsValid : (dx dy : ℤ) (s : Desktop) → IsValid s → IsValid (point dx dy s)
unfolding point
point-IsValid dx dy s v =
    let x : ℤ = s.mouse_x +ℤ dx in
    let y : ℤ = s.mouse_y -ℤ dy in
    let wide = last s.display_width s.mouse_x v.narrow v.left v.right in
    let high = last s.display_height s.mouse_y v.low v.top v.bottom in
    let in_x = clamp_bounds x (sub32 s.display_width 1) in
    let in_y = clamp_bounds y (sub32 s.display_height 1) in
    place_mouse s _ _ v in_x.0 (omega (arith, in_x.1, wide)) in_y.0 (omega (arith, in_y.1, high))

-- Where a window that fits may lie, the mouse stays on the display.
held_bounds :
    (size extent margin : ℕ) (x d : ℤ)
    → size < 2 ^ 32
    → extent + margin ≤ size
    → pos 0 ≤ℤ x
    → x ≤ℤ pos (sub32 (sub32 size extent) margin)
    → d ≤ℤ pos 0
    → pos 0 <ℤ d +ℤ pos (extent + margin)
    → (pos 0 ≤ℤ x -ℤ d) × (x -ℤ d <ℤ pos size)
held_bounds size extent margin x d small room low high right left =
    (omega (arith, -ℤ_parts x d), omega (arith, -ℤ_parts x d, +ℤ_parts d (pos (extent + margin))))

drag-IsValid :
    (p : ℕ) (w : Window) (dx dy : ℤ) (s : Desktop)
    → window_at p s.windows ≡ some w
    → Held s.dragging_x s.dragging_y w
    → IsValid s
    → IsValid (drag p w dx dy s)
unfolding drag
drag-IsValid p w dx dy s found h v =
    let (wide, tall) = v.fits p w found h.framed in
    let x : ℤ = clamp (w.x +ℤ dx) (sub32 (sub32 s.display_width w.width) 20) in
    let y : ℤ = clamp (w.y -ℤ dy) (sub32 (sub32 s.display_height w.height) 89) in
    let in_x = clamp_bounds (w.x +ℤ dx) (sub32 (sub32 s.display_width w.width) 20) in
    let in_y = clamp_bounds (w.y -ℤ dy) (sub32 (sub32 s.display_height w.height) 89) in
    let mx =
      held_bounds s.display_width w.width 20 x s.dragging_x v.narrow wide in_x.0 in_x.1 h.right_of
        h.left_of in
    let my =
      held_bounds s.display_height w.height 89 y s.dragging_y v.low tall in_y.0 in_y.1 h.below (
        omega (
          arith,
          h.above,
          +ℤ_parts s.dragging_y (pos 47),
          +ℤ_parts s.dragging_y (pos (w.height + 89)),
        )) in
    place_mouse (record s { windows = update p (place_at x y) s.windows }) _ _
      (touch s p (place_at x y) (λ u. (refl, refl, refl, refl)) v) mx.0 mx.1 my.0 my.1

shift-IsValid :
    (o : Option ℕ) (dx dy : ℤ) (s : Desktop)
    → o ≡ s.dragging
    → IsValid s
    → (t : Desktop) × (shift o dx dy s ≡ some t) × IsValid t
unfolding shift
shift-IsValid none dx dy s e v = (point dx dy s, refl, point-IsValid dx dy s v)
shift-IsValid (some p) dx dy s e v =
    let (w, found, h) = v.held p (sym e) in
    (drag p w dx dy s, rw found, drag-IsValid p w dx dy s found h v)

pub if-IsValid : (b : Bool) (s t : Desktop) → IsValid s → IsValid t → IsValid (if b then s else t)
if-IsValid true s t u v = u
if-IsValid false s t u v = v

follow-IsValid : (o : Option Window) (s : Desktop) → IsValid s → IsValid (follow o s)
unfolding follow
follow-IsValid none s v = v
follow-IsValid (some w) s v = if-IsValid (w.mouse_mode == 2) _ _ v (
    if-IsValid w.fullscreen _ _ (send_focus-IsValid _ s v)
      (if-IsValid (in_contents s.mouse_x s.mouse_y w) _ _ (send_focus-IsValid _ s v) v))

pub deref-IsValid :
    (s : Desktop) → IsValid s → (f : Option Window) × (deref s.focus s.windows ≡ some f)
unfolding deref
deref-IsValid s v = elim (Option-cases s.focus) [
  | inl nobody ↦ (none, rw (nobody, deref))
  | inr (p, at) ↦ (let (w, found) = v.focused p at in (some w, rw (at, deref, found)))
]

-- On a valid desktop `mouseMove` follows no dangling pointer, and it leaves a valid desktop: above
-- all the mouse stays on the display, also while a window is dragged.
pub mouse_move-IsValid :
    (dx dy : ℤ) (s : Desktop)
    → IsValid s
    → (t : Desktop) × (mouse_move dx dy s ≡ some t) × IsValid t
unfolding mouse_move
mouse_move-IsValid dx dy s v =
    let (f, at) = deref-IsValid s v in
    let (t, moves, u) = shift-IsValid s.dragging dx dy s refl v in
    let (g, now) = deref-IsValid t u in
    elim (Bool-cases (captures s.mouse_x s.mouse_y f)) [
      | inl taken ↦ (send_focus (move dx dy) s, rw (at, taken), send_focus-IsValid (move dx dy) s v)
      | inr free ↦ (follow g t, rw (at, free, moves, now), follow-IsValid g t u)
    ]
