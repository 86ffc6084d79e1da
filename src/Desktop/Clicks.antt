-- ===== src/Desktop/Clicks.antt =====
-- Clicks keep a desktop valid.
use mathlib.Core.List.{reverse}
use korby_os.Base.{
  ℕ, ◌+◌, ◌≡◌, refl, subst, Bool, true, false, not, ◌&&◌, ◌||◌, Option, none, some, List, [], ◌∷◌,
  if◌then◌else◌, arith, All, Bool-cases, Option-cases, inl, inr,
}
use korby_os.Base.Int.{ℤ, pos, ◌+ℤ◌, ◌-ℤ◌, ◌≤ℤ◌, ◌<ℤ◌, ltb_ℤ, +ℤ_parts, -ℤ_parts}
use korby_os.Desktop.{quit, click, Window, Desktop, sub32, update, is_at, in_box, in_contents}
use korby_os.Desktop.Click.{
  set_minimised, contents_action, grip, on_close, on_minimise, on_title, frame_action,
  is_fullscreen, reaction, window_click, on_bar, released, mouse_click,
}
use korby_os.Desktop.Lookup.{Found, All-Found, All-reverse}
use korby_os.Desktop.Valid.{IsValid, refocus, let_go, hold}
use korby_os.Desktop.Windows.{send_to-IsValid, kept_focus}
use korby_os.Desktop.Moves.{if-IsValid, deref-IsValid}
use korby_os.Desktop.Tasks.{raise_window-IsValid, minimise-IsValid, bar_click-IsValid}

-- The desktop that a window leaves, if it reacts, is valid.
record Holds (o : Option Desktop) : Type 0 where
  valid : (t : Desktop) → o ≡ some t → IsValid t

stays : Holds none
stays = record { valid = λ t e. cc }

reacts : (t : Desktop) → IsValid t → Holds (some t)
reacts t v = record { valid = λ u e. (let same : t ≡ u = cc in subst IsValid same v) }

if-Holds :
    (b : Bool) (o p : Option Desktop)
    → (b ≡ true → Holds o)
    → (b ≡ false → Holds p)
    → Holds (if b then o else p)
if-Holds true o p h k = h refl
if-Holds false o p h k = k refl

in_box_bounds :
    (x y x0 x1 y0 y1 : ℤ)
    → in_box x y x0 x1 y0 y1 ≡ true
    → (x0 ≤ℤ x) × (x <ℤ x1) × (y0 ≤ℤ y) × (y <ℤ y1)
unfolding in_box
in_box_bounds x y x0 x1 y0 y1 h = ground arith

grip-IsValid :
    (w : Window) (s : Desktop)
    → Found s.windows w
    → w.fullscreen ≡ false
    → in_box s.mouse_x s.mouse_y w.x (w.x +ℤ pos w.width +ℤ pos 20) w.y (w.y +ℤ pos 47) ≡ true
    → IsValid s
    → IsValid (grip w s)
grip-IsValid w s found framed inside v =
    let right : ℤ = w.x +ℤ pos w.width in
    let (x0, x1, y0, y1) =
      in_box_bounds s.mouse_x s.mouse_y w.x (right +ℤ pos 20) w.y (w.y +ℤ pos 47) inside in
    let dx : ℤ = w.x -ℤ s.mouse_x in
    let dy : ℤ = w.y -ℤ s.mouse_y in
    let px = -ℤ_parts w.x s.mouse_x in
    let py = -ℤ_parts w.y s.mouse_y in
    let t =
      hold s w dx dy found
        (record {
          framed = framed;
          right_of = omega (arith, px, x0);
          left_of = omega (
            arith,
            px,
            x1,
            +ℤ_parts w.x (pos w.width),
            +ℤ_parts right (pos 20),
            +ℤ_parts dx (pos (w.width + 20)),
          );
          below = omega (arith, py, y0);
          above = omega (arith, py, y1, +ℤ_parts w.y (pos 47), +ℤ_parts dy (pos 47));
        })
        v in
    if-IsValid (is_at s.focus w.address) _ _ t (raise_window-IsValid w.address w _ found t)

hide-IsValid :
    (w : Window) (s : Desktop)
    → IsValid s
    → IsValid (record s {
      focus = if is_at s.focus w.address then none else s.focus;
      windows = update w.address (set_minimised true) s.windows;
    })
hide-IsValid w s v =
    minimise-IsValid w.address true
      (record s { focus = if is_at s.focus w.address then none else s.focus })
      (refocus s _ v (λ p e. v.focused p (kept_focus s.focus w.address p e).0))

frame_action-Holds :
    (w : Window) (s : Desktop)
    → Found s.windows w
    → w.fullscreen ≡ false
    → IsValid s
    → Holds (frame_action w s)
unfolding frame_action
frame_action-Holds w s found framed v =
    if-Holds (on_close w s) _ _ (λ e. reacts _ (send_to-IsValid w.address quit s v))
      (λ e.
        if-Holds (on_minimise w s) _ _ (λ e. reacts _ (hide-IsValid w s v))
          (λ e.
            if-Holds (on_title w s) _ _
              (λ inside. reacts _ (grip-IsValid w s found framed inside v)) (λ e. stays)))

contents_action-IsValid :
    (raises left pressed : Bool) (w : Window) (s : Desktop)
    → Found s.windows w
    → IsValid s
    → IsValid (contents_action raises left pressed w s)
contents_action-IsValid raises left pressed w s found v =
    if-IsValid (is_at s.focus w.address) _ _ (send_to-IsValid w.address (click left pressed) s v)
      (if-IsValid raises _ _ (raise_window-IsValid w.address w s found v) v)

reaction-Holds :
    (left pressed : Bool) (f : Option Window) (s : Desktop) (w : Window)
    → Found s.windows w
    → IsValid s
    → Holds (reaction left pressed f s w)
unfolding reaction
reaction-Holds left pressed f s w found v =
    if-Holds w.minimised _ _ (λ e. stays)
      (λ e.
        if-Holds w.fullscreen _ _
          (λ e.
            if-Holds (is_fullscreen f || ltb_ℤ s.mouse_y (pos (sub32 s.display_height 32))) _ _
              (λ e. reacts _ (contents_action-IsValid true left pressed w s found v)) (λ e. stays))
          (λ framed.
            if-Holds (in_contents s.mouse_x s.mouse_y w) _ _
              (λ e. reacts _ (contents_action-IsValid (left && pressed) left pressed w s found v))
              (λ e.
                if-Holds (left && pressed) _ _ (λ e. frame_action-Holds w s found framed v)
                  (λ e. stays))))

window_click-IsValid :
    (left pressed : Bool) (f : Option Window) (ws : List Window) (s : Desktop)
    → All (Found s.windows) ws
    → IsValid s
    → IsValid (window_click left pressed f ws s)
unfolding window_click
window_click-IsValid left pressed f [] s found v = v
window_click-IsValid left pressed f (w ∷ ws) s found v =
    let h = reaction-Holds left pressed f s w found.0 v in
    elim (Option-cases (reaction left pressed f s w)) [
      | inl passes ↦ rw (passes, window_click) (window_click-IsValid left pressed f ws s found.1 v)
      | inr (t, answers) ↦ rw (answers, window_click) (h.valid t answers)
    ]

-- On a valid desktop `mouseClick` follows no dangling pointer, and it leaves a valid desktop, if
-- what the programs that it executes do to the desktop leaves one.
pub mouse_click-IsValid :
    (run : ℕ → Desktop → Desktop) (left pressed : Bool) (s : Desktop)
    → ((name : ℕ) (s : Desktop) → IsValid s → IsValid (run name s))
    → IsValid s
    → (t : Desktop) × (mouse_click run left pressed s ≡ some t) × IsValid t
unfolding mouse_click
mouse_click-IsValid run left pressed s safe v =
    let (f, at) = deref-IsValid s v in
    let ends =
      λ (t : Desktop) (u : IsValid t). if-IsValid (left && not pressed) _ t (let_go t u) u in
    elim (Bool-cases (on_bar f s)) [
      | inl bar ↦ elim (Bool-cases pressed) [
        | inl press ↦
            let (t, runs, u) = bar_click-IsValid run safe left s v in
            (released left pressed t, rw (at, bar, press, runs), ends t u)
        | inr release ↦ (released left pressed s, rw (at, bar, release), ends s v)
      ]
      | inr windows ↦
          let t = window_click left pressed f (reverse s.windows) s in
          let u =
            window_click-IsValid left pressed f (reverse s.windows) s
              (All-reverse (Found s.windows) s.windows (All-Found s.windows v.distinct)) v in
          (released left pressed t, rw (at, windows), ends t u)
    ]
