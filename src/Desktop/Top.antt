-- ===== src/Desktop/Top.antt =====
-- Which window a click reaches, and what closing a window leaves.
use mathlib.Core.List.{reverse, reverse-append, reverse-cons, append_assoc}
use korby_os.Base.{
  ℕ, ◌≤◌, ◌≡◌, refl, ap, ◌∙◌, Bool, true, false, ◌&&◌, Option, none, some, List, [], ◌∷◌, ◌++◌,
  ◌==◌, if◌then◌else◌, if_yes, if_no, arith, All, has, Bool-cases, inl, inr,
}
use korby_os.Base.Int.{ℤ, pos, ◌+ℤ◌, ◌-ℤ◌, ◌≤ℤ◌}
use korby_os.Desktop.{
  click, Window, Desktop, window_at, send_to, is_at, in_box, in_contents, deref, erase,
  erase_window, centred, allocate_window, unallocate_window,
}
use korby_os.Desktop.Click.{
  raise_window, contents_action, on_close, on_minimise, on_title, frame_action, reaction,
  window_click, on_bar, released, mouse_click,
}
use korby_os.Desktop.Lookup.{is_some, All-reverse}

-- The whole rectangle of a window, with its frame.
abbrev pub covers : Desktop → Window → Bool
covers s w =
    in_box s.mouse_x s.mouse_y w.x (w.x +ℤ pos w.width +ℤ pos 20) w.y
      (w.y +ℤ pos w.height +ℤ pos 57)

-- The window is not under the mouse: it is minimised, or its rectangle lies elsewhere. One that is
-- narrower than its buttons has them outside of the rectangle.
abbrev pub IsAside : Desktop → Window → Type 0
IsAside s w = (w.minimised ≡ false → (w.fullscreen ≡ false) × (covers s w ≡ false) × (59 ≤ w.width))

-- A box in the rectangle of a window that does not cover the point does not have it either.
inner_box :
    (x y x0 x1 y0 y1 u0 u1 v0 v1 : ℤ)
    → in_box x y x0 x1 y0 y1 ≡ false
    → x0 ≤ℤ u0
    → u1 ≤ℤ x1
    → y0 ≤ℤ v0
    → v1 ≤ℤ y1
    → in_box x y u0 u1 v0 v1 ≡ false
unfolding in_box
inner_box x y x0 x1 y0 y1 u0 u1 v0 v1 out a b c d = ground arith

-- What lies in the rectangle of a window: its contents, its two buttons and its bar.
module _ (s : Desktop) (w : Window) (out : covers s w ≡ false) (wide : 59 ≤ w.width) where
  inner :
      (u0 u1 v0 v1 : ℤ)
      → w.x ≤ℤ u0
      → u1 ≤ℤ w.x +ℤ pos w.width +ℤ pos 20
      → w.y ≤ℤ v0
      → v1 ≤ℤ w.y +ℤ pos w.height +ℤ pos 57
      → in_box s.mouse_x s.mouse_y u0 u1 v0 v1 ≡ false
  inner u0 u1 v0 v1 a b c d =
      inner_box s.mouse_x s.mouse_y w.x (w.x +ℤ pos w.width +ℤ pos 20) w.y
        (w.y +ℤ pos w.height +ℤ pos 57) u0 u1 v0 v1 out a b c d

  not_in_contents : in_contents s.mouse_x s.mouse_y w ≡ false
  unfolding in_contents ◌+ℤ◌
  not_in_contents = inner _ _ _ _ (ground arith) (ground arith) (ground arith) (ground arith)

  not_on_close : on_close w s ≡ false
  unfolding ◌+ℤ◌ ◌-ℤ◌
  not_on_close = inner _ _ _ _ (ground arith) (ground arith) (ground arith) (ground arith)

  not_on_minimise : on_minimise w s ≡ false
  unfolding ◌+ℤ◌ ◌-ℤ◌
  not_on_minimise = inner _ _ _ _ (ground arith) (ground arith) (ground arith) (ground arith)

  not_on_title : on_title w s ≡ false
  unfolding ◌+ℤ◌
  not_on_title = inner _ _ _ _ (ground arith) (ground arith) (ground arith) (ground arith)

-- A window that is not under the mouse leaves the click to the others.
aside_reaction :
    (left pressed : Bool) (f : Option Window) (s : Desktop) (w : Window)
    → IsAside s w
    → reaction left pressed f s w ≡ none
unfolding reaction frame_action
aside_reaction left pressed f s w aside = elim (Bool-cases w.minimised) [
  | inl hidden ↦ if_yes _ _ hidden
  | inr shown ↦
      let (framed, out, wide) = aside shown in
      let contents = not_in_contents s w out wide in
      let close = not_on_close s w out wide in
      let minimise = not_on_minimise s w out wide in
      let title = not_on_title s w out wide in
      if_no _ _ shown
      ∙ if_no _ _ framed
      ∙ if_no _ _ contents
      ∙ elim (Bool-cases (left && pressed)) [
        | inl press ↦ if_yes _ _ press ∙ if_no _ _ close ∙ if_no _ _ minimise ∙ if_no _ _ title
        | inr other ↦ if_no _ _ other
      ]
]

window_click-aside :
    (left pressed : Bool) (f : Option Window) (above below : List Window) (s : Desktop)
    → All (IsAside s) above
    → window_click left pressed f (above ++ below) s ≡ window_click left pressed f below s
unfolding window_click
window_click-aside left pressed f [] below s all = refl
window_click-aside left pressed f (w ∷ above) below s all =
    rw (aside_reaction left pressed f s w all.0, window_click)
      (window_click-aside left pressed f above below s all.1)

reverse_middle :
    (below above : List Window) (w : Window)
    → reverse (below ++ w ∷ above) ≡ reverse above ++ w ∷ reverse below
reverse_middle below above w =
    reverse-append below (w ∷ above)
    ∙ ap (λ l. l ++ reverse below) (reverse-cons w above)
    ∙ append_assoc (reverse above) (w ∷ []) (reverse below)

contents_reaction :
    (left pressed : Bool) (f : Option Window) (s : Desktop) (w : Window)
    → w.minimised ≡ false
    → w.fullscreen ≡ false
    → in_contents s.mouse_x s.mouse_y w ≡ true
    → reaction left pressed f s w ≡ some (contents_action (left && pressed) left pressed w s)
unfolding reaction
contents_reaction left pressed f s w shown plain inside =
    if_no _ _ shown ∙ if_no _ _ plain ∙ if_yes _ _ inside

-- A click on the contents of a window that has windows below and above it, all of those above being
-- minimised or elsewhere, is that window's.
pub mouse_click-reached :
    (run : ℕ → Desktop → Desktop) (left pressed : Bool) (s : Desktop) (f : Option Window)
    (below above : List Window) (w : Window)
    → deref s.focus s.windows ≡ some f
    → on_bar f s ≡ false
    → s.windows ≡ below ++ w ∷ above
    → All (IsAside s) above
    → w.minimised ≡ false
    → w.fullscreen ≡ false
    → in_contents s.mouse_x s.mouse_y w ≡ true
    → mouse_click run left pressed s
      ≡ some (
          released left pressed (
            if is_at s.focus w.address
            then send_to w.address (click left pressed) s
            else if left && pressed
            then raise_window w.address s
            else s))
unfolding mouse_click window_click
mouse_click-reached run left pressed s f below above w at bar order aside shown plain inside =
    let t : Desktop = contents_action (left && pressed) left pressed w s in
    let answers = contents_reaction left pressed f s w shown plain inside in
    let clicks : window_click left pressed f (reverse s.windows) s ≡ t =
      ap (λ ws. window_click left pressed f (reverse ws) s) order
      ∙ ap (λ ws. window_click left pressed f ws s) (reverse_middle below above w)
      ∙ window_click-aside left pressed f (reverse above) (w ∷ reverse below) s
          (All-reverse (IsAside s) above aside)
      ∙ rw (answers, window_click) in
    rw (at, bar, clicks)

absent_erase : (p : ℕ) (l : List ℕ) → has p l ≡ false → erase p (l ++ p ∷ []) ≡ l
unfolding erase
absent_erase p [] out = ground arith
absent_erase p (q ∷ l) out = ground (arith, absent_erase p l)

absent_erase_window :
    (w : Window) (ws : List Window)
    → is_some (window_at w.address ws) ≡ false
    → erase_window w.address (ws ++ w ∷ []) ≡ ws
unfolding erase_window window_at
absent_erase_window w [] out = ground arith
absent_erase_window w (v ∷ ws) out = ground (arith, absent_erase_window w ws)

-- Closing a window that has just been opened, at an address that was free, gives back the desktop
-- of before, except that no window has the focus.
pub allocate_window-unallocate_window :
    (p width height : ℕ) (s : Desktop)
    → is_some (window_at p s.windows) ≡ false
    → has p s.taskbar ≡ false
    → unallocate_window p (allocate_window p width height s) ≡ record s { focus = none }
unfolding unallocate_window allocate_window
allocate_window-unallocate_window p width height s out single =
    let hit : (p == p) ≡ true = ground arith in
    λ i. record s {
      focus = if_yes {A = Option ℕ} none (some p) hit i;
      taskbar = absent_erase p s.taskbar single i;
      windows = absent_erase_window (centred p width height s) s.windows out i;
    }
