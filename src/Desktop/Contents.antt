-- ===== src/Desktop/Contents.antt =====
-- What a click on the contents of a window leaves.
use korby_os.Base.{
  ℕ, ◌≡◌, refl, ap, ap₂, ◌∙◌, Bool, true, false, not, ◌&&◌, Option, none, some, List, [], ◌∷◌, ◌++◌,
  ◌==◌, if◌then◌else◌, if_yes, if_no, if_pair, arith, All, Bool-cases, inl, inr,
}
use korby_os.Desktop.{
  click, Window, Desktop, window_at, update, send, send_to, is_at, in_contents, deref, erase_window,
  move_to_end,
}
use korby_os.Desktop.Click.{raise_window, on_bar, released, mouse_click}
use korby_os.Desktop.Top.{IsAside, mouse_click-reached}

-- A window whose address no other one has.
elsewhere :
    (p : ℕ) (v : Window) (ws : List Window)
    → window_at p (v ∷ ws) ≡ none
    → (v.address == p ≡ false) × (window_at p ws ≡ none)
unfolding window_at
elsewhere p v ws out = elim (Bool-cases (v.address == p)) [
  | inl hit ↦ absurd (let found = if_yes {b = v.address == p} (some v) (window_at p ws) hit in cc)
  | inr miss ↦ (miss, (let later = if_no {b = v.address == p} (some v) (window_at p ws) miss in cc))
]

update-absent :
    (p : ℕ) (f : Window → Window) (ws : List Window) → window_at p ws ≡ none → update p f ws ≡ ws
unfolding update
update-absent p f [] out = refl
update-absent p f (v ∷ ws) out =
    (let (miss, rest) = elsewhere p v ws out in
      ap₂ ◌∷◌ (if_no {b = v.address == p} (f v) v miss) (update-absent p f ws rest))

module _ (w : Window) (above : List Window) where
  hit : (w.address == w.address) ≡ true
  hit = ground arith

  update-middle :
      (f : Window → Window) (below : List Window)
      → window_at w.address below ≡ none
      → window_at w.address above ≡ none
      → update w.address f (below ++ w ∷ above) ≡ below ++ f w ∷ above
  unfolding update
  update-middle f [] out beyond =
      ap₂ ◌∷◌ (if_yes {b = w.address == w.address} (f w) w hit)
        (update-absent w.address f above beyond)
  update-middle f (v ∷ below) out beyond =
      (let (miss, rest) = elsewhere w.address v below out in
        ap₂ ◌∷◌ (if_no {b = v.address == w.address} (f v) v miss)
          (update-middle f below rest beyond))

  erase_window-middle :
      (below : List Window)
      → window_at w.address below ≡ none
      → erase_window w.address (below ++ w ∷ above) ≡ below ++ above
  unfolding erase_window
  erase_window-middle [] out = if_yes {b = w.address == w.address} above _ hit
  erase_window-middle (v ∷ below) out =
      (let (miss, rest) = elsewhere w.address v below out in
        if_no {b = v.address == w.address} (below ++ w ∷ above) _ miss
        ∙ ap (λ l. v ∷ l) (erase_window-middle below rest))

  window_at-middle :
      (below : List Window)
      → window_at w.address below ≡ none
      → window_at w.address (below ++ w ∷ above) ≡ some w
  unfolding window_at
  window_at-middle [] out = if_yes {b = w.address == w.address} (some w) _ hit
  window_at-middle (v ∷ below) out =
      (let (miss, rest) = elsewhere w.address v below out in
        if_no {b = v.address == w.address} (some v) _ miss ∙ window_at-middle below rest)

  move_to_end-middle :
      (below : List Window)
      → window_at w.address below ≡ none
      → move_to_end w.address (below ++ w ∷ above) ≡ (below ++ above) ++ w ∷ []
  unfolding move_to_end
  move_to_end-middle below out =
      rw (window_at-middle below out, move_to_end)
        (ap (λ l. l ++ w ∷ []) (erase_window-middle below out))

-- The desktop behind the click.
abbrev pub clicked : Bool → Bool → Desktop → List Window → Window → List Window → Desktop
clicked left pressed s below w above = record s {
  windows =
      if is_at s.focus w.address
      then below ++ record w { events = w.events ++ click left pressed ∷ [] } ∷ above
      else if left && pressed
      then (below ++ above) ++ w ∷ []
      else s.windows;
  focus =
      if is_at s.focus w.address
      then s.focus
      else if left && pressed
      then some w.address
      else s.focus;
  dragging = if left && not pressed then none else s.dragging;
}

-- The desktop with other windows, and another focus.
abbrev pub with : Bool → Bool → Desktop → List Window → Option ℕ → Desktop
with left pressed s windows focus = record s {
  windows = windows;
  focus = focus;
  dragging = if left && not pressed then none else s.dragging;
}

released-with :
    (left pressed : Bool) (s t : Desktop) (windows : List Window) (focus : Option ℕ)
    → t ≡ record s { windows = windows; focus = focus }
    → released left pressed t ≡ with left pressed s windows focus
released-with left pressed s t windows focus e =
    ap (released left pressed) e
    ∙ if_pair
        (λ (d : Desktop) (o : Option ℕ).
          d ≡ record s { windows = windows; focus = focus; dragging = o })
        (left && not pressed) (λ _. refl) (λ _. refl)

-- One of three desktops, with its windows and its focus.
chosen :
    (left pressed : Bool) (s : Desktop) (a b : Bool) (t u v : Desktop) (ts us vs : List Window)
    (tf uf vf : Option ℕ)
    → released left pressed t ≡ with left pressed s ts tf
    → released left pressed u ≡ with left pressed s us uf
    → released left pressed v ≡ with left pressed s vs vf
    → released left pressed (if a then t else if b then u else v)
      ≡ with left pressed s
          (if a then ts else if b then us else vs)
          (if a then tf else if b then uf else vf)
chosen left pressed s true b t u v ts us vs tf uf vf p q r = p
chosen left pressed s false true t u v ts us vs tf uf vf p q r = q
chosen left pressed s false false t u v ts us vs tf uf vf p q r = r

-- A click with the mouse on the contents of a framed window that is not minimised and not in fullscreen,
-- and not on the taskbar, while the focus is on no window that was given up. No other window has its
-- address, and those above it are minimised, or framed, at least 59 wide and not under the mouse. If it
-- has the focus it gets the click as its last event; if not, a press of the left button gives it the
-- focus and moves it to the end of the list; a release of the left button ends the dragging; and nothing
-- else changes.
pub mouse_click-contents :
    (run : ℕ → Desktop → Desktop) (left pressed : Bool) (s : Desktop) (f : Option Window)
    (below above : List Window) (w : Window)
    → deref s.focus s.windows ≡ some f
    → on_bar f s ≡ false
    → s.windows ≡ below ++ w ∷ above
    → window_at w.address below ≡ none
    → window_at w.address above ≡ none
    → All (IsAside s) above
    → w.minimised ≡ false
    → w.fullscreen ≡ false
    → in_contents s.mouse_x s.mouse_y w ≡ true
    → mouse_click run left pressed s ≡ some (clicked left pressed s below w above)
mouse_click-contents run left pressed s f below above w at bar order out beyond aside shown plain
      inside =
    mouse_click-reached run left pressed s f below above w at bar order aside shown plain inside
    ∙ ap some (
        chosen left pressed s (is_at s.focus w.address) (left && pressed)
          (send_to w.address (click left pressed) s) (raise_window w.address s) s _ _ _ _ _ _
          (released-with left pressed s (send_to w.address (click left pressed) s)
            (below ++ record w { events = w.events ++ click left pressed ∷ [] } ∷ above) s.focus
            (ap (λ ws. record s { windows = ws })
              (ap (update w.address (send (click left pressed))) order
                ∙ update-middle w above (send (click left pressed)) below out beyond)))
          (released-with left pressed s (raise_window w.address s) ((below ++ above) ++ w ∷ [])
            (some w.address)
            (ap (λ ws. record s { focus = some w.address; windows = ws })
              (ap (move_to_end w.address) order ∙ move_to_end-middle w above below out)))
          (released-with left pressed s s s.windows s.focus refl))
