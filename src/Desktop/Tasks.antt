-- ===== src/Desktop/Tasks.antt =====
-- Clicks on the taskbar keep a desktop valid.
use korby_os.Base.{
  ℕ, ◌+◌, ◌*◌, ◌≡◌, refl, sym, ap, ◌∙◌, Bool, true, false, not, ◌&&◌, none, some, List, [], ◌∷◌,
  map, arith, has, length, u8, Bool-cases, Option-cases, inl, inr,
}
use korby_os.Base.Int.{pos, ltb_ℤ, leb_ℤ}
use korby_os.Desktop.{quit, Window, Desktop, window_at, update, send, is_at, move_to_end}
use korby_os.Desktop.Click.{
  raise_window, set_minimised, on_icon, task_action, task_click, program_click, bar_click,
}
use korby_os.Desktop.Lookup.{is_some, Found, window_at-address}
use korby_os.Desktop.Reshaped.{update-Reshaped, map-Reshaped, move_to_end-Reshaped}
use korby_os.Desktop.Valid.{IsValid, reshape, refocus, unfocus, closing, matched}
use korby_os.Desktop.Windows.{touch, send_to-IsValid}
use korby_os.Desktop.Moves.{if-IsValid}

pub raise_window-IsValid :
    (p : ℕ) (w : Window) (s : Desktop)
    → window_at p s.windows ≡ some w
    → IsValid s
    → IsValid (raise_window p s)
raise_window-IsValid p w s found v =
    reshape (record s { focus = some p }) (move_to_end p s.windows)
      (refocus s (some p) v (λ q e. (w, ap (λ n. window_at n s.windows) (ground arith) ∙ found)))
      (move_to_end-Reshaped p s.windows v.distinct)

pub minimise-IsValid :
    (p : ℕ) (b : Bool) (s : Desktop)
    → IsValid s
    → IsValid (record s { windows = update p (set_minimised b) s.windows })
minimise-IsValid p b s v = touch s p (set_minimised b) (λ w. (refl, refl, refl, refl)) v

task_action-IsValid :
    (left : Bool) (w : Window) (s : Desktop)
    → Found s.windows w
    → IsValid s
    → IsValid (task_action left w s)
unfolding task_action
task_action-IsValid left w s found v =
    let shown : Desktop = record s { windows = update w.address (set_minimised false) s.windows } in
    let same =
      update-Reshaped w.address (set_minimised false) s.windows (λ u. (refl, refl, refl, refl))
        v.distinct in
    let (u, there, m) =
      matched (window_at w.address s.windows) (window_at w.address shown.windows) w
        (same.matching w.address) found in
    if-IsValid (not left) _ _ (send_to-IsValid w.address quit s v) (
      if-IsValid w.minimised _ _
        (raise_window-IsValid w.address u shown there (minimise-IsValid w.address false s v))
        (if-IsValid (is_at s.focus w.address) _ _
          (minimise-IsValid w.address true (record s { focus = none }) (unfocus s v))
          (raise_window-IsValid w.address w s found v)))

-- Every entry of the taskbar points to a window.
task_click-IsValid :
    (left : Bool) (i : ℕ) (tasks : List ℕ) (s : Desktop)
    → ((p : ℕ) → has p tasks ≡ true → is_some (window_at p s.windows) ≡ true)
    → IsValid s
    → (t : Desktop) × (task_click left i tasks s ≡ some t) × IsValid t
unfolding task_click
task_click-IsValid left i [] s there v = (s, refl, v)
task_click-IsValid left i (p ∷ tasks) s there v = elim (Bool-cases (on_icon s.mouse_x 5 i)) [
  | inr off ↦
      let (t, runs, u) =
        task_click-IsValid left (i + 1) tasks s (λ q e. there q (ground arith)) v in
      (t, rw off runs, u)
  | inl on ↦ elim (Option-cases (window_at p s.windows)) [
    | inl gone ↦ (let here : is_some (window_at p s.windows) ≡ true = there p (ground arith) in cc)
    | inr (w, found) ↦
        let at : Found s.windows w =
          ap (λ n. window_at n s.windows) (window_at-address p s.windows w found) ∙ found in
        (task_action left w s, rw (on, found), task_action-IsValid left w s at v)
  ]
]

module _ (run : ℕ → Desktop → Desktop)
    (safe : (name : ℕ) (s : Desktop) → IsValid s → IsValid (run name s)) where
  program_click-IsValid :
      (i : ℕ) (names : List ℕ) (s : Desktop) → IsValid s → IsValid (program_click run i names s)
  unfolding program_click
  program_click-IsValid i [] s v = v
  program_click-IsValid i (name ∷ names) s v =
      program_click-IsValid (i + 1) names _
        (if-IsValid (on_icon s.mouse_x 4 i) _ _ (safe name s v) v)

  exit-IsValid :
      (s : Desktop)
      → IsValid s
      → IsValid (record s { exiting = true; windows = map (send quit) s.windows })
  exit-IsValid s v =
      reshape (record s { exiting = true }) (map (send quit) s.windows) (closing s v)
        (map-Reshaped (send quit) s.windows (λ u. (refl, refl, refl, refl)) v.distinct)

  pub bar_click-IsValid :
      (left : Bool) (s : Desktop)
      → IsValid s
      → (t : Desktop) × (bar_click run left s ≡ some t) × IsValid t
  unfolding bar_click
  bar_click-IsValid left s v =
      let count : ℕ = u8 (1 + length s.programs) in
      elim (Bool-cases (leb_ℤ (pos (5 + 32 * count)) s.mouse_x)) [
        | inl tasks ↦
            let (t, runs, u) =
              task_click-IsValid left count s.taskbar s (λ p e. sym (v.tasks p) ∙ e) v in
            (t, rw tasks runs, u)
        | inr icons ↦ elim (Bool-cases (not left)) [
          | inl right ↦ (s, rw (icons, right), v)
          | inr chosen ↦ elim (Bool-cases (leb_ℤ (pos 4) s.mouse_x && ltb_ℤ s.mouse_x (pos 28))) [
            | inl ends ↦ (_, rw (icons, chosen, ends), exit-IsValid s v)
            | inr starts ↦ (_, rw (icons, chosen, starts), program_click-IsValid 1 s.programs s v)
          ]
        ]
      ]
