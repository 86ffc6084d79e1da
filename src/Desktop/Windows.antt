-- ===== src/Desktop/Windows.antt =====
-- Windows that come and go, and keys: these operations keep a desktop valid.
use korby_os.Base.{
  ℕ, ◌+◌, ◌≤◌, ◌≡◌, refl, sym, ap, subst, ◌∙◌, Bool, true, false, ◌&&◌, Option, none, some, List,
  [], ◌∷◌, ◌++◌, ◌==◌, if◌then◌else◌, arith, has, Bool-cases, inl, inr,
}
use korby_os.ItemList.Chain.{Distinct, has-append}
use korby_os.ItemList.Add.{Distinct-snoc}
use korby_os.Desktop.{
  Event, key, Window, Desktop, window_at, update, send, send_to, send_at, send_focus, is_at,
  allocate_window, allocate_fullscreen_window, unallocate_window, erase, erase_window, key_press,
}
use korby_os.Desktop.Lookup.{
  ids, is_some, window_at-snoc, Distinct-ids-snoc, Distinct-erase_window, window_at-erase_window,
  has-erase, Distinct-erase,
}
use korby_os.Desktop.Reshaped.{Keeps, update-Reshaped}
use korby_os.Desktop.Valid.{Fits, IsValid, reshape, unfocus, let_go}

-- A change of one window that leaves its address and size keeps a desktop valid.
pub touch :
    (s : Desktop) (p : ℕ) (f : Window → Window)
    → Keeps f
    → IsValid s
    → IsValid (record s { windows = update p f s.windows })
touch s p f k v = reshape s (update p f s.windows) v (update-Reshaped p f s.windows k v.distinct)

pub send_to-IsValid : (p : ℕ) (e : Event) (s : Desktop) → IsValid s → IsValid (send_to p e s)
send_to-IsValid p e s v = touch s p (send e) (λ w. (refl, refl, refl, refl)) v

send_at-IsValid : (o : Option ℕ) (e : Event) (s : Desktop) → IsValid s → IsValid (send_at o e s)
send_at-IsValid none e s v = v
send_at-IsValid (some p) e s v = send_to-IsValid p e s v

pub send_focus-IsValid : (e : Event) (s : Desktop) → IsValid s → IsValid (send_focus e s)
send_focus-IsValid e s v = send_at-IsValid s.focus e s v

pub key_press-IsValid :
    (scancode : ℕ) (pressed : Bool) (s : Desktop)
    → IsValid s
    → IsValid (key_press scancode pressed s)
unfolding key_press
key_press-IsValid scancode pressed s v = elim (Bool-cases (pressed && (scancode == 91))) [
  | inl menu ↦ rw menu (let_go (record s { focus = none }) (unfocus s v))
  | inr other ↦ rw other (send_focus-IsValid (key scancode pressed) s v)
]

module _ (ws : List Window) (w : Window) (out : is_some (window_at w.address ws) ≡ false) where
  found_new : (p : ℕ) → (p == w.address) ≡ true → window_at p (ws ++ w ∷ []) ≡ some w
  found_new p hit = window_at-snoc p ws w out ∙ rw hit

  found_old : (p : ℕ) → (p == w.address) ≡ false → window_at p (ws ++ w ∷ []) ≡ window_at p ws
  found_old p miss = window_at-snoc p ws w out ∙ rw miss

  -- A window that was there is another one.
  still_found : (p : ℕ) (u : Window) → window_at p ws ≡ some u → window_at p (ws ++ w ∷ []) ≡ some u
  still_found p u e = elim (Bool-cases (p == w.address)) [
    | inl hit ↦
        let same : p ≡ w.address = ground arith in
        let there : is_some (window_at w.address ws) ≡ true =
          ap (λ n. is_some (window_at n ws)) (sym same) ∙ ap is_some e in
        cc
    | inr miss ↦ found_old p miss ∙ e
  ]

  new_tasks :
      (tasks : List ℕ)
      → ((p : ℕ) → has p tasks ≡ is_some (window_at p ws))
      → (p : ℕ) → has p (tasks ++ w.address ∷ []) ≡ is_some (window_at p (ws ++ w ∷ []))
  new_tasks tasks old p =
      let both = has-append p tasks (w.address ∷ []) in
      elim (Bool-cases (p == w.address)) [
        | inl hit ↦ ground (arith, both, found_new p hit)
        | inr miss ↦ both ∙ ground (arith, old p) ∙ ap is_some (sym (found_old p miss))
      ]

-- A new window of an address that no window has.
pub new_window :
    (s : Desktop) (w : Window)
    → Fits s w
    → is_some (window_at w.address s.windows) ≡ false
    → IsValid s
    → IsValid (record s {
      windows = s.windows ++ w ∷ [];
      focus = some w.address;
      taskbar = s.taskbar ++ w.address ∷ [];
    })
new_window s w room out v = record {
  narrow = v.narrow;
  low = v.low;
  left = v.left;
  right = v.right;
  top = v.top;
  bottom = v.bottom;
  distinct = Distinct-ids-snoc s.windows w out v.distinct;
  fits = λ p u e. elim (Bool-cases (p == w.address)) [
    | inl hit ↦
        let now : some w ≡ some u = sym (found_new s.windows w out p hit) ∙ e in
        let same : w ≡ u = cc in subst (Fits s) same room
    | inr miss ↦ v.fits p u (sym (found_old s.windows w out p miss) ∙ e)
  ];
  focused = λ p e. (w, found_new s.windows w out p (ground arith));
  held = λ p e. let (u, found, h) = v.held p e in (u, still_found s.windows w out p u found, h);
  single = Distinct-snoc w.address s.taskbar (v.tasks w.address ∙ out) v.single;
  tasks = new_tasks s.windows w out s.taskbar v.tasks;
}

-- `allocateWindow` at an address that no window has, for a window that fits on the display.
pub allocate_window-IsValid :
    (p width height : ℕ) (s : Desktop)
    → is_some (window_at p s.windows) ≡ false
    → width + 20 ≤ s.display_width
    → height + 89 ≤ s.display_height
    → IsValid s
    → IsValid (allocate_window p width height s)
unfolding allocate_window
allocate_window-IsValid p width height s out wide high v = new_window s _ (λ e. (wide, high)) out v

pub allocate_fullscreen_window-IsValid :
    (p : ℕ) (s : Desktop)
    → is_some (window_at p s.windows) ≡ false
    → IsValid s
    → IsValid (allocate_fullscreen_window p s)
unfolding allocate_fullscreen_window
allocate_fullscreen_window-IsValid p s out v = new_window s _ (λ e. cc) out v

is_at-false : (o : Option ℕ) (p q : ℕ) → is_at o p ≡ false → o ≡ some q → (q == p) ≡ false
is_at-false none p q h e = cc
is_at-false (some r) p q h e = ground arith

pub kept_focus :
    (o : Option ℕ) (p q : ℕ)
    → (if is_at o p then none else o) ≡ some q
    → (o ≡ some q) × ((q == p) ≡ false)
kept_focus none p q e = cc
kept_focus (some r) p q e = (ground arith, ground arith)

module _ (p : ℕ) (ws : List Window) (d : Distinct (ids ws)) where
  erased_other : (q : ℕ) → (q == p) ≡ false → window_at q (erase_window p ws) ≡ window_at q ws
  erased_other q other = window_at-erase_window q p ws d ∙ rw other

  erased_found :
      (q : ℕ) (w : Window) → window_at q (erase_window p ws) ≡ some w → window_at q ws ≡ some w
  erased_found q w e = elim (Bool-cases (q == p)) [
    | inl same ↦
        let gone : window_at q (erase_window p ws) ≡ none =
          window_at-erase_window q p ws d ∙ rw same in
        cc
    | inr other ↦ sym (erased_other q other) ∙ e
  ]

  erased_tasks :
      (tasks : List ℕ)
      → Distinct tasks
      → ((q : ℕ) → has q tasks ≡ is_some (window_at q ws))
      → (q : ℕ) → has q (erase p tasks) ≡ is_some (window_at q (erase_window p ws))
  erased_tasks tasks single old q =
      let there = has-erase q p tasks single in
      let found = window_at-erase_window q p ws d in
      elim (Bool-cases (q == p)) [
        | inl same ↦
            let lost : window_at q (erase_window p ws) ≡ none = found ∙ rw same in
            rw lost (ground (arith, there))
        | inr other ↦ rw (erased_other q other) (ground (arith, there, old q))
      ]

-- `unallocateWindow` of a window that is not being dragged.
pub unallocate_window-IsValid :
    (p : ℕ) (s : Desktop) → is_at s.dragging p ≡ false → IsValid s → IsValid (unallocate_window p s)
unfolding unallocate_window
unallocate_window-IsValid p s still v = record {
  narrow = v.narrow;
  low = v.low;
  left = v.left;
  right = v.right;
  top = v.top;
  bottom = v.bottom;
  distinct = Distinct-erase_window p s.windows v.distinct;
  fits = λ q w e. v.fits q w (erased_found p s.windows v.distinct q w e);
  focused = λ q e.
      let (at, other) = kept_focus s.focus p q e in
      let (w, found) = v.focused q at in (w, erased_other p s.windows v.distinct q other ∙ found);
  held = λ q e.
      let (w, found, h) = v.held q e in
      (w, erased_other p s.windows v.distinct q (is_at-false s.dragging p q still e) ∙ found, h);
  single = Distinct-erase p s.taskbar v.single;
  tasks = erased_tasks p s.windows v.distinct s.taskbar v.single v.tasks;
}
