-- ===== src/Desktop/Lookup.antt =====
-- The windows in the list: which one an address finds after the list has changed.
use mathlib.Core.List.{reverse, reverse-cons}
use korby_os.Base.{
  ℕ, ◌≡◌, refl, sym, ap, ◌∙◌, Bool, true, false, not, ◌&&◌, Option, none, some, List, [], ◌∷◌, ◌++◌,
  ◌==◌, if◌then◌else◌, arith, has, All, Bool-cases, Option-cases, inl, inr,
}
use korby_os.ItemList.Chain.{Distinct}
use korby_os.ItemList.Add.{Distinct-snoc}
use korby_os.Desktop.{Window, window_at, erase, erase_window, move_to_end}

abbrev pub ids : List Window → List ℕ
ids [] = []
ids (w ∷ rest) = w.address ∷ ids rest

abbrev pub is_some {ℓ} : {A : Type ℓ} → Option A → Bool
is_some none = false
is_some (some a) = true

pub none_of {ℓ} : {A : Type ℓ} (o : Option A) → is_some o ≡ false → o ≡ none
none_of none h = refl
none_of (some a) h = cc

pub has-ids : (p : ℕ) (ws : List Window) → has p (ids ws) ≡ is_some (window_at p ws)
unfolding window_at
has-ids p [] = refl
has-ids p (w ∷ ws) = ground (arith, has-ids p ws)

pub window_at-address :
    (p : ℕ) (ws : List Window) (w : Window) → window_at p ws ≡ some w → w.address ≡ p
unfolding window_at
window_at-address p [] w e = cc
window_at-address p (v ∷ ws) w e = ground (arith, window_at-address p ws w)

ids-erase_window : (p : ℕ) (ws : List Window) → ids (erase_window p ws) ≡ erase p (ids ws)
unfolding erase_window erase
ids-erase_window p [] = refl
ids-erase_window p (w ∷ ws) = ground (arith, ids-erase_window p ws)

pub has-erase : (q p : ℕ) (l : List ℕ) → Distinct l → has q (erase p l) ≡ (has q l && not (q == p))
unfolding erase
has-erase q p [] d = refl
has-erase q p (a ∷ l) d =
    let rest = has-erase q p l d.1 in
    elim (Bool-cases (q == a)) [
      | inl same ↦
          (let e : q ≡ a = ground arith in
            let out : has q l ≡ false = ap (λ n. has n l) e ∙ d.0 in ground (arith, rest))
      | inr other ↦ ground (arith, rest)
    ]

pub Distinct-erase : (p : ℕ) (l : List ℕ) → Distinct l → Distinct (erase p l)
unfolding erase
Distinct-erase p [] d = d
Distinct-erase p (a ∷ l) d = elim (Bool-cases (a == p)) [
  | inl hit ↦ rw hit d.1
  | inr miss ↦ rw miss (ground (arith, has-erase a p l d.1), Distinct-erase p l d.1)
]

pub window_at-erase_window :
    (q p : ℕ) (ws : List Window)
    → Distinct (ids ws)
    → window_at q (erase_window p ws) ≡ (if q == p then none else window_at q ws)
unfolding erase_window window_at
window_at-erase_window q p [] d = ground arith
window_at-erase_window q p (w ∷ ws) d =
    let rest = window_at-erase_window q p ws d.1 in
    let gone : is_some (window_at w.address ws) ≡ false = sym (has-ids w.address ws) ∙ d.0 in
    elim (Bool-cases (w.address == p)) [
      | inl hit ↦ elim (Bool-cases (q == p)) [
        | inl same ↦
            (let e : q ≡ w.address = ground arith in
              rw (hit, same) (none_of _ (ap (λ n. is_some (window_at n ws)) e ∙ gone)))
        | inr other ↦ (let off : (w.address == q) ≡ false = ground arith in rw (hit, other, off))
      ]
      | inr miss ↦ ground (arith, rest)
    ]

pub window_at-append :
    (q : ℕ) (ws vs : List Window)
    → window_at q (ws ++ vs) ≡ (if is_some (window_at q ws) then window_at q ws else window_at q vs)
unfolding window_at
window_at-append q [] vs = refl
window_at-append q (w ∷ ws) vs = ground (arith, window_at-append q ws vs)

ids-append : (ws vs : List Window) → ids (ws ++ vs) ≡ ids ws ++ ids vs
ids-append [] vs = refl
ids-append (w ∷ ws) vs = ap (λ l. w.address ∷ l) (ids-append ws vs)

-- A window at the end, of an address that the list has not.
pub window_at-snoc :
    (q : ℕ) (ws : List Window) (w : Window)
    → is_some (window_at w.address ws) ≡ false
    → window_at q (ws ++ w ∷ []) ≡ (if q == w.address then some w else window_at q ws)
unfolding window_at
window_at-snoc q [] w out = ground arith
window_at-snoc q (v ∷ ws) w out = ground (arith, window_at-snoc q ws w)

pub Distinct-ids-snoc :
    (ws : List Window) (w : Window)
    → is_some (window_at w.address ws) ≡ false
    → Distinct (ids ws)
    → Distinct (ids (ws ++ w ∷ []))
Distinct-ids-snoc ws w out d =
    rw (ids-append ws (w ∷ [])) (Distinct-snoc w.address (ids ws) (has-ids w.address ws ∙ out) d)

pub Distinct-erase_window :
    (p : ℕ) (ws : List Window) → Distinct (ids ws) → Distinct (ids (erase_window p ws))
Distinct-erase_window p ws d = rw (ids-erase_window p ws) (Distinct-erase p (ids ws) d)

pub erased_out :
    (p : ℕ) (ws : List Window) (w : Window)
    → Distinct (ids ws)
    → w.address ≡ p
    → is_some (window_at w.address (erase_window p ws)) ≡ false
erased_out p ws w d at =
    let hit : (w.address == p) ≡ true = ground arith in
    ap is_some (window_at-erase_window w.address p ws d) ∙ rw hit

-- Moving a window to the end changes no lookup.
pub window_at-move_to_end :
    (q p : ℕ) (ws : List Window)
    → Distinct (ids ws)
    → window_at q (move_to_end p ws) ≡ window_at q ws
unfolding move_to_end
window_at-move_to_end q p ws d = elim (Option-cases (window_at p ws)) [
  | inl out ↦ rw (out, move_to_end)
  | inr (w, found) ↦
      let at : w.address ≡ p = window_at-address p ws w found in
      let last = window_at-snoc q (erase_window p ws) w (erased_out p ws w d at) in
      let others = window_at-erase_window q p ws d in
      elim (Bool-cases (q == p)) [
        | inl same ↦
            let e : q ≡ p = ground arith in
            let hit : (q == w.address) ≡ true = ground arith in
            rw (found, move_to_end) (last ∙ rw (hit, e, found))
        | inr other ↦
            let miss : (q == w.address) ≡ false = ground arith in
            rw (found, move_to_end) (last ∙ rw miss (others ∙ rw other))
      ]
]

-- Each window of a list is found in it.
abbrev pub Found : List Window → Window → Type 0
Found ws w = window_at w.address ws ≡ some w

All-Found-cons :
    (w : Window) (ws us : List Window)
    → has w.address (ids us) ≡ false
    → All (Found ws) us
    → All (Found (w ∷ ws)) us
unfolding window_at
All-Found-cons w ws [] out all = _
All-Found-cons w ws (u ∷ us) out all =
    let miss : (w.address == u.address) ≡ false = ground arith in
    (rw miss all.0, All-Found-cons w ws us (ground arith) all.1)

pub All-Found : (ws : List Window) → Distinct (ids ws) → All (Found ws) ws
unfolding window_at
All-Found [] d = _
All-Found (w ∷ ws) d =
    let hit : (w.address == w.address) ≡ true = ground arith in
    (rw hit, All-Found-cons w ws ws d.0 (All-Found ws d.1))

All-snoc {ℓ κ} :
    {A : Type ℓ} (P : A → Type κ) (xs : List A) (x : A) → All P xs → P x → All P (xs ++ x ∷ [])
All-snoc P [] x all h = (h, tt)
All-snoc P (y ∷ xs) x all h = (all.0, All-snoc P xs x all.1 h)

pub All-reverse {ℓ κ} : {A : Type ℓ} (P : A → Type κ) (xs : List A) → All P xs → All P (reverse xs)
All-reverse P [] all = _
All-reverse P (x ∷ xs) all =
    rw (reverse-cons x xs) (All-snoc P (reverse xs) x (All-reverse P xs all.1) all.0)
