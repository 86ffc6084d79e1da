-- ===== src/Desktop/Reshaped.antt =====
-- The same windows in another order or with other contents: what the lookups have in common.
use korby_os.Base.{
  ℕ, ◌≡◌, refl, ap₂, map, ◌∙◌, true, false, Option, none, some, List, [], ◌∷◌, ◌==◌, if◌then◌else◌,
  arith, Bool-cases, Option-cases, inl, inr,
}
use korby_os.ItemList.Chain.{Distinct}
use korby_os.Desktop.{Window, window_at, update, erase_window, move_to_end}
use korby_os.Desktop.Lookup.{
  ids, erased_out, window_at-address, window_at-move_to_end, Distinct-ids-snoc,
  Distinct-erase_window,
}

-- A change that leaves the address and the size.
abbrev pub Keeps : (Window → Window) → Type 0
Keeps f =
    (w : Window)
    → ((f w).address ≡ w.address)
      × ((f w).width ≡ w.width)
      × ((f w).height ≡ w.height)
      × ((f w).fullscreen ≡ w.fullscreen)

-- Nothing on both sides, or windows of the same size.
abbrev pub Match : Option Window → Option Window → Type 0
Match none none = Unit {0}
Match (some w) (some v) =
    (v.width ≡ w.width) × (v.height ≡ w.height) × (v.fullscreen ≡ w.fullscreen)
Match _ _ = ⊥

Match-refl : (o : Option Window) → Match o o
Match-refl none = tt
Match-refl (some w) = (refl, refl, refl)

-- The same windows, by address and size, perhaps in another order.
pub record Reshaped (ws vs : List Window) : Type 0 where
  pub distinct : Distinct (ids vs)
  pub matching : (q : ℕ) → Match (window_at q ws) (window_at q vs)

Match-trans : (o p q : Option Window) → Match o p → Match p q → Match o q
Match-trans none none q h k = k
Match-trans none (some v) q h k = elim h [ ]
Match-trans (some w) none q h k = elim h [ ]
Match-trans (some w) (some v) none h k = elim k [ ]
Match-trans (some w) (some v) (some u) h k = (k.0 ∙ h.0, k.1 ∙ h.1, k.2 ∙ h.2)

pub Reshaped-trans : (us vs ws : List Window) → Reshaped us vs → Reshaped vs ws → Reshaped us ws
Reshaped-trans us vs ws h k = record {
  distinct = k.distinct;
  matching = λ q.
      Match-trans (window_at q us) (window_at q vs) (window_at q ws) (h.matching q) (k.matching q);
}

ids-update :
    (p : ℕ) (f : Window → Window) (ws : List Window) → Keeps f → ids (update p f ws) ≡ ids ws
unfolding update
ids-update p f [] k = refl
ids-update p f (w ∷ ws) k = ground (arith, k w, ids-update p f ws k)

-- The same for the first window of a list and the rest.
Match-head :
    (w v : Window) (q : ℕ) (o p : Option Window)
    → v.address ≡ w.address
    → Match (some w) (some v)
    → Match o p
    → Match (if w.address == q then some w else o) (if v.address == q then some v else p)
Match-head w v q o p same head rest = elim (Bool-cases (w.address == q)) [
  | inl hit ↦ (let hit' : (v.address == q) ≡ true = ground arith in rw (hit, hit') head)
  | inr miss ↦ (let miss' : (v.address == q) ≡ false = ground arith in rw (miss, miss') rest)
]

update-matching :
    (p : ℕ) (f : Window → Window) (ws : List Window) (q : ℕ)
    → Keeps f
    → Match (window_at q ws) (window_at q (update p f ws))
unfolding update window_at
update-matching p f [] q k = tt
update-matching p f (w ∷ ws) q k =
    let same = k w in
    let rest = update-matching p f ws q k in
    elim (Bool-cases (w.address == p)) [
      | inl hit ↦ rw hit (Match-head w (f w) q _ _ same.0 (same.1, same.2, same.3) rest)
      | inr miss ↦ rw miss (Match-head w w q _ _ refl (refl, refl, refl) rest)
    ]

pub update-Reshaped :
    (p : ℕ) (f : Window → Window) (ws : List Window)
    → Keeps f
    → Distinct (ids ws)
    → Reshaped ws (update p f ws)
update-Reshaped p f ws k d = record {
  distinct = rw (ids-update p f ws k) d;
  matching = λ q. update-matching p f ws q k;
}

ids-map : (f : Window → Window) (ws : List Window) → Keeps f → ids (map f ws) ≡ ids ws
ids-map f [] k = refl
ids-map f (w ∷ ws) k = ap₂ ◌∷◌ (k w).0 (ids-map f ws k)

map-matching :
    (f : Window → Window) (ws : List Window) (q : ℕ)
    → Keeps f
    → Match (window_at q ws) (window_at q (map f ws))
unfolding window_at
map-matching f [] q k = tt
map-matching f (w ∷ ws) q k =
    let same = k w in
    Match-head w (f w) q _ _ same.0 (same.1, same.2, same.3) (map-matching f ws q k)

pub map-Reshaped :
    (f : Window → Window) (ws : List Window) → Keeps f → Distinct (ids ws) → Reshaped ws (map f ws)
map-Reshaped f ws k d = record {
  distinct = rw (ids-map f ws k) d;
  matching = λ q. map-matching f ws q k;
}

pub move_to_end-Reshaped :
    (p : ℕ) (ws : List Window) → Distinct (ids ws) → Reshaped ws (move_to_end p ws)
unfolding move_to_end
move_to_end-Reshaped p ws d = record {
  distinct = elim (Option-cases (window_at p ws)) [
    | inl out ↦ rw (out, move_to_end) d
    | inr (w, found) ↦
        let out = erased_out p ws w d (window_at-address p ws w found) in
        rw (found, move_to_end)
          (Distinct-ids-snoc (erase_window p ws) w out (Distinct-erase_window p ws d))
  ];
  matching = λ q. rw (window_at-move_to_end q p ws d) (Match-refl (window_at q ws));
}
