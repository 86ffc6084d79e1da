-- ===== src/Files/Listing.antt =====
-- `getFiles`: which entries it lists.
use mathlib.Core.Path.{subst, ap₂}
use korby_os.Base.{
  ℕ, ◌+◌, ◌*◌, ◌≡◌, refl, ap, sym, Bool, true, false, not, ◌&&◌, ◌||◌, some, List, [], ◌∷◌, ◌++◌,
  ◌==◌, u64, drop, take, length, arith, Bool-cases, inl, inr, ◌⊎◌, ◌↔◌,
}
use korby_os.Text.{Text, EfiText, IsText, in_string}
use korby_os.Memory.{Allocator}
use korby_os.Memory.Live.{IsValid, HasRoom}
use korby_os.Memory.Allocate.{allocate-HasRoom, HasRoom-weaken}
use korby_os.Files.{File, FileTable, listed, select, get_files, pointer_bytes}
use korby_os.Files.Lookup.{Named}

-- The file lies under the root, and directly so unless the listing is recursive.
abbrev pub Under : Text → Bool → File → Type 0
Under root recursive f =
    (leaf : Text) × (f.name ≡ root ++ leaf) × ((recursive ≡ true) ⊎ (in_string leaf b'/' ≡ false))

abbrev pub In : File → List File → Type 0
In f [] = ⊥
In f (g ∷ rest) = (f ≡ g) ⊎ In f rest

take_self : (root leaf : Text) → take (length root) (root ++ leaf) ≡ take (length root) root
take_self [] leaf = refl
take_self (c ∷ root) leaf = ap (λ l. c ∷ l) (take_self root leaf)

drop_self : (root leaf : Text) → drop (length root) (root ++ leaf) ≡ leaf
drop_self [] leaf = refl
drop_self (c ∷ root) leaf = drop_self root leaf

split_at :
    (root name : Text)
    → take (length root) name ≡ take (length root) root
    → name ≡ root ++ drop (length root) name
split_at [] name e = refl
split_at (c ∷ root) [] e = cc
split_at (c ∷ root) (d ∷ name) e =
    let heads : d ≡ c = cc in
    let tails : take (length root) name ≡ take (length root) root = cc in
    ap₂ ◌∷◌ heads (split_at root name tails)

module _ (efi : EfiText) (root : Text) (is_text : IsText root) (recursive : Bool) where
  listed-Under :
      (f : File) → IsText f.name → (listed efi root recursive f ≡ true) ↔ Under root recursive f
  listed-Under f t =
      let n = efi.str_len root in
      let len : n ≡ length root = efi.str_len_lem root in
      let law = efi.strn_cmp_lem f.name root n t is_text in
      (
        (λ h.
            let same : take n f.name ≡ take n root = law.0 (ground arith) in
            let same' : take (length root) f.name ≡ take (length root) root =
              subst (λ k. take k f.name ≡ take k root) len same in
            let free : (recursive || not (in_string (drop n f.name) b'/')) ≡ true = ground arith in
            let free' : (recursive || not (in_string (drop (length root) f.name) b'/')) ≡ true =
              subst (λ k. (recursive || not (in_string (drop k f.name) b'/')) ≡ true) len free in
            (drop (length root) f.name, split_at root f.name same', ground arith)),
        (λ (leaf, e, free).
            let same : take (length root) f.name ≡ take (length root) root =
              subst (λ z. take (length root) z ≡ take (length root) root) (sym e)
                (take_self root leaf) in
            let same' : take n f.name ≡ take n root =
              subst (λ k. take k f.name ≡ take k root) (sym len) same in
            let rest : drop n f.name ≡ leaf =
              subst (λ k. drop k f.name ≡ leaf) (sym len)
                (subst (λ z. drop (length root) z ≡ leaf) (sym e) (drop_self root leaf)) in
            let equal : efi.strn_cmp f.name root n ≡ 0 = law.1 same' in
            listed_of n equal rest free),
      )
    where
      listed_of :
          (n : ℕ)
          → efi.strn_cmp f.name root n ≡ 0
          → {leaf : Text} → drop n f.name ≡ leaf
          → (recursive ≡ true) ⊎ (in_string leaf b'/' ≡ false)
          → (efi.strn_cmp f.name root n == 0 && (recursive || not (in_string (drop n f.name) b'/')))
            ≡ true
      listed_of n equal rest free = rw rest (ground arith)

  select-In :
      (f : File) (files : List File)
      → Named files
      → In f (select efi root recursive files) ↔ (In f files × Under root recursive f)
  unfolding select
  select-In f [] n = (λ h. absurd h, λ h. h.0)
  select-In f (g ∷ rest) n =
      let ih = select-In f rest n.1 in
      let here = listed-Under g n.0 in
      elim (Bool-cases (listed efi root recursive g)) [
        | inl yes_listed ↦ (
          λ h. kept ih (here.0 yes_listed) (rw yes_listed at h),
          λ h. rw yes_listed (keep ih h.0 h.1),
        )
        | inr no_listed ↦ (
          λ h. let (i, u) = ih.0 (rw no_listed at h) in (inr i, u),
          λ h.
              rw no_listed (drop_it ih (λ u. absurd (ground (arith, here.1 u, no_listed))) h.0 h.1),
        )
      ]
    where
      kept :
          In f (select efi root recursive rest) ↔ (In f rest × Under root recursive f)
          → Under root recursive g
          → In f (g ∷ select efi root recursive rest)
          → In f (g ∷ rest) × Under root recursive f
      kept ih u (inl e) = (inl e, subst (Under root recursive) (sym e) u)
      kept ih u (inr i) = let (j, v) = ih.0 i in (inr j, v)

      keep :
          In f (select efi root recursive rest) ↔ (In f rest × Under root recursive f)
          → In f (g ∷ rest)
          → Under root recursive f
          → In f (g ∷ select efi root recursive rest)
      keep ih (inl e) u = inl e
      keep ih (inr i) u = inr (ih.1 (i, u))

      drop_it :
          In f (select efi root recursive rest) ↔ (In f rest × Under root recursive f)
          → (Under root recursive g → ⊥)
          → In f (g ∷ rest)
          → Under root recursive f
          → In f (select efi root recursive rest)
      drop_it ih never (inl e) u = absurd (never (subst (Under root recursive) e u))
      drop_it ih never (inr i) u = ih.1 (i, u)

  -- `getFiles` ends where there is room for the result. It returns a block of eight bytes for each
  -- entry listed, and lists exactly the files whose name is the root followed by a text, which holds
  -- no slash unless the listing is recursive.
  pub get_files-Under :
      (s : FileTable)
      → Named s.files
      → IsValid s.heap
      → HasRoom 1 (u64 (length (select efi root recursive s.files) * pointer_bytes)) s.heap
      → (block : ℕ) × (items : List File) × (heap' : Allocator) × (get_files efi root recursive s
          ≡ some (block, items, heap'))
        × ((f : File) → In f items ↔ (In f s.files × Under root recursive f))
        × IsValid heap'
  unfolding get_files
  get_files-Under s named v room =
      let amount : ℕ = u64 (length (select efi root recursive s.files) * pointer_bytes) in
      let (p, h, runs, v', room') =
        allocate-HasRoom 0 amount 0 s.heap v
          (HasRoom-weaken 1 1 (amount + 0) amount s.heap (omega arith) (omega arith) room) in
      (p, select efi root recursive s.files, h, rw runs, (λ f. select-In f s.files named), v')
