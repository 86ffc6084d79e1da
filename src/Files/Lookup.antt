-- ===== src/Files/Lookup.antt =====
-- The walks over the file table: which entry they find, and what a change of the table does to them.
use mathlib.Core.Path.{subst}
use korby_os.Base.{
  ℕ, ◌≡◌, ◌≢◌, refl, sym, ◌∙◌, true, false, none, some, List, [], ◌∷◌, ◌++◌, All, arith, Bool-cases,
  inl, inr, ==_iff, ◌↔◌,
}
use korby_os.Text.{Text, EfiText, IsText}
use korby_os.Files.{File, is_named, find, replace, read_file, erase_named}

-- The names in the table are texts.
abbrev pub Named : List File → Type 0
Named files = All (λ f. IsText f.name) files

-- No two entries have the same name.
abbrev pub NotIn : Text → List File → Type 0
NotIn name files = All (λ f. f.name ≢ name) files

abbrev pub Unique : List File → Type 0
Unique [] = Unit {0}
Unique (f ∷ rest) = NotIn f.name rest × Unique rest

module _ (efi : EfiText) where
  pub named_eq :
      (name : Text) (f : File)
      → IsText name
      → IsText f.name
      → (is_named efi name f ≡ true) ↔ (name ≡ f.name)
  named_eq name f t u =
      let law = efi.str_cmp_lem name f.name t u in
      ((λ h. law.0 ((==_iff _ _).0 h)), λ e. (==_iff _ _).1 (law.1 e))

  pub not_named :
      (name : Text) (f : File)
      → IsText name
      → IsText f.name
      → name ≢ f.name
      → is_named efi name f ≡ false
  not_named name f t u ne = elim (Bool-cases (is_named efi name f)) [
    | inl hit ↦ absurd (ne ((named_eq name f t u).0 hit))
    | inr miss ↦ miss
  ]

  pub read_of_find :
      (name : Text) (files : List File) (f : File)
      → find efi name files ≡ some f
      → read_file efi name files ≡ some (f.size, f.contents)
  unfolding read_file
  read_of_find name files f e = rw (e, read_file)

  pub read_of_missing :
      (name : Text) (files : List File)
      → find efi name files ≡ none
      → read_file efi name files ≡ none
  unfolding read_file
  read_of_missing name files e = rw (e, read_file)

  pub read_same :
      (name : Text) (files files' : List File)
      → find efi name files ≡ find efi name files'
      → read_file efi name files ≡ read_file efi name files'
  unfolding read_file
  read_same name files files' e = rw (e, read_file)

  pub find-none :
      (name : Text) (files : List File)
      → IsText name
      → Named files
      → NotIn name files
      → find efi name files ≡ none
  unfolding find
  find-none name [] t u out = refl
  find-none name (f ∷ rest) t u out =
      rw (not_named name f t u.0 (λ e. out.0 (sym e))) (find-none name rest t u.1 out.1)

  -- A new entry behind the others is found by its name only.
  pub find-append :
      (name : Text) (new : File) (files : List File)
      → find efi name files ≡ none
      → is_named efi name new ≡ true
      → find efi name (files ++ new ∷ []) ≡ some new
  unfolding find
  find-append name new [] e h = rw h
  find-append name new (f ∷ rest) e h = elim (Bool-cases (is_named efi name f)) [
    | inl hit ↦ absurd (ground (arith, rw hit at e))
    | inr miss ↦ rw miss (find-append name new rest (rw miss at e) h)
  ]

  pub find-append_other :
      (name : Text) (new : File) (files : List File)
      → is_named efi name new ≡ false
      → find efi name (files ++ new ∷ []) ≡ find efi name files
  unfolding find
  find-append_other name new [] h = rw h
  find-append_other name new (f ∷ rest) h = ground (arith, find-append_other name new rest h)

  -- The entry that `replace` changes is the one that `find` finds.
  pub find-replace :
      (name : Text) (size contents : ℕ) (files : List File) (f : File)
      → find efi name files ≡ some f
      → find efi name (replace efi name size contents files)
        ≡ some (record f { size = size; contents = contents })
  unfolding find replace
  find-replace name size contents [] f h = cc
  find-replace name size contents (g ∷ rest) f h = elim (Bool-cases (is_named efi name g)) [
    | inl hit ↦ ground arith
    | inr miss ↦ rw miss (rw miss (find-replace name size contents rest f (rw miss at h)))
  ]

  pub read_file-replace_other :
      (name other : Text) (size contents : ℕ) (files : List File)
      → IsText name
      → IsText other
      → Named files
      → other ≢ name
      → read_file efi other (replace efi name size contents files) ≡ read_file efi other files
  unfolding read_file replace
  read_file-replace_other name other size contents [] t u n ne = refl
  read_file-replace_other name other size contents (g ∷ rest) t u n ne =
      elim (Bool-cases (is_named efi name g)) [
        | inl hit ↦
            let same : name ≡ g.name = (named_eq name g t n.0).0 hit in
            let skip : is_named efi other g ≡ false =
              not_named other g u n.0 (λ e. ne (e ∙ sym same)) in
            ground (arith, hit, skip)
        | inr miss ↦
            ground (arith, miss, read_file-replace_other name other size contents rest t u n.1 ne)
      ]

  -- With unique names, nothing is left under the name of an erased entry.
  pub find-erase_named :
      (name : Text) (files : List File)
      → IsText name
      → Named files
      → Unique files
      → find efi name (erase_named efi name files) ≡ none
  unfolding find erase_named
  find-erase_named name [] t n u = refl
  find-erase_named name (g ∷ rest) t n u = elim (Bool-cases (is_named efi name g)) [
    | inl hit ↦
        let same : name ≡ g.name = (named_eq name g t n.0).0 hit in
        rw hit (find-none name rest t n.1 (subst (λ z. NotIn z rest) (sym same) u.0))
    | inr miss ↦ rw miss (rw miss (find-erase_named name rest t n.1 u.1))
  ]

  pub find-erase_named_other :
      (name other : Text) (files : List File)
      → IsText name
      → IsText other
      → Named files
      → other ≢ name
      → find efi other (erase_named efi name files) ≡ find efi other files
  unfolding find erase_named
  find-erase_named_other name other [] t u n ne = refl
  find-erase_named_other name other (g ∷ rest) t u n ne = elim (Bool-cases (is_named efi name g)) [
    | inl hit ↦
        let same : name ≡ g.name = (named_eq name g t n.0).0 hit in
        rw (hit, not_named other g u n.0 (λ e. ne (e ∙ sym same))) refl
    | inr miss ↦ ground (arith, miss, find-erase_named_other name other rest t u n.1 ne)
  ]
