-- ===== src/Shell/Paths.antt =====
-- The current directory is a path: it begins and ends with a slash, and every command keeps it so.
use mathlib.Core.List.{append_assoc}
use korby_os.Base.{
  suc, ◌-◌, ◌<◌, ◌≡◌, ◌⊎◌, inl, inr, refl, sym, ap, subst, ◌∙◌, some, [], ◌∷◌, ◌++◌, ◌==◌, length,
  length-append, Bool-cases, arith,
}
use korby_os.Shell.{parent}
use korby_os.Shell.Parent.{slash, IsName, parent_lem}
use korby_os.Text.{Text, unit_at}

pub data IsPath : Text → Type 0 where
  root : {d : Text} → d ≡ slash ∷ [] → IsPath d
  below : {d : Text} (parts : Text) → d ≡ slash ∷ (parts ++ slash ∷ []) → IsPath d

-- A text that begins with a slash, cut at the last one.
pub record Cut (rest : Text) : Type 0 where
  pub above : Text
  pub name : Text
  pub is_name : IsName name
  pub whole : slash ∷ rest ≡ above ++ slash ∷ name

cut_all :
    (rest : Text)
    → IsName rest ⊎ ((above : Text) × (name : Text) × IsName name × (rest ≡ above ++ slash ∷ name))
cut_all [] = inl _
cut_all (c ∷ rest) = elim (cut_all rest) [
  | inr (above, name, is, e) ↦ inr (c ∷ above, name, is, ap (λ l. c ∷ l) e)
  | inl plain ↦ (elim (Bool-cases (c == slash)) [
    | inl here ↦
        inr ([], rest, plain, ap (λ d. d ∷ rest) (let same : c ≡ slash = ground arith in same))
    | inr other ↦ inl ((λ e. absurd (ground (arith, e))), plain)
  ])
]

cut : (rest : Text) → Cut rest
cut rest = elim (cut_all rest) [
  | inl plain ↦ record { above = []; name = rest; is_name = plain; whole = refl }
  | inr (above, name, is, e) ↦ record {
    above = slash ∷ above;
    name = name;
    is_name = is;
    whole = ap (λ l. slash ∷ l) e;
  }
]

-- What stands before the last slash is empty or begins with one.
cut-IsPath :
    (above name rest : Text) → slash ∷ rest ≡ above ++ slash ∷ name → IsPath (above ++ slash ∷ [])
cut-IsPath [] name rest e = root refl
cut-IsPath (c ∷ above) name rest e =
    below above (ap (λ d. d ∷ (above ++ slash ∷ [])) (sym (ap (λ l. unit_at l 0) e)))

parent_root : parent (slash ∷ []) ≡ some (slash ∷ [])
unfolding parent
parent_root = refl

pub parent-IsPath : (d : Text) → IsPath d → (u : Text) × (parent d ≡ some u) × IsPath u
parent-IsPath d (root e) = (d, ap parent e ∙ (parent_root ∙ ap some (sym e)), root e)
parent-IsPath d (below parts e) =
    (let c = cut parts in
      let split : d ≡ (c.above ++ slash ∷ []) ++ (c.name ++ slash ∷ []) =
        e
        ∙ (ap (λ l. l ++ slash ∷ []) c.whole
            ∙ (append_assoc c.above (slash ∷ c.name) (slash ∷ [])
                ∙ sym (append_assoc c.above (slash ∷ []) (c.name ++ slash ∷ [])))) in
      (
        c.above ++ slash ∷ [],
        ap parent split ∙ parent_lem c.above c.name c.is_name,
        cut-IsPath c.above c.name parts c.whole,
      ))

-- A text that ends with a slash.
ends_in_slash :
    (xs : Text) → unit_at xs (length xs - 1) ≡ slash → (front : Text) × (xs ≡ front ++ slash ∷ [])
ends_in_slash [] e = absurd (omega (arith, e))
ends_in_slash (x ∷ []) e = ([], ap (λ c. c ∷ []) e)
ends_in_slash (x ∷ y ∷ xs) e =
    (let long : length (x ∷ y ∷ xs) - 1 ≡ suc (length xs) = omega arith in
      let short : length (y ∷ xs) - 1 ≡ length xs = omega arith in
      let (front, same) =
        ends_in_slash (y ∷ xs)
          (ap (unit_at (y ∷ xs)) short ∙ (sym (ap (unit_at (x ∷ y ∷ xs)) long) ∙ e)) in
      (x ∷ front, ap (λ l. x ∷ l) same))

IsPath-front :
    (front zs : Text) → 0 < length zs → slash ∷ zs ≡ front ++ slash ∷ [] → IsPath (slash ∷ zs)
IsPath-front [] zs full same = absurd (omega (arith, full, ap length same))
IsPath-front (c ∷ front) zs full same =
    below front (same ∙ ap (λ d. d ∷ (front ++ slash ∷ [])) (sym (ap (λ l. unit_at l 0) same)))

IsPath-behind :
    (d ys typed : Text)
    → d ≡ slash ∷ ys
    → 0 < length typed
    → unit_at (d ++ typed) (length (d ++ typed) - 1) ≡ slash
    → IsPath (d ++ typed)
IsPath-behind d ys typed e full ends =
    (let whole : d ++ typed ≡ slash ∷ (ys ++ typed) = ap (λ l. l ++ typed) e in
      let (front, same) = ends_in_slash (d ++ typed) ends in
      subst IsPath (sym whole) (
        IsPath-front front (ys ++ typed) (omega (arith, full, length-append ys typed))
          (sym whole ∙ same)))

-- A path, and something typed behind it that ends with a slash.
pub IsPath-typed :
    (d typed : Text)
    → IsPath d
    → 0 < length typed
    → unit_at (d ++ typed) (length (d ++ typed) - 1) ≡ slash
    → IsPath (d ++ typed)
IsPath-typed d typed (root e) full ends = IsPath-behind d [] typed e full ends
IsPath-typed d typed (below parts e) full ends =
    IsPath-behind d (parts ++ slash ∷ []) typed e full ends

pub IsPath-above : (d : Text) → IsPath d → (above : Text) × (d ≡ above ++ slash ∷ [])
IsPath-above d (root e) = ([], e)
IsPath-above d (below parts e) = (slash ∷ parts, e)
