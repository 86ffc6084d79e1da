-- ===== src/Shell/Parent.antt =====
-- The command `..`: where it leads.
use mathlib.Core.List.{append_assoc, reverse, reverse-append, reverse-cons}
use korby_os.Base.{
  ℕ, suc, ◌+◌, ◌-◌, ◌≤◌, ◌≡◌, ◌≢◌, refl, sym, ap, ap₂, subst, ◌∙◌, some, [], ◌∷◌, ◌++◌, ◌==◌,
  length, length-append, take, All, if_no, arith, ◌>>=◌,
}
use korby_os.Shell.{count_back, parent}
use korby_os.Text.{Text}

abbrev pub slash : ℕ
slash = b'/'

-- No unit of a name is a slash.
abbrev pub IsName : Text → Type 0
IsName = All (λ c. c ≢ slash)

All-append : (xs ys : Text) → IsName xs → IsName ys → IsName (xs ++ ys)
All-append [] ys p q = q
All-append (x ∷ xs) ys p q = (p.0, All-append xs ys p.1 q)

reverse-IsName : (xs : Text) → IsName xs → IsName (reverse xs)
reverse-IsName [] p = _
reverse-IsName (x ∷ xs) p =
    subst IsName (sym (reverse-cons x xs))
      (All-append (reverse xs) (x ∷ []) (reverse-IsName xs p.1) (p.0, _))

length-reverse : (xs : Text) → length (reverse xs) ≡ length xs
length-reverse [] = refl
length-reverse (x ∷ xs) =
    ap length (reverse-cons x xs)
    ∙ omega (arith, length-append (reverse xs) (x ∷ []), length-reverse xs)

count_back-IsName :
    (name before : Text) → IsName name → count_back (name ++ slash ∷ before) ≡ some (length name)
unfolding count_back
count_back-IsName [] before is = refl
count_back-IsName (c ∷ name) before is =
    if_no {b = c == slash} (some 0) _ (let other = is.0 in ground arith)
    ∙ ap (λ o. o >>= λ n. some (suc n)) (count_back-IsName name before is.1)

take-prefix : (xs ys : Text) → take (length xs) (xs ++ ys) ≡ xs
take-prefix [] ys = refl
take-prefix (x ∷ xs) ys = ap (λ l. x ∷ l) (take-prefix xs ys)

-- From a folder of a directory `..` leads back to the directory.
pub parent_lem :
    (above name : Text)
    → IsName name
    → parent ((above ++ slash ∷ []) ++ (name ++ slash ∷ [])) ≡ some (above ++ slash ∷ [])
unfolding parent
parent_lem above name is =
    (let directory = above ++ slash ∷ [] in
      let path = directory ++ (name ++ slash ∷ []) in
      let size : length path ≡ length directory + length name + 1 =
        omega
          (arith, length-append directory (name ++ slash ∷ []), length-append name (slash ∷ [])) in
      let some_left : 1 ≤ length directory = omega (arith, length-append above (slash ∷ [])) in
      let whole = length-append directory name in
      let front : take (length path - 1) path ≡ directory ++ name =
        ap₂ (λ (n : ℕ) (l : Text). take n l) (omega (arith, size, whole))
          (sym (append_assoc directory name (slash ∷ [])))
        ∙ take-prefix (directory ++ name) (slash ∷ []) in
      let back : reverse (directory ++ name) ≡ reverse name ++ slash ∷ reverse above =
        reverse-append directory name
        ∙ ap (λ l. reverse name ++ l) (reverse-append above (slash ∷ [])) in
      let counted : count_back (reverse (take (length path - 1) path)) ≡ some (length name) =
        ap (λ l. count_back (reverse l)) front
        ∙ (ap count_back back
            ∙ (count_back-IsName (reverse name) (reverse above) (reverse-IsName name is)
                ∙ ap some (length-reverse name))) in
      if_no {b = length path == 1} (some path) _ (ground (arith, size, some_left))
      ∙ (ap (λ o. o >>= λ count. some (take (length path - count - 1) path)) counted
          ∙ ap some (
              ap (λ n. take n path) (omega (arith, size))
              ∙ take-prefix directory (name ++ slash ∷ []))))
