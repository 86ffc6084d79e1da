-- ===== src/Text/Example.antt =====
-- One instance of the EFI library's text functions, for the tests.
use korby_os.Base.{
  ℕ, ◌≡◌, refl, [], ◌∷◌, ◌==◌, ◌↔◌, length, take, arith, if◌then◌else◌, Bool-cases, inl, inr, ap₂,
}
use korby_os.Text.{Text, EfiText}

-- Zero for equal texts, one for others.
unfoldable pub differ : Text → Text → ℕ
differ [] [] = 0
differ [] (_ ∷ _) = 1
differ (_ ∷ _) [] = 1
differ (c ∷ a) (d ∷ b) = if c == d then differ a b else 1

pub differ_iff : (a b : Text) → (differ a b ≡ 0) ↔ (a ≡ b)
unfolding differ
differ_iff [] [] = (λ h. refl, λ h. refl)
differ_iff [] (x ∷ b) = (λ h. absurd (omega arith), λ h. cc)
differ_iff (x ∷ a) [] = (λ h. absurd (omega arith), λ h. cc)
differ_iff (c ∷ a) (d ∷ b) =
    let ih = differ_iff a b in
    (
      λ h. elim (Bool-cases (c == d)) [
        | inl same ↦ ap₂ ◌∷◌ (ground arith) (ih.0 (ground arith))
        | inr other ↦ absurd (ground arith)
      ],
      λ e.
          let heads : c ≡ d = cc in
          let tails : a ≡ b = cc in let rest = ih.1 tails in ground (arith, rest, heads),
    )

abbrev pub efi : EfiText
efi = record {
  str_len = length;
  str_cmp = differ;
  strn_cmp = λ a b n. differ (take n a) (take n b);
  str_len_lem = λ t. refl;
  str_cmp_lem = λ a b t u. differ_iff a b;
  strn_cmp_lem = λ a b n t u. differ_iff (take n a) (take n b);
}
