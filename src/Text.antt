-- ===== src/Text.antt =====
-- Texts, and the functions on them: `inString` of src/shared.h, and the calls of gnu-efi's StrLen,
-- StrCmp and StrnCmp, which are a parameter here with their documented behaviour.
--
-- A text is the list of its CHAR16 units before the closing zero, so no unit of it is zero.
pub mod Example
use korby_os.Base.{
  ℕ, suc, zero, Bool, true, false, ◌≡◌, ◌≢◌, ◌↔◌, List, [], ◌∷◌, ◌==◌, if◌then◌else◌, All, take,
  length,
}

abbrev pub Text : Type 0
Text = List ℕ

abbrev pub IsText : Text → Type 0
IsText t = All (λ c. c ≢ 0) t

-- `StrCmp(a, b)` and `StrnCmp(a, b, n)` are zero when the texts, or their first `n` units, agree.
pub record EfiText : Type 0 where
  pub str_len : Text → ℕ
  pub str_cmp : Text → Text → ℕ
  pub strn_cmp : Text → Text → ℕ → ℕ
  pub str_len_lem : (t : Text) → str_len t ≡ length t
  pub str_cmp_lem : (a b : Text) → IsText a → IsText b → (str_cmp a b ≡ 0) ↔ (a ≡ b)
  pub strn_cmp_lem :
      (a b : Text) (n : ℕ) → IsText a → IsText b → (strn_cmp a b n ≡ 0) ↔ (take n a ≡ take n b)

-- The loop of `inString`.
unfoldable pub in_string : Text → ℕ → Bool
in_string [] token = false
in_string (c ∷ rest) token = if c == token then true else in_string rest token

-- The unit at an index, and the closing zero behind the text.
abbrev pub unit_at : Text → ℕ → ℕ
unit_at [] i = 0
unit_at (c ∷ rest) zero = c
unit_at (c ∷ rest) (suc i) = unit_at rest i
