-- ===== src/Base/Bytes.antt =====
-- Functions that agree on every value of a byte, which is checked one by one.
use korby_os.Base.Tests.{◌==◌, Bool-cases}
use Prim.Native.Nat.{ℕ, zero, suc, ◌<◌}
use mathlib.Core.Bool.{Bool, true, false}
use mathlib.Core.Path.{◌≡◌, sym, subst}
use mathlib.Core.Logic.{inl, inr}
use native.Mathlib.Omega.{arith}

module _ (f g : ℕ → ℕ) where
  -- They agree on the numbers from `count` down.
  unfoldable pub same_values : ℕ → Bool
  same_values zero = true
  same_values (suc last) = elim (f last == g last) [ true ↦ same_values last | false ↦ false ]

  same_values_at : (count byte : ℕ) → byte < count → same_values count ≡ true → f byte ≡ g byte
  unfolding same_values
  same_values_at zero byte below table = absurd (omega arith)
  same_values_at (suc last) byte below table = elim (Bool-cases (byte == last)) [
    | inl top ↦
        (let same : byte ≡ last = ground arith in
          subst (λ b. f b ≡ g b) (sym same) (ground (arith, table)))
    | inr lower ↦ same_values_at last byte (ground arith) (ground (arith, table))
  ]

  pub byte_table : same_values 256 ≡ true → (byte : ℕ) → byte < 256 → f byte ≡ g byte
  byte_table table byte below = same_values_at 256 byte below table
