-- ===== src/Cards/Memory.antt =====
-- Copying into memory and out of it again.
use korby_os.Base.{
  ℕ, zero, suc, ◌+◌, ◌≤◌, ◌<◌, ◌≡◌, ◌⊎◌, refl, ap₂, ◌∙◌, inl, List, [], ◌∷◌, length, arith,
}
use korby_os.Cards.{Ram, read_bytes, write_bytes}

-- The addresses from `a` on, `n` of them, and those from `b` on, `k` of them, have none in common.
abbrev pub Apart : ℕ → ℕ → ℕ → ℕ → Type 0
Apart a n b k = (a + n ≤ b) ⊎ (b + k ≤ a)

write_bytes-outside :
    (bytes : List ℕ) (a : ℕ) (ram : Ram) (i : ℕ)
    → (i < a) ⊎ (a + length bytes ≤ i)
    → write_bytes bytes a ram i ≡ ram i
unfolding write_bytes
write_bytes-outside [] a ram i out = refl
write_bytes-outside (byte ∷ bytes) a ram i out =
    write_bytes-outside bytes (a + 1) _ i (ground arith) ∙ ground arith

read_bytes-same :
    (r t : Ram) (a n : ℕ)
    → ((i : ℕ) → a ≤ i → i < a + n → r i ≡ t i)
    → read_bytes r a n ≡ read_bytes t a n
unfolding read_bytes
read_bytes-same r t a zero same = refl
read_bytes-same r t a (suc n) same =
    ap₂ (λ x l. x ∷ l) (same a (omega arith) (omega arith))
      (read_bytes-same r t (a + 1) n (λ i low high. same i (omega arith) (omega arith)))

pub read_bytes-write_bytes :
    (bytes : List ℕ) (a : ℕ) (ram : Ram)
    → read_bytes (write_bytes bytes a ram) a (length bytes) ≡ bytes
unfolding read_bytes write_bytes
read_bytes-write_bytes [] a ram = refl
read_bytes-write_bytes (byte ∷ bytes) a ram =
    ap₂ (λ x l. x ∷ l) (write_bytes-outside bytes (a + 1) _ a (inl (omega arith)) ∙ ground arith)
      (read_bytes-write_bytes bytes (a + 1) _)

pub read_bytes-Apart :
    (bytes : List ℕ) (a : ℕ) (ram : Ram) (b k : ℕ)
    → Apart a (length bytes) b k
    → read_bytes (write_bytes bytes a ram) b k ≡ read_bytes ram b k
read_bytes-Apart bytes a ram b k apart =
    read_bytes-same _ _ b k (λ i low high. write_bytes-outside bytes a ram i (ground arith))
