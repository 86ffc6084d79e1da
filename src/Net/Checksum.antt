-- ===== src/Net/Checksum.antt =====
-- The Internet checksum: the sums of words and the folding of the carries.
use korby_os.Base.{
  ℕ, zero, suc, ◌+◌, ◌-◌, ◌*◌, ◌/◌, ◌%◌, ◌^◌, ◌<◌, ◌≤◌, ◌≡◌, refl, ap₂, ◌∙◌, true, false, some,
  List, [], ◌∷◌, ◌==◌, u32, length, All, arith, Bool-cases, inl, inr,
}
use korby_os.Net.{swap16, bytes16, sum16, fold_carry, fold_fuel, complement16}

-- What folding keeps of a sum: it is below 2^16, congruent modulo 65535, and 0 only for 0.
pub record Folded (sum r : ℕ) : Type 0 where
  pub small : r < 2 ^ 16
  pub carries : ℕ
  pub congruent : sum ≡ r + 65535 * carries
  pub zero_only : r ≡ 0 → sum ≡ 0

fold_done : (fuel sum : ℕ) → sum < 2 ^ 16 → fold_carry (suc fuel) sum ≡ some sum
unfolding fold_carry
fold_done fuel sum h = let stop : (sum / 2 ^ 16 == 0) ≡ true = ground arith in rw (stop, fold_carry)

fold_more :
    (fuel sum : ℕ)
    → 2 ^ 16 ≤ sum
    → fold_carry (suc fuel) sum ≡ fold_carry fuel (sum % 2 ^ 16 + sum / 2 ^ 16)
unfolding fold_carry
fold_more fuel sum h =
    let more : (sum / 2 ^ 16 == 0) ≡ false = ground arith in rw (more, fold_carry)

Folded-done : (sum : ℕ) → sum < 2 ^ 16 → Folded sum sum
Folded-done sum h = record { small = h; carries = 0; congruent = omega arith; zero_only = λ e. e }

Folded-more : (sum r : ℕ) → Folded (sum % 2 ^ 16 + sum / 2 ^ 16) r → Folded sum r
Folded-more sum r f = record {
  small = f.small;
  carries = f.carries + sum / 2 ^ 16;
  congruent = omega (arith, f.congruent);
  zero_only = λ e. omega (arith, f.zero_only e);
}

fold_one :
    (fuel sum : ℕ) → sum < 2 ^ 16 → (r : ℕ) × (fold_carry (suc fuel) sum ≡ some r) × Folded sum r
fold_one fuel sum h = (sum, fold_done fuel sum h, Folded-done sum h)

fold_two :
    (fuel sum : ℕ)
    → sum < 2 ^ 17 - 1
    → (r : ℕ) × (fold_carry (suc (suc fuel)) sum ≡ some r) × Folded sum r
fold_two fuel sum h = elim (Bool-cases (sum / 2 ^ 16 == 0)) [
  | inl low ↦ fold_one (suc fuel) sum (ground arith)
  | inr high ↦
      let (r, runs, f) = fold_one fuel (sum % 2 ^ 16 + sum / 2 ^ 16) (ground arith) in
      (r, fold_more (suc fuel) sum (ground arith) ∙ runs, Folded-more sum r f)
]

-- Three rounds are enough for every `uint32_t`: the loop ends, with a sum of 16 bits that is
-- congruent modulo 65535 and is 0 only for 0.
pub fold_carry-Folded :
    (sum : ℕ) → sum < 2 ^ 32 → (r : ℕ) × (fold_carry fold_fuel sum ≡ some r) × Folded sum r
fold_carry-Folded sum h = elim (Bool-cases (sum / 2 ^ 16 == 0)) [
  | inl low ↦ fold_one 2 sum (ground arith)
  | inr high ↦
      let (r, runs, f) = fold_two 0 (sum % 2 ^ 16 + sum / 2 ^ 16) (ground arith) in
      (r, fold_more 2 sum (ground arith) ∙ runs, Folded-more sum r f)
]

-- Two foldings, of a sum and of the sum with the complement of the first added: the second is not 0.
Folded-full : (sum r q : ℕ) → Folded sum r → Folded (sum + complement16 r) q → q ≡ 0xFFFF
Folded-full sum r zero f g =
    let none_left : sum + complement16 r ≡ 0 = g.zero_only refl in
    omega (arith, none_left, f.congruent, f.small)
Folded-full sum r (suc p) f g = omega (arith, f.congruent, f.small, g.congruent, g.small)

-- A sum with the complement of its own folding is a multiple of 65535, and not 0.
pub sum_complement :
    (sum r : ℕ)
    → Folded sum r
    → sum + complement16 r < 2 ^ 32
    → (k : ℕ) × (sum + complement16 r ≡ 65535 * suc k)
sum_complement sum r f h =
    (let (q, runs, g) = fold_carry-Folded (sum + complement16 r) h in
      (g.carries, omega (arith, g.congruent, Folded-full sum r q f g)))

-- The sum of the words without wrapping.
abbrev pub words : List ℕ → ℕ
words [] = 0
words (a ∷ []) = a
words (a ∷ b ∷ rest) = (a + 256 * b) + words rest

abbrev pub Bytes : List ℕ → Type 0
Bytes l = All (λ b. b < 256) l

pub words_bound : (l : List ℕ) → Bytes l → 2 * words l ≤ 65535 * (length l + 1)
words_bound [] h = omega arith
words_bound (a ∷ []) h = omega arith
words_bound (a ∷ b ∷ rest) h = omega (arith, words_bound rest h.1.1, h.0, h.1.0)

-- As long as it stays a `uint32_t`, the sum does not wrap.
pub sum16-words : (acc : ℕ) (l : List ℕ) → acc + words l < 2 ^ 32 → sum16 acc l ≡ acc + words l
unfolding sum16
sum16-words acc [] h = omega arith
sum16-words acc (a ∷ []) h = omega arith
sum16-words acc (a ∷ b ∷ rest) h =
    sum16-words (u32 (acc + (a + 256 * b))) rest (omega arith) ∙ omega arith

-- Exchanging the halves twice gives the number back, and in memory the exchanged number is the high
-- byte and then the low one.
pub swap16_twice :
    (x : ℕ) → x < 2 ^ 16 → (swap16 (swap16 x) ≡ x) × (bytes16 (swap16 x) ≡ x / 256 ∷ x % 256 ∷ [])
unfolding swap16
swap16_twice x h = (omega arith, ap₂ (λ a b. a ∷ b ∷ []) (omega arith) (omega arith))

-- The sum of the words of a message as the standard has it, high byte first, with a 0 behind an odd byte.
abbrev pub big_endian : List ℕ → ℕ
big_endian [] = 0
big_endian (a ∷ []) = 256 * a
big_endian (a ∷ b ∷ rest) = (256 * a + b) + big_endian rest

seconds_of : List ℕ → ℕ
seconds_of [] = 0
seconds_of (a ∷ []) = 0
seconds_of (a ∷ b ∷ rest) = b + seconds_of rest

-- The order of the bytes in a word changes the sum by a factor of 256 and a multiple of 65535.
big_endian-words : (l : List ℕ) → 256 * words l ≡ big_endian l + 65535 * seconds_of l
unfolding seconds_of
big_endian-words [] = refl
big_endian-words (a ∷ []) = omega arith
big_endian-words (a ∷ b ∷ rest) = omega (arith, big_endian-words rest)

words_most : (l : List ℕ) → words l ≤ 256 * big_endian l
words_most [] = omega arith
words_most (a ∷ []) = omega arith
words_most (a ∷ b ∷ rest) = omega (arith, words_most rest)

-- A message verifies when the one's complement sum of its words is all ones: their sum is a multiple of
-- 65535, and not 0.
abbrev pub IsVerified : List ℕ → Type 0
IsVerified l = (k : ℕ) × (big_endian l ≡ 65535 * suc k)

pub words-IsVerified : (l : List ℕ) (k : ℕ) → words l ≡ 65535 * suc k → IsVerified l
words-IsVerified l k e =
    (let swapped = big_endian-words l in
      let most = words_most l in (255 + 256 * k - seconds_of l, omega (arith, e, swapped, most)))
