-- ===== src/Cards/Addresses.antt =====
-- Where the descriptors' blocks are.
use korby_os.Base.{ℕ, ◌+◌, ◌*◌, ◌^◌, ◌≤◌, ◌<◌, ◌≡◌, ◌≢◌, arith}
use korby_os.Cards.{address_of}
use korby_os.Cards.Memory.{Apart}
use korby_os.Cards.Rings.{low_half, high_half}

-- The block of memory that the ring was given ends below 2^64.
abbrev pub Placed : ℕ → Type 0
Placed base = base + 2048 * 256 ≤ 2 ^ 64

pub address_of-half :
    (base i : ℕ)
    → Placed base
    → i < 256
    → address_of (low_half base i) (high_half base i) ≡ base + 2048 * i
address_of-half base i placed below = omega arith

-- Two blocks of a ring have no byte in common.
pub blocks-Apart :
    (base i j n k : ℕ) → i ≢ j → n ≤ 2048 → k ≤ 2048 → Apart (base + 2048 * i) n (base + 2048 * j) k
blocks-Apart base i j n k other small short = ground arith
