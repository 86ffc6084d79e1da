-- ===== src/Input/Keyboard.antt =====
-- `keyboard`, and the queue that it fills.
use Prim.Native.Nat.{bit_and}
use korby_os.Base.{
  ℕ, ◌+◌, ◌*◌, ◌/◌, ◌%◌, ◌<◌, ◌≤◌, ◌≡◌, refl, ◌∙◌, ◌↔◌, true, not, Option, none, some, [], ◌∷◌,
  ◌==◌, if◌then◌else◌, u8, ltb, set, get_elem?, get_elem?-set, length, length-set, arith,
}
use korby_os.Base.Bytes.{byte_table, same_values}
use korby_os.Input.{KeyPress, Queue, Input, capacity, push, keyboard}

-- The index stays within the array.
pub record IsQueue {A : Type 0} (q : Queue A) : Type 0 where
  pub full_length : length q.entries ≡ capacity
  pub within : q.current ≤ capacity

-- The entries in front of the index.
abbrev pub queued : {A : Type 0} → Queue A → ℕ → Option A
queued q i = if ltb i q.current then get_elem? q.entries i else none

-- A push in a queue with room puts the entry behind the others, which stay.
pub push_lem :
    {A : Type 0} (a : A) (q : Queue A)
    → IsQueue q
    → q.current < capacity
    → (q' : Queue A) × (push a q ≡ some q')
      × IsQueue q'
      × (q'.current ≡ q.current + 1)
      × ((i : ℕ) → queued q' i ≡ (if i == q.current then some a else queued q i))
unfolding push
push_lem a q v room =
    let fits : ltb q.current capacity ≡ true = ground arith in
    let next : u8 (q.current + 1) ≡ q.current + 1 = omega arith in
    (
      record { entries = set q.entries q.current a; current = u8 (q.current + 1) },
      rw fits,
      record {
        full_length = length-set q.entries q.current a ∙ v.full_length;
        within = omega arith;
      },
      next,
      (λ i. ground (arith, get_elem?-set q.entries q.current i a)),
    )

-- The low seven bits of a byte.
low_bits : (b : ℕ) → b < 256 → bit_and b 0b01111111 ≡ b % 128
low_bits = byte_table (λ b. bit_and b 0b01111111) (λ b. b % 128) (unfold same_values in refl)

high_bit : (b : ℕ) → b < 256 → bit_and b 0b10000000 ≡ b / 128 * 128
high_bit = byte_table (λ b. bit_and b 0b10000000) (λ b. b / 128 * 128) (unfold same_values in refl)

-- The key press that a byte of the keyboard stands for.
abbrev pub decoded : ℕ → KeyPress
decoded b = record { scancode = b % 128; pressed = ltb b 128 }

pub key_of_byte :
    (byte : ℕ)
    → byte < 256
    → let unpressed = not (bit_and byte 0b10000000 == 0) in
      ◌≡◌ {A = KeyPress}
        (record {
          scancode = if unpressed then bit_and byte 0b01111111 else byte;
          pressed = not unpressed;
        })
        (decoded byte)
key_of_byte byte small = ground (arith, low_bits byte small, high_bit byte small)

-- With room in the queue, `keyboard` ends on every byte: it queues the low seven bits as the
-- scancode, pressed exactly if the top bit is clear, behind the key presses before it, changes
-- nothing else of the input and acknowledges the interrupt.
pub keyboard-decoded :
    (byte : ℕ) (s : Input)
    → byte < 256
    → IsQueue s.key_presses
    → s.key_presses.current < capacity
    → (q : Queue KeyPress) × (keyboard byte s ≡ some (record s { key_presses = q }, 0x20 ∷ []))
      × IsQueue q
      × (q.current ≡ s.key_presses.current + 1)
      × ((i : ℕ)
          → queued q i
            ≡ (if i == s.key_presses.current then some (decoded byte) else queued s.key_presses i))
unfolding keyboard
keyboard-decoded byte s small v room =
    let (q, runs, v', grown, rest) = push_lem (decoded byte) s.key_presses v room in
    (q, rw (key_of_byte byte small, runs), v', grown, rest)

-- `keyboard` writes behind the array exactly when 255 key presses wait: nothing stops it.
pub keyboard-none :
    (byte : ℕ) (s : Input) → (keyboard byte s ≡ none) ↔ (capacity ≤ s.key_presses.current)
unfolding keyboard push
keyboard-none byte s = (λ h. ground arith, λ h. ground arith)
