-- ===== src/Input.antt =====
-- The interrupt handlers of src/main.h that fill the input queues: `hpet`, `keyboard` and `mouse`.
--
-- A byte read from port 0x60 is an argument. The writes to the interrupt controllers are the list of
-- ports that get the end-of-interrupt byte. A queue is an array of 255 entries and an index of
-- `uint8_t`, emptied by setting the index to 0; a write behind the array hits other memory, and is
-- `none` here.
pub mod Keyboard
pub mod Mouse
pub mod Queues
mod Tests
use korby_os.Base.{
  ℕ, zero, suc, ◌+◌, ◌-◌, ◌*◌, ◌/◌, ◌%◌, Bool, true, false, not, ◌&&◌, ◌||◌, Option, none, some,
  List, [], ◌∷◌, ◌==◌, if◌then◌else◌, u8, u64, ltb, ◌>>=◌, set, get_or,
}
use Prim.Native.Nat.{bit_and, ◌^◌}
use mathlib.Core.Bool.{xor}

pub record KeyPress : Type 0 where
  pub scancode : ℕ
  pub pressed : Bool

-- An `int16_t` is its bit pattern.
pub record MouseMove : Type 0 where
  pub x : ℕ
  pub y : ℕ

pub record MouseClick : Type 0 where
  pub left : Bool
  pub pressed : Bool

-- An array of 255 entries and the index behind the last one that is filled.
pub record Queue (A : Type 0) : Type 0 where
  pub entries : List A
  pub current : ℕ

abbrev pub capacity : ℕ
capacity = 255

-- `queue[current] = …; current++;`
unfoldable pub push : {A : Type 0} → A → Queue A → Option (Queue A)
push a q =
    if ltb q.current capacity
    then some (record { entries = set q.entries q.current a; current = u8 (q.current + 1) })
    else none

pub record Input : Type 0 where
  pub hpet_counter : ℕ
  pub mouse_cycle : ℕ
  pub mouse_bytes : List ℕ
  pub last_left_click : Bool
  pub last_right_click : Bool
  pub key_presses : Queue KeyPress
  pub mouse_moves : Queue MouseMove
  pub mouse_clicks : Queue MouseClick

-- The ports that an interrupt handler writes 0x20 to, in order.
abbrev pub Acknowledged : Type 0
Acknowledged = List ℕ

unfoldable pub hpet : Input → Input × Acknowledged
hpet s = (record s { hpet_counter = u64 (s.hpet_counter + 1) }, 0x20 ∷ [])

unfoldable pub keyboard : ℕ → Input → Option (Input × Acknowledged)
keyboard byte s =
    let unpressed = not (bit_and byte 0b10000000 == 0) in
    let scancode : ℕ = if unpressed then bit_and byte 0b01111111 else byte in
    push (record { scancode = scancode; pressed = not unpressed }) s.key_presses >>= λ q.
    some (record s { key_presses = q }, 0x20 ∷ [])

-- `mouseBytes[1] - ((mouseBytes[0] << 4) & 0x100)` as an `int16_t`, and so for the other axis.
unfoldable pub movement : ℕ → ℕ → ℕ → ℕ
movement byte flags shift = (byte + 2 ^ 16 - bit_and (flags * 2 ^ shift) 0x100) % 2 ^ 16

-- One button: a change queues a click and is remembered.
unfoldable pub click : Bool → Bool → Bool → Queue MouseClick → Option (Queue MouseClick)
click left last now q =
    if xor now last then push (record { left = left; pressed = not last }) q else some q

-- The packet of three bytes is complete.
packet : Input → Option Input
packet s = do
  let flags : ℕ = get_or s.mouse_bytes 0 0
  let x : ℕ = movement (get_or s.mouse_bytes 1 0) flags 4
  let y : ℕ = movement (get_or s.mouse_bytes 2 0) flags 3
  let left_click : Bool = not (bit_and flags 0b00000001 == 0)
  let right_click : Bool = not (bit_and flags 0b00000010 == 0)
  moves ←
      if not (x == 0) || not (y == 0)
      then push (record { x = x; y = y }) s.mouse_moves
      else some s.mouse_moves
  clicks ← click true s.last_left_click left_click s.mouse_clicks
  clicks' ← click false s.last_right_click right_click clicks
  some (record s {
    last_left_click = left_click;
    last_right_click = right_click;
    mouse_moves = moves;
    mouse_clicks = clicks';
  })

-- `mouse`. A `mouseCycle` of 3 or more would write behind `mouseBytes`.
pub mouse : ℕ → Input → Option (Input × Acknowledged)
mouse byte s =
    if ltb s.mouse_cycle 3
    then (let t = record s {
      mouse_bytes = set s.mouse_bytes s.mouse_cycle byte;
      mouse_cycle = u8 (s.mouse_cycle + 1);
    } in
        let full = packet (record t { mouse_cycle = 0 }) in
        (if t.mouse_cycle == 3 then full else some t) >>= λ t'. some (t', 0xA0 ∷ 0x20 ∷ []))
    else none
