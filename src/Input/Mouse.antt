-- ===== src/Input/Mouse.antt =====
-- `mouse`: the packets of three bytes.
use Prim.Native.Nat.{bit_and}
use mathlib.Core.Bool.{xor}
use korby_os.Base.{
  ℕ, ◌+◌, ◌-◌, ◌*◌, ◌/◌, ◌%◌, ◌^◌, ◌<◌, ◌≡◌, refl, ap, ◌∙◌, Bool, true, false, not, ◌&&◌, ◌||◌,
  Option, some, List, [], ◌∷◌, ◌==◌, if◌then◌else◌, u8, ltb, ◌>>=◌, set, length, arith, Bool-cases,
  inl, inr,
}
use korby_os.Base.Bytes.{byte_table, same_values}
use korby_os.Input.{
  MouseMove, MouseClick, Queue, Input, capacity, push, click, movement, packet, mouse, Acknowledged,
}
use korby_os.Input.Keyboard.{IsQueue, queued, push_lem}

sign_x : (b : ℕ) → b < 256 → bit_and (b * 2 ^ 4) 0x100 ≡ b / 16 % 2 * 256
sign_x =
    byte_table (λ b. bit_and (b * 2 ^ 4) 0x100) (λ b. b / 16 % 2 * 256) (unfold same_values in refl)

sign_y : (b : ℕ) → b < 256 → bit_and (b * 2 ^ 3) 0x100 ≡ b / 32 % 2 * 256
sign_y =
    byte_table (λ b. bit_and (b * 2 ^ 3) 0x100) (λ b. b / 32 % 2 * 256) (unfold same_values in refl)

button_left : (b : ℕ) → b < 256 → bit_and b 1 ≡ b % 2
button_left = byte_table (λ b. bit_and b 1) (λ b. b % 2) (unfold same_values in refl)

button_right : (b : ℕ) → b < 256 → bit_and b 2 ≡ b / 2 % 2 * 2
button_right = byte_table (λ b. bit_and b 2) (λ b. b / 2 % 2 * 2) (unfold same_values in refl)

-- The movement of a packet is a number of nine bits in two's complement: the eight bits of the
-- byte, and the sign from bit 4 of the flags for x and from bit 5 for y. As an `int16_t` it is the
-- byte, less 256 if the sign is set.
pub movement_signed :
    (byte flags : ℕ)
    → byte < 256
    → flags < 256
    → (movement byte flags 4 ≡ (if flags / 16 % 2 == 0 then byte else 2 ^ 16 - (256 - byte)))
      × (movement byte flags 3 ≡ (if flags / 32 % 2 == 0 then byte else 2 ^ 16 - (256 - byte)))
unfolding movement
movement_signed byte flags hb hf =
    (ground (arith, sign_x flags hf), ground (arith, sign_y flags hf))

-- What holds between two interrupts.
pub record IsFramed (s : Input) : Type 0 where
  pub cycle : s.mouse_cycle < 3
  pub bytes : length s.mouse_bytes ≡ 3
  pub moves : IsQueue s.mouse_moves
  pub clicks : IsQueue s.mouse_clicks

-- One more entry exactly if the button changed.
click_lem :
    (left last now : Bool) (q : Queue MouseClick)
    → IsQueue q
    → q.current < capacity
    → (q' : Queue MouseClick) × (click left last now q ≡ some q')
      × IsQueue q'
      × (q'.current ≡ q.current + (if xor now last then 1 else 0))
      × ((i : ℕ)
          → queued q' i ≡ (
              if xor now last && i == q.current
              then some (record { left = left; pressed = now })
              else queued q i))
unfolding click xor
click_lem left false true q v room = push_lem (record { left = left; pressed = true }) q v room
click_lem left true false q v room = push_lem (record { left = left; pressed = false }) q v room
click_lem left true true q v room = (q, refl, v, omega arith, λ i. refl)
click_lem left false false q v room = (q, refl, v, omega arith, λ i. refl)

-- The move of a packet is queued unless it is zero.
move_lem :
    (x y : ℕ) (q : Queue MouseMove)
    → IsQueue q
    → q.current < capacity
    → (q' : Queue MouseMove) × ((if not (x == 0) || not (y == 0)
          then push (record { x = x; y = y }) q
          else some q)
        ≡ some q')
      × IsQueue q'
      × (q'.current ≡ q.current + (if not (x == 0) || not (y == 0) then 1 else 0))
      × ((i : ℕ)
          → queued q' i ≡ (
              if (not (x == 0) || not (y == 0)) && i == q.current
              then some (record { x = x; y = y })
              else queued q i))
move_lem x y q v room = elim (Bool-cases (not (x == 0) || not (y == 0))) [
  | inl moved ↦ rw moved (push_lem (record { x = x; y = y }) q v room)
  | inr still ↦ rw still (q, refl, v, omega arith, λ i. refl)
]

-- What a complete packet with the flags `f` and the bytes `bx` and `by` does to the input.
pub record Packet (f bx by : ℕ) (s s' : Input) : Type 0 where
  pub framed : IsFramed s'
  pub cycle : s'.mouse_cycle ≡ 0
  pub keys : s'.key_presses ≡ s.key_presses
  pub left : s'.last_left_click ≡ (f % 2 == 1)
  pub right : s'.last_right_click ≡ (f / 2 % 2 == 1)
  pub moved :
      let x = movement bx f 4 in
      let y = movement by f 3 in
      (i : ℕ)
      → queued s'.mouse_moves i ≡ (
          if (not (x == 0) || not (y == 0)) && i == s.mouse_moves.current
          then some (record { x = x; y = y })
          else queued s.mouse_moves i)
  pub clicked :
      let change_left = xor (f % 2 == 1) s.last_left_click in
      let change_right = xor (f / 2 % 2 == 1) s.last_right_click in
      let n = s.mouse_clicks.current in
      (i : ℕ)
      → queued s'.mouse_clicks i ≡ (
          if change_right && i == n + (if change_left then 1 else 0)
          then some (record { left = false; pressed = f / 2 % 2 == 1 })
          else if change_left && i == n
          then some (record { left = true; pressed = f % 2 == 1 })
          else queued s.mouse_clicks i)

flags_left : (f : ℕ) → f < 256 → not (bit_and f 0b00000001 == 0) ≡ (f % 2 == 1)
flags_left f h = ground (arith, button_left f h)

flags_right : (f : ℕ) → f < 256 → not (bit_and f 0b00000010 == 0) ≡ (f / 2 % 2 == 1)
flags_right f h = ground (arith, button_right f h)

packet-Packet :
    (f bx by : ℕ) (s : Input)
    → f < 256
    → s.mouse_cycle ≡ 0
    → s.mouse_bytes ≡ f ∷ bx ∷ by ∷ []
    → IsQueue s.mouse_moves
    → IsQueue s.mouse_clicks
    → s.mouse_moves.current < capacity
    → s.mouse_clicks.current + 1 < capacity
    → (s' : Input) × (packet s ≡ some s') × Packet f bx by s s'
unfolding packet
packet-Packet f bx by s small cycle bytes mv cv mroom croom =
    let (m, runs_m, vm, grown_m, rest_m) =
      move_lem (movement bx f 4) (movement by f 3) s.mouse_moves mv mroom in
    let (c, runs_c, vc, grown_c, rest_c) =
      click_lem true s.last_left_click (f % 2 == 1) s.mouse_clicks cv (omega arith) in
    let croom' : c.current < capacity = ground arith in
    let (d, runs_d, vd, grown_d, rest_d) =
      click_lem false s.last_right_click (f / 2 % 2 == 1) c vc croom' in
    (
      record s {
        last_left_click = f % 2 == 1;
        last_right_click = f / 2 % 2 == 1;
        mouse_moves = m;
        mouse_clicks = d;
      },
      rw (bytes)
          (rw (flags_left f small, flags_right f small) (rw (runs_m) (rw runs_c (rw runs_d)))),
      record {
        framed = record { cycle = omega arith; bytes = ap length bytes; moves = vm; clicks = vd };
        cycle = cycle;
        keys = refl;
        left = refl;
        right = refl;
        moved = rest_m;
        clicked = λ i. rest_d i ∙ rw (rest_c i, grown_c);
      },
    )

-- A byte in the middle of a packet is only kept.
mouse_early :
    (byte : ℕ) (s : Input)
    → s.mouse_cycle < 2
    → mouse byte s
      ≡ some (
        record s {
          mouse_bytes = set s.mouse_bytes s.mouse_cycle byte;
          mouse_cycle = s.mouse_cycle + 1;
        },
        0xA0 ∷ 0x20 ∷ [],
      )
unfolding mouse
mouse_early byte s early =
    let in_time : ltb s.mouse_cycle 3 ≡ true = ground arith in
    let next : u8 (s.mouse_cycle + 1) ≡ s.mouse_cycle + 1 = omega arith in
    let more : (s.mouse_cycle + 1 == 3) ≡ false = ground arith in rw in_time (rw next (rw more))

-- The third byte completes the packet.
mouse_last :
    (byte : ℕ) (s : Input)
    → s.mouse_cycle ≡ 2
    → mouse byte s ≡ (
        packet (record s { mouse_bytes = set s.mouse_bytes 2 byte; mouse_cycle = 0 }) >>= λ t.
        some (t, 0xA0 ∷ 0x20 ∷ []))
unfolding mouse
mouse_last byte s late = rw (late, mouse)

-- The handler on the three bytes of a packet, one interrupt after the other.
abbrev pub three : ℕ → ℕ → ℕ → Input → Option (Input × Acknowledged)
three f bx by s = do (s₁, _) ← mouse f s; (s₂, _) ← mouse bx s₁; mouse by s₂

triple : (l : List ℕ) → length l ≡ 3 → (a : ℕ) × (b : ℕ) × (c : ℕ) × (l ≡ a ∷ b ∷ c ∷ [])
triple [] h = absurd (omega arith)
triple (a ∷ []) h = absurd (omega arith)
triple (a ∷ b ∷ []) h = absurd (omega arith)
triple (a ∷ b ∷ c ∷ []) h = (a, b, c, refl)
triple (a ∷ b ∷ c ∷ d ∷ l) h = absurd (omega arith)

-- Between two packets and with room in the queues, `mouse` on the three bytes of a packet ends each
-- time and keeps the framing: it queues the movement if it is not zero, queues a click for each
-- button that changed, the left one first, with its new position, remembers both buttons, and leaves
-- the key presses alone.
pub mouse-Packet :
    (f bx by : ℕ) (s : Input)
    → f < 256
    → IsFramed s
    → s.mouse_cycle ≡ 0
    → s.mouse_moves.current < capacity
    → s.mouse_clicks.current + 1 < capacity
    → (s' : Input) × (three f bx by s ≡ some (s', 0xA0 ∷ 0x20 ∷ [])) × Packet f bx by s s'
mouse-Packet f bx by s small framed start mroom croom =
    let (a, b, c, bytes) = triple s.mouse_bytes framed.bytes in
    let s₁ : Input = record s { mouse_bytes = f ∷ b ∷ c ∷ []; mouse_cycle = 1 } in
    let s₂ : Input = record s { mouse_bytes = f ∷ bx ∷ c ∷ []; mouse_cycle = 2 } in
    let s₃ : Input = record s { mouse_bytes = f ∷ bx ∷ by ∷ []; mouse_cycle = 0 } in
    let first : mouse f s ≡ some (s₁, 0xA0 ∷ 0x20 ∷ []) =
      mouse_early f s (omega arith) ∙ rw (bytes, start) refl in
    let second : mouse bx s₁ ≡ some (s₂, 0xA0 ∷ 0x20 ∷ []) = mouse_early bx s₁ (omega arith) in
    let third = mouse_last by s₂ refl in
    let (s', runs, p) =
      packet-Packet f bx by s₃ small refl refl framed.moves framed.clicks mroom croom in
    (
      s',
      rw first (rw second (third ∙ rw runs)),
      record {
        framed = p.framed;
        cycle = p.cycle;
        keys = p.keys;
        left = p.left;
        right = p.right;
        moved = p.moved;
        clicked = p.clicked;
      },
    )
