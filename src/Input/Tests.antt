-- ===== src/Input/Tests.antt =====
-- The input handlers on concrete bytes.
use mathlib.Core.Bool.{xor}
use korby_os.Base.{
  ℕ, ◌-◌, ◌^◌, ◌≡◌, refl, true, false, Option, none, some, List, [], ◌∷◌, replicate, arith, ◌>>=◌,
}
use korby_os.Input.{MouseClick, Queue, Input, push, click, movement, packet, mouse, keyboard}
use korby_os.Input.Keyboard.{queued}
use korby_os.Input.Mouse.{IsFramed, Packet, three, mouse-Packet}

abbrev empty : {A : Type 0} → A → Queue A
empty a = record { entries = replicate 255 a; current = 0 }

abbrev fresh : Input
fresh = record {
  hpet_counter = 0;
  mouse_cycle = 0;
  mouse_bytes = 0 ∷ 0 ∷ 0 ∷ [];
  last_left_click = false;
  last_right_click = false;
  key_presses = empty (record { scancode = 0; pressed = false });
  mouse_moves = empty (record { x = 0; y = 0 });
  mouse_clicks = empty (record { left = false; pressed = false });
}

-- Flags 0x29 hold the left button and the sign of y: y is -2.
moves_down : movement 0xFE 0x29 3 ≡ 2 ^ 16 - 2
unfolding movement
moves_down = refl

releases_key :
    (keyboard 0x9E fresh >>= λ (s, _). some (queued s.key_presses 0))
    ≡ some (some (record { scancode = 0x1E; pressed = false }))
unfolding keyboard push
releases_key = refl

abbrev first_clicks : Option (Input × List ℕ) → Option MouseClick × Option MouseClick
first_clicks none = (none, none)
first_clicks (some (s, _)) = (queued s.mouse_clicks 0, queued s.mouse_clicks 1)

presses_left :
    first_clicks (three 0x29 5 0xFE fresh) ≡ (some (record { left = true; pressed = true }), none)
unfolding mouse packet click push movement xor
presses_left = refl

fresh-IsFramed : IsFramed fresh
fresh-IsFramed = omega arith

mouse-Packet_example :
    (s' : Input) × (three 0x29 5 0xFE fresh ≡ some (s', 0xA0 ∷ 0x20 ∷ []))
    × Packet 0x29 5 0xFE fresh s'
mouse-Packet_example =
    mouse-Packet 0x29 5 0xFE fresh (omega arith) fresh-IsFramed refl (omega arith) (omega arith)
