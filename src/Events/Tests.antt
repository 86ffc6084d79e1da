-- ===== src/Events/Tests.antt =====
-- Three bytes of the keyboard on a terminal with a prompt.
use korby_os.Base.{ℕ, ◌≡◌, refl, false, some, List, [], ◌∷◌, ◌++◌, replicate}
use korby_os.Events.{Calls, Event, add_call, remove_call}
use korby_os.Input.{Input}
use korby_os.Terminal.{Terminal}

abbrev idle : Input
idle = record {
  hpet_counter = 0;
  mouse_cycle = 0;
  mouse_bytes = 0 ∷ 0 ∷ 0 ∷ [];
  last_left_click = false;
  last_right_click = false;
  key_presses = record {
    entries = replicate 255 (record { scancode = 0; pressed = false });
    current = 0;
  };
  mouse_moves = record { entries = replicate 255 (record { x = 0; y = 0 }); current = 0 };
  mouse_clicks = record {
    entries = replicate 255 (record { left = false; pressed = false });
    current = 0;
  };
}

-- The functions that were called, with every key.
abbrev log : ℕ → Event → List ℕ → List ℕ
log function e s = s ++ function ∷ []

abbrev calls : Calls
calls = record {
  keys = record { at = 4096; function = 7 } ∷ record { at = 4112; function = 8 } ∷ [];
  moves = [];
  clicks = [];
}

-- An i is pressed and released, and an r pressed.
abbrev bytes : List ℕ
bytes = 23 ∷ 151 ∷ 19 ∷ []

removes :
    remove_call 4096 (add_call 4112 8 (add_call 4096 7 []))
    ≡ some (record { at = 4112; function = 8 } ∷ [])
unfolding remove_call add_call
removes = refl
