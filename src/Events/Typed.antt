-- ===== src/Events/Typed.antt =====
-- From the bytes of the keyboard to the line on the terminal and to the programs' handlers.
use korby_os.Base.{ℕ, ◌≡◌, Bool, Option, some, List, [], ◌∷◌, ◌++◌, ltb, ◌%◌, ◌>>=◌}
use korby_os.Events.{Calls, Event, key, event_loop, moved, clicked}
use korby_os.Input.{KeyPress, Input, keyboard}
use korby_os.Input.Keyboard.{decoded}
use korby_os.Input.Queues.{waiting}
use korby_os.Terminal.{Terminal}
use korby_os.Terminal.Glyphs.{glyphs}
use korby_os.Terminal.Echo.{echo_all}
use korby_os.Terminal.Line.{Line, edit_all, Shows}

-- An interrupt for each byte.
unfoldable pub keyboard_all : List ℕ → Input → Option Input
keyboard_all [] s = some s
keyboard_all (byte ∷ bytes) s = keyboard byte s >>= λ r. keyboard_all bytes r.0

-- What the bytes stand for, for the handlers and for the terminal.
unfoldable pub presses : List ℕ → List KeyPress
presses [] = []
presses (byte ∷ bytes) = decoded byte ∷ presses bytes

unfoldable pub typed : List ℕ → List (ℕ × Bool)
typed [] = []
typed (byte ∷ bytes) = (byte % 128, ltb byte 128) ∷ typed bytes

unfoldable pub heard : List ℕ → List Event
heard [] = []
heard (byte ∷ bytes) = key (decoded byte) ∷ heard bytes

module _ {S : Type 0} (handler : ℕ → Event → S → S) where
  abbrev pair : Option Terminal → S → Option (Terminal × S)
  pair o s = o >>= λ t. some (t, s)

  -- The rest of a round, behind the loop over the key queue.
  abbrev rest_of_round : Calls → Input → Terminal × S → Option (Input × Terminal × S)
  rest_of_round calls i r = some (
    record i {
      key_presses = record i.key_presses { current = 0 };
      mouse_moves = record i.mouse_moves { current = 0 };
      mouse_clicks = record i.mouse_clicks { current = 0 };
    },
    r.0,
    event_loop handler (clicked handler (waiting i.mouse_clicks)) calls.clicks
        (event_loop handler (moved handler (waiting i.mouse_moves)) calls.moves r.1),
  )

-- What a round leaves: the terminal holds the line and has drawn the characters that were typed, each key
-- has been heard, in order, and the queues are empty.
pub record Heard {S : Type 0} (handler : ℕ → Event → S → S) (calls : Calls) (bytes : List ℕ)
    (l : Line) (before : Terminal) (s : S) (i : Input) (t : Terminal) (r : S) : Type 0 where
  pub drawn : glyphs t.drawn ≡ glyphs before.drawn ++ echo_all (typed bytes) l
  pub shows : Shows t (edit_all (typed bytes) l)
  pub handled : r ≡ event_loop handler (heard bytes) calls.keys s
  pub no_presses : i.key_presses.current ≡ 0
  pub no_moves : i.mouse_moves.current ≡ 0
  pub no_clicks : i.mouse_clicks.current ≡ 0
