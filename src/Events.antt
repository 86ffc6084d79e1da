-- ===== src/Events.antt =====
-- The input calls of src/main.c: `addKeyCall`, `removeKeyCall` and their like, and what the loop of
-- `start` does with the queues of the interrupt handlers.
--
-- A call is its node's address and the function's. What the functions do is an argument, on a state of
-- their own: the handlers that programs register, those of the desktop, do not print, and change no
-- list of calls.
pub mod Typed
mod Tests
use korby_os.Base.{
  ℕ, ◌+◌, Bool, true, false, Option, none, some, List, [], ◌∷◌, ◌++◌, ◌==◌, if◌then◌else◌, take,
  ◌>>=◌,
}
use korby_os.Input.{KeyPress, MouseMove, MouseClick, Queue, Input}
use korby_os.Terminal.{Terminal, type_key}

-- A `PointerArray`.
pub record Call : Type 0 where
  pub at : ℕ
  pub function : ℕ

-- `keyCalls`, `moveCalls` and `clickCalls`.
pub record Calls : Type 0 where
  pub keys : List Call
  pub moves : List Call
  pub clicks : List Call

-- `addKeyCall`, `addMoveCall` and `addClickCall`, with the address that `addItem` returns.
unfoldable pub add_call : ℕ → ℕ → List Call → List Call
add_call at function calls = calls ++ record { at = at; function = function } ∷ []

-- `removeKeyCall`, `removeMoveCall` and `removeClickCall`; for a node that is not in the list the walk
-- leaves it, and is `none`.
unfoldable pub remove_call : ℕ → List Call → Option (List Call)
remove_call at [] = none
remove_call at (c ∷ calls) = elim (c.at == at) [
  | true ↦ some calls
  | false ↦ remove_call at calls >>= λ rest. some (c ∷ rest)
]

pub data Event : Type 0 where
  key : KeyPress → Event
  move : MouseMove → Event
  click : MouseClick → Event

module _ {S : Type 0} (handler : ℕ → Event → S → S) where
  -- The loop over the calls of a list.
  unfoldable pub call_all : Event → List Call → S → S
  call_all e [] s = s
  call_all e (c ∷ calls) s = call_all e calls (handler c.function e s)

  -- The events of a queue, each for all calls before the next.
  unfoldable pub event_loop : List Event → List Call → S → S
  event_loop [] calls s = s
  event_loop (e ∷ events) calls s = event_loop events calls (call_all e calls s)

  -- A round of the loop over `keyPresses`.
  unfoldable pub key_round : KeyPress → List Call → Terminal → S → Option (Terminal × S)
  key_round press calls t s =
      (if t.typing then type_key press.scancode press.pressed t else some t) >>= λ u.
      some (u, call_all (key press) calls s)

  unfoldable pub key_loop : List KeyPress → List Call → Terminal → S → Option (Terminal × S)
  key_loop [] calls t s = some (t, s)
  key_loop (press ∷ presses) calls t s =
      key_round press calls t s >>= λ r. key_loop presses calls r.0 r.1

  abbrev pub moved : List MouseMove → List Event
  moved [] = []
  moved (m ∷ moves) = move m ∷ moved moves

  abbrev pub clicked : List MouseClick → List Event
  clicked [] = []
  clicked (c ∷ clicks) = click c ∷ clicked clicks

  abbrev taken : {A : Type 0} → Queue A → List A
  taken q = take q.current q.entries

  -- The three loops, each of which ends with its queue's index set to 0.
  unfoldable pub input_round : Calls → Input → Terminal → S → Option (Input × Terminal × S)
  input_round calls i t s = key_loop (taken i.key_presses) calls.keys t s >>= λ r. some (
    record i {
      key_presses = record i.key_presses { current = 0 };
      mouse_moves = record i.mouse_moves { current = 0 };
      mouse_clicks = record i.mouse_clicks { current = 0 };
    },
    r.0,
    event_loop (clicked (taken i.mouse_clicks)) calls.clicks
        (event_loop (moved (taken i.mouse_moves)) calls.moves r.1),
  )
