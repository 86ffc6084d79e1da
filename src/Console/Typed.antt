-- ===== src/Console/Typed.antt =====
-- The keys that the desktop has sent to the window are typed into its line.
use korby_os.Base.{
  through, ℕ, ◌+◌, ◌≤◌, ◌≡◌, refl, sym, ap, ◌∙◌, Bool, true, false, ◌||◌, Option, some, Bool-cases,
  inl, inr, List, [], ◌∷◌, if◌then◌else◌, if_yes, if_no, length, ◌>>=◌,
}
use korby_os.Console.{Console, set_terminal, console_key, console_event, console_events}
use korby_os.Desktop.{Event, quit, key, click, move}
use korby_os.Terminal.{Terminal, type_key, type_keys}
use korby_os.Terminal.Line.{Line, edit_all, Shows}
use korby_os.Terminal.Typing.{Keys, type_keys-Shows}

-- The keys among the events, and whether the window was closed.
unfoldable pub keys_of : List Event → List (ℕ × Bool)
keys_of [] = []
keys_of (key scancode pressed ∷ events) = (scancode, pressed) ∷ keys_of events
keys_of (quit ∷ events) = keys_of events
keys_of (click left pressed ∷ events) = keys_of events
keys_of (move x y ∷ events) = keys_of events

unfoldable pub closes : List Event → Bool
closes [] = false
closes (quit ∷ events) = true
closes (key scancode pressed ∷ events) = closes events
closes (click left pressed ∷ events) = closes events
closes (move x y ∷ events) = closes events

-- The console with a terminal, and no events.
abbrev pub emptied : Terminal → Console → Console
emptied t c = record c { shell = record c.shell { terminal = t }; events = [] }

closed_once : (exiting closing : Bool) → (true || closing) ≡ (exiting || true)
closed_once true closing = refl
closed_once false closing = refl

still_open : (exiting : Bool) → exiting ≡ (exiting || false)
still_open true = refl
still_open false = refl

key_of_terminal :
    (scancode : ℕ) (pressed : Bool) (c : Console) (v : Terminal)
    → (if c.shell.terminal.typing
        then type_key scancode pressed c.shell.terminal
        else some c.shell.terminal)
      ≡ some v
    → console_key scancode pressed c ≡ some (set_terminal v c)
unfolding console_key
key_of_terminal scancode pressed c v e = elim (Bool-cases c.shell.terminal.typing) [
  | inl typing ↦
      if_yes {b = c.shell.terminal.typing} _ (some c) typing
      ∙ ap (λ (o : Option Terminal). o >>= λ t. some (set_terminal t c))
          (sym (if_yes {b = c.shell.terminal.typing} _ (some c.shell.terminal) typing) ∙ e)
  | inr idle ↦
      if_no {b = c.shell.terminal.typing} _ (some c) idle
      ∙ ap (λ (o : Option Terminal). o >>= λ t. some (set_terminal t c))
          (sym (if_no {b = c.shell.terminal.typing} _ (some c.shell.terminal) idle) ∙ e)
]

pub console_events-type_keys :
    (events : List Event) (exiting : Bool) (c : Console) (t : Terminal)
    → type_keys (keys_of events) c.shell.terminal ≡ some t
    → console_events events (exiting, c) ≡ some (exiting || closes events, emptied t c)
unfolding console_events console_event console_key keys_of closes type_keys
console_events-type_keys [] exiting c t e =
    ap (λ (o : Option Terminal). o >>= λ u. some (exiting, emptied u c)) e
    ∙ ap (λ closing. some (closing, emptied t c)) (still_open exiting)
console_events-type_keys (quit ∷ events) exiting c t e =
    console_events-type_keys events true c t e
    ∙ ap (λ closing. some (closing, emptied t c)) (closed_once exiting (closes events))
console_events-type_keys (click left pressed ∷ events) exiting c t e =
    console_events-type_keys events exiting c t e
console_events-type_keys (move x y ∷ events) exiting c t e =
    console_events-type_keys events exiting c t e
console_events-type_keys (key scancode pressed ∷ events) exiting c t e =
    (let first : Option Terminal =
        if c.shell.terminal.typing
        then type_key scancode pressed c.shell.terminal
        else some c.shell.terminal in
      let (v, here, later) = through first (type_keys (keys_of events)) t e in
      ap (λ o. (o >>= λ (d : Console). some (exiting, d)) >>= console_events events)
        (key_of_terminal scancode pressed c v here)
      ∙ console_events-type_keys events exiting (set_terminal v c) t later)

-- The window's events, of which every key is in the tables and is not the enter key, at most as many
-- as the line that the terminal holds has room for. The loop then ends with no events, `typingBuffer`
-- holds what the line editor makes of the keys, with the cursor behind it, and the window is to close
-- exactly if one of them said so.
pub console_events-Shows :
    (events : List Event) (c : Console) (l : Line)
    → Keys (keys_of events)
    → length l.text + length (keys_of events) ≤ 127
    → Shows c.shell.terminal l
    → (u : Terminal) × (console_events events (false, c) ≡ some (closes events, emptied u c))
      × Shows u (edit_all (keys_of events) l)
console_events-Shows events c l keys few shows =
    (let (u, types, shown, _) =
        type_keys-Shows (keys_of events) c.shell.terminal l keys few shows in
      (u, console_events-type_keys events false c u types, shown))
