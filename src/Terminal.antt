-- ===== src/Terminal.antt =====
-- The terminal of the kernel in src/main.c: `terminalPrint`, and what `start` makes of the keys that
-- are typed.
--
-- What is drawn is the list of the calls that draw, in order. `typingBuffer` has 128 units, and a
-- write behind them is `none`.
pub mod Backspace
pub mod Echo
pub mod Entered
pub mod Example
pub mod Glyphs
pub mod Keys
pub mod Line
pub mod Print
pub mod Typing
mod Tests
use korby_os.Terminal.Keys.{scancodes, caps_scancodes}
use korby_os.Base.{
  ℕ, zero, suc, ◌+◌, ◌-◌, ◌*◌, ◌/◌, ◌%◌, ◌^◌, Bool, true, false, not, ◌&&◌, ◌||◌, Option, none,
  some, List, [], ◌∷◌, ◌++◌, ◌==◌, if◌then◌else◌, ltb, u32, u64, sub64, length, get_elem?, set,
  ◌>>=◌,
}

-- Black and the grey of the text.
pub data Colour : Type 0 where
  black : Colour
  normal : Colour

-- `drawRectangle`, `drawCharacter`, `splitTask(coreDrop, …)`, which moves all lines up by one, and
-- `splitTask(coreFill, …)`, which clears the screen.
pub data Draw : Type 0 where
  rectangle : ℕ → ℕ → ℕ → ℕ → Colour → Draw
  character : ℕ → ℕ → ℕ → Draw
  drop : Draw
  fill : Draw

-- The resolution, the size in characters, the cursor, and the line that is being typed.
pub record Terminal : Type 0 where
  pub horizontal : ℕ
  pub vertical : ℕ
  pub width : ℕ
  pub height : ℕ
  pub cursor_x : ℕ
  pub cursor_y : ℕ
  pub drawn : List Draw
  pub typing : Bool
  pub typing_start : ℕ
  pub typing_current : ℕ
  pub typing_buffer : List ℕ
  pub left_shift : Bool
  pub right_shift : Bool
  pub shift : Bool
  pub caps : Bool

abbrev pub draw : Draw → Terminal → Terminal
draw d t = record t { drawn = t.drawn ++ d ∷ [] }

-- The character's place under the cursor, in a colour.
abbrev pub fill_cursor : Colour → Terminal → Terminal
fill_cursor c t = draw (rectangle (u32 (t.cursor_x * 16)) (u32 (t.cursor_y * 32)) 16 32 c) t

-- The cursor goes to the next line, or the lines go up by one; the start of the line that is typed
-- goes with them, as a `uint32_t`.
unfoldable pub next_line : Terminal → Terminal
next_line t =
    if not (u32 (t.cursor_y + 1) == t.height)
    then record t { cursor_x = 0; cursor_y = u32 (t.cursor_y + 1) }
    else record t {
      cursor_x = 0;
      typing_start = (t.typing_start + 2 ^ 32 - t.width) % 2 ^ 32;
      drawn =
          t.drawn
          ++ (drop ∷ rectangle 0 ((t.vertical + 2 ^ 32 - 32) % 2 ^ 32) t.horizontal 32 black ∷ []);
    }

-- One round of the loop of `terminalPrint`.
unfoldable pub put : ℕ → Terminal → Terminal
put c t =
    if c == b'\n'
    then next_line t
    else (let u = draw (character c (u32 (t.cursor_x * 16)) (u32 (t.cursor_y * 32))) t in
        if u32 (t.cursor_x + 1) == t.width
        then next_line u
        else record u { cursor_x = u32 (t.cursor_x + 1) })

unfoldable pub put_all : List ℕ → Terminal → Terminal
put_all [] t = t
put_all (c ∷ message) t = put_all message (put c t)

unfoldable pub terminal_print : List ℕ → Terminal → Terminal
terminal_print message t = fill_cursor normal (put_all message (fill_cursor black t))

-- The backspace key. The cursor's place in the grid is compared as a `uint32_t`.
unfoldable pub backspace : Terminal → Terminal
backspace t =
    if ltb t.typing_start (u32 (t.cursor_x + t.cursor_y * t.width))
    then (let u = fill_cursor black (record t { typing_current = sub64 t.typing_current 1 }) in
        fill_cursor normal (
          if ltb 0 u.cursor_x then record u { cursor_x = u.cursor_x - 1 } else record u {
            cursor_x = (u.width + 2 ^ 32 - 1) % 2 ^ 32;
            cursor_y = (u.cursor_y + 2 ^ 32 - 1) % 2 ^ 32;
          }))
    else t

-- The prompt; the line is typed from there on.
unfoldable pub prompt : List ℕ → Terminal → Terminal
prompt directory t =
    (let u = terminal_print directory t in
      record u {
        typing_start = u32 (u.cursor_x + u32 (u.cursor_y * u.width));
        typing_current = 0;
        typing = true;
      })

-- `typingBuffer[typingCurrent] = c;`
unfoldable pub store : ℕ → Terminal → Option Terminal
store c t =
    if ltb t.typing_current (length t.typing_buffer)
    then some (record t { typing_buffer = set t.typing_buffer t.typing_current c })
    else none

unfoldable pub enter : Terminal → Option Terminal
enter t = store 0 t >>= λ u. some (record (terminal_print (b'\n' ∷ []) u) { typing = false })

unfoldable pub type_character : ℕ → Terminal → Option Terminal
type_character c t = store c t >>= λ u.
    some (terminal_print (c ∷ []) (record u { typing_current = u64 (u.typing_current + 1) }))

-- `(caps ? !shift : shift) ? capsScancodes[…] : scancodes[…]`; a scancode behind the tables reads
-- other memory, and is `none`.
abbrev pub character_of : Bool → Bool → ℕ → Option ℕ
character_of caps shift scancode =
    get_elem? (if (if caps then not shift else shift) then caps_scancodes else scancodes) scancode

abbrev pub other_key : ℕ → Terminal → Option Terminal
other_key scancode t =
    character_of t.caps t.shift scancode >>= λ c. if c == 0 then some t else type_character c t

-- A key that is pressed or released while a line is typed.
unfoldable pub type_key : ℕ → Bool → Terminal → Option Terminal
type_key scancode pressed t =
    if scancode == 14
    then some (if pressed then backspace t else t)
    else if scancode == 28
    then (if pressed then enter t else some t)
    else if scancode == 42
    then some (record t { left_shift = pressed; shift = pressed || t.right_shift })
    else if scancode == 54
    then some (record t { right_shift = pressed; shift = t.left_shift || pressed })
    else if scancode == 58
    then some (if pressed then record t { caps = not t.caps } else t)
    else if pressed
    then other_key scancode t
    else some t

-- The first part of the loop over `keyPresses`.
unfoldable pub type_keys : List (ℕ × Bool) → Terminal → Option Terminal
type_keys [] t = some t
type_keys ((scancode, pressed) ∷ keys) t =
    (if t.typing then type_key scancode pressed t else some t) >>= type_keys keys
