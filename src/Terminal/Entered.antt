-- ===== src/Terminal/Entered.antt =====
-- The enter key after a line: what `start` reads in `typingBuffer`.
use korby_os.Base.{
  bind-some, ℕ, suc, ◌+◌, ◌≤◌, ◌≡◌, refl, ap, ◌∙◌, Bool, true, false, none, some, List, [], ◌∷◌,
  ◌++◌, if◌then◌else◌, ltb, length, set, take, take-set, length-set, if_yes, arith, ◌>>=◌, ◌||◌,
}
use korby_os.Terminal.{Terminal, prompt, store, enter, type_key, type_keys, terminal_print}
use korby_os.Terminal.Line.{Line, edit_all, Shows}
use korby_os.Terminal.Typing.{length-edit_all, Keys, type_keys-Shows}
use korby_os.Terminal.Print.{Grid, cell_bound, terminal_print-Grid, terminal_print-Same}

-- The line was read: its text stands in the buffer, with a 0 behind it, and typing is over.
pub record Entered (text : List ℕ) (u : Terminal) : Type 0 where
  pub ended : u.typing ≡ false
  pub room : length u.typing_buffer ≡ 128
  pub stored : take (suc (length text)) u.typing_buffer ≡ text ++ 0 ∷ []

enter-Entered :
    (t : Terminal) (l : Line)
    → length l.text ≤ 127
    → Shows t l
    → (u : Terminal) × (enter t ≡ some u) × Entered l.text u
unfolding enter store
enter-Entered t l few s =
    (let current = s.current in
      let room = s.room in
      let stored = record t { typing_buffer = set t.typing_buffer t.typing_current 0 } in
      let same = terminal_print-Same (b'\n' ∷ []) stored in
      (
        record (terminal_print (b'\n' ∷ []) stored) { typing = false },
        ap (λ o. o >>= λ u. some (record (terminal_print (b'\n' ∷ []) u) { typing = false }))
            (if_yes {b = ltb t.typing_current (length t.typing_buffer)} (some stored) none
              (ground (arith, few))),
        record {
          ended = refl;
          room = ap length same.buffer ∙ (length-set t.typing_buffer t.typing_current 0 ∙ room);
          stored =
              ap (take (suc (length l.text))) same.buffer
              ∙ (ap (λ i. take (suc (length l.text)) (set t.typing_buffer i 0)) current
                  ∙ (take-set (length l.text) 0 t.typing_buffer (omega (arith, few, room))
                      ∙ ap (λ x. x ++ 0 ∷ []) s.text));
        },
      ))

type_keys-++ :
    (keys more : List (ℕ × Bool)) (t : Terminal)
    → type_keys (keys ++ more) t ≡ (type_keys keys t >>= type_keys more)
unfolding type_keys
type_keys-++ [] more t = refl
type_keys-++ ((scancode, pressed) ∷ keys) more t =
    elim (if t.typing then type_key scancode pressed t else some t)
      as (λ o. (o >>= type_keys (keys ++ more)) ≡ (o >>= type_keys keys >>= type_keys more)) [
        | none ↦ refl
        | some u ↦ type_keys-++ keys more u
      ]

-- A line of at most 127 keys and the enter key leave the line editor's text in the buffer.
pub type_keys-Entered :
    (keys : List (ℕ × Bool)) (t : Terminal) (l : Line)
    → Keys keys
    → length l.text + length keys ≤ 127
    → Shows t l
    → (u : Terminal) × (type_keys (keys ++ (28, true) ∷ []) t ≡ some u)
      × Entered (edit_all keys l).text u
unfolding type_keys type_key
type_keys-Entered keys t l known few s =
    (let typed = type_keys-Shows keys t l known few s in
      let typing = typed.2.typing in
      let end =
        enter-Entered typed.0 (edit_all keys l) (omega (arith, few, length-edit_all keys l))
          typed.2 in
      (
        end.0,
        type_keys-++ keys ((28, true) ∷ []) t
            ∙ (bind-some _ typed.1 (bind-some _ (if_yes _ _ typing ∙ end.1) refl)),
        end.2,
      ))

-- The line that the editor starts with.
abbrev pub fresh : Terminal → Line
fresh t = record { text = []; left = t.left_shift; right = t.right_shift; caps = t.caps }

pub prompt-Shows :
    (directory : List ℕ) (t : Terminal)
    → Grid t
    → length t.typing_buffer ≡ 128
    → t.shift ≡ (t.left_shift || t.right_shift)
    → Shows (prompt directory t) (fresh t)
unfolding prompt
prompt-Shows directory t grid room shift =
    (let u = terminal_print directory t in
      let g = terminal_print-Grid directory t grid in
      let same = terminal_print-Same directory t in
      let inside = cell_bound u.cursor_x u.cursor_y u.width u.height g.column g.row in
      let cells = g.cells in
      record {
        grid = record {
          wide = g.wide;
          high = g.high;
          cells = g.cells;
          column = g.column;
          row = g.row;
          roomy = g.roomy;
        };
        typing = refl;
        room = ap length same.buffer ∙ room;
        current = refl;
        text = refl;
        behind = omega (arith, inside, cells);
        left = same.left;
        right = same.right;
        shift = same.shift ∙ shift;
        caps = same.caps;
      })

-- After the prompt, on a terminal whose cursor is in a grid with room for 128 characters above its
-- last line and whose shift flag is that of its two shift keys, at most 127 keys of the tables, none of
-- them the enter key, and then the enter key end the line, with what the line editor makes of the keys
-- in `typingBuffer` and a 0 behind it.
pub prompt-Entered :
    (directory : List ℕ) (keys : List (ℕ × Bool)) (t : Terminal)
    → Grid t
    → length t.typing_buffer ≡ 128
    → t.shift ≡ (t.left_shift || t.right_shift)
    → Keys keys
    → length keys ≤ 127
    → (u : Terminal) × (type_keys (keys ++ (28, true) ∷ []) (prompt directory t) ≡ some u)
      × Entered (edit_all keys (fresh t)).text u
prompt-Entered directory keys t grid room shift known few =
    type_keys-Entered keys (prompt directory t) (fresh t) known (omega (arith, few))
      (prompt-Shows directory t grid room shift)
