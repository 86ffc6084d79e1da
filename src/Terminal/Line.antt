-- ===== src/Terminal/Line.antt =====
-- Typing a line: what the keys do to the terminal is what a line editor does to its text.
use korby_os.Base.{
  ℕ, zero, suc, ◌+◌, ◌≤◌, ◌≡◌, ◌≢◌, refl, sym, ap, ap₂, subst, ◌∙◌, Bool, true, not, ◌||◌, none,
  some, List, [], ◌∷◌, ◌++◌, ◌==◌, if◌then◌else◌, ltb, u64, sub64, length, get_or, set, take,
  take-set, length-set, length-append, if_yes, tail, length-cases, arith, inl, inr, ◌>>=◌,
}
use korby_os.Terminal.Keys.{scancodes, caps_scancodes}
use korby_os.Terminal.{Terminal, backspace, store, type_character, terminal_print}
use korby_os.Terminal.Print.{Grid, Behind, Same, terminal_print-Shown}
use korby_os.Terminal.Backspace.{backspace-empty, backspace-TakenBack}

-- A line editor: the text, the two shift keys and caps lock.
pub record Line : Type 0 where
  pub text : List ℕ
  pub left : Bool
  pub right : Bool
  pub caps : Bool

unfoldable pub drop_last : List ℕ → List ℕ
drop_last [] = []
drop_last (c ∷ []) = []
drop_last (c ∷ d ∷ text) = c ∷ drop_last (d ∷ text)

-- Caps lock turns the shift keys around; a key without a character has 0.
abbrev pub character : ℕ → Line → ℕ
character scancode l =
    if (if l.caps then not (l.left || l.right) else l.left || l.right)
    then get_or caps_scancodes scancode 0
    else get_or scancodes scancode 0

abbrev pub append : ℕ → Line → Line
append c l = if c == 0 then l else record l { text = l.text ++ c ∷ [] }

abbrev pub edit_other : ℕ → Bool → Line → Line
edit_other scancode pressed l =
    if scancode == 42
    then record l { left = pressed }
    else if scancode == 54
    then record l { right = pressed }
    else if scancode == 58
    then (if pressed then record l { caps = not l.caps } else l)
    else if pressed
    then append (character scancode l) l
    else l

unfoldable pub edit : ℕ → Bool → Line → Line
edit scancode pressed l =
    if scancode == 14
    then (if pressed then record l { text = drop_last l.text } else l)
    else edit_other scancode pressed l

unfoldable pub edit_all : List (ℕ × Bool) → Line → Line
edit_all [] l = l
edit_all ((scancode, pressed) ∷ keys) l = edit_all keys (edit scancode pressed l)

-- The terminal holds the line: `typingBuffer` has its text in front, the cursor stands behind it, and the
-- shift keys and caps lock are the line's.
pub record Shows (t : Terminal) (l : Line) : Type 0 where
  pub grid : Grid t
  pub typing : t.typing ≡ true
  pub room : length t.typing_buffer ≡ 128
  pub current : t.typing_current ≡ length l.text
  pub text : take (length l.text) t.typing_buffer ≡ l.text
  pub behind : Behind (length l.text) t
  pub left : t.left_shift ≡ l.left
  pub right : t.right_shift ≡ l.right
  pub shift : t.shift ≡ (l.left || l.right)
  pub caps : t.caps ≡ l.caps

take-drop_last :
    (n : ℕ) (xs text : List ℕ)
    → length text ≡ suc n
    → take (suc n) xs ≡ text
    → (length (drop_last text) ≡ n) × (take n xs ≡ drop_last text)
unfolding drop_last
take-drop_last n xs [] size e = absurd (omega (arith, size))
take-drop_last n [] (c ∷ text) size e = absurd (omega (arith, ap length e))
take-drop_last zero (x ∷ xs) (c ∷ []) size e = (refl, refl)
take-drop_last zero (x ∷ xs) (c ∷ d ∷ text) size e = absurd (omega (arith, size))
take-drop_last (suc n) (x ∷ xs) (c ∷ []) size e = absurd (omega (arith, size))
take-drop_last (suc n) (x ∷ xs) (c ∷ d ∷ text) size e =
    (let rest = take-drop_last n xs (d ∷ text) (omega (arith, size)) (ap tail e) in
      (ap suc rest.0, ap₂ (λ a l. a ∷ l) (ap (λ l. get_or l 0 0) e) rest.1))

-- The buffer holds another text, and the cursor is behind it.
retyped :
    {t u : Terminal} (l : Line) (text buffer : List ℕ) (current : ℕ)
    → Shows t l
    → Grid u
    → Behind (length text) u
    → Same (record t { typing_current = current; typing_buffer = buffer }) u
    → length buffer ≡ 128
    → current ≡ length text
    → take (length text) buffer ≡ text
    → Shows u (record l { text = text })
retyped l text buffer current s g behind same room size e = record {
  grid = g;
  typing = same.typing ∙ s.typing;
  room = ap length same.buffer ∙ room;
  current = same.current ∙ size;
  text = ap (take (length text)) same.buffer ∙ e;
  behind = behind;
  left = same.left ∙ s.left;
  right = same.right ∙ s.right;
  shift = same.shift ∙ s.shift;
  caps = same.caps ∙ s.caps;
}

-- The backspace key takes the last character back, if there is one.
pub backspace-Shows :
    (t : Terminal) (l : Line)
    → length l.text ≤ 127
    → Shows t l
    → Shows (backspace t) (record l { text = drop_last l.text })
unfolding drop_last
backspace-Shows t l few s = elim (length-cases l.text) [
  | inl empty ↦
      (let still =
          backspace-empty t s.grid (s.behind ∙ ap (λ text. t.typing_start + length text) empty) in
        subst (λ u. Shows u (record l { text = drop_last l.text })) (sym still)
          (subst (λ text. Shows t (record l { text = text })) (empty ∙ sym (ap drop_last empty)) s))
  | inr (n, size) ↦
      (let back = backspace-TakenBack n t s.grid (s.behind ∙ ap (λ k. t.typing_start + k) size) in
        let dropped =
          take-drop_last n t.typing_buffer l.text size
            (ap (λ k. take k t.typing_buffer) (sym size) ∙ s.text) in
        let current = s.current in
        retyped l (drop_last l.text) t.typing_buffer (sub64 t.typing_current 1) s back.grid
          (subst (λ k. Behind k (backspace t)) (sym dropped.0) back.behind) back.same s.room
          (omega (arith, dropped.0, size, few, current))
          (ap (λ k. take k t.typing_buffer) dropped.0 ∙ dropped.1))
]

-- A character is written behind the text.
pub type_character-Shows :
    (c : ℕ) (t : Terminal) (l : Line)
    → c ≢ b'\n'
    → length l.text ≤ 126
    → Shows t l
    → (u : Terminal) × (type_character c t ≡ some u)
      × Shows u (record l { text = l.text ++ c ∷ [] })
unfolding type_character store
type_character-Shows c t l newline few s =
    (let current = s.current in
      let room = s.room in
      let stored = record t {
        typing_buffer = set t.typing_buffer t.typing_current c;
        typing_current = u64 (t.typing_current + 1);
      } in
      let print =
        terminal_print-Shown (length l.text) c stored
          record {
            wide = s.grid.wide;
            high = s.grid.high;
            cells = s.grid.cells;
            column = s.grid.column;
            row = s.grid.row;
            roomy = s.grid.roomy;
          }
          newline few s.behind in
      let longer : length (l.text ++ c ∷ []) ≡ suc (length l.text) =
        length-append l.text (c ∷ []) ∙ omega arith in
      (
        terminal_print (c ∷ []) stored,
        ap
            (λ o. o >>= λ u.
              some (
                terminal_print (c ∷ []) (record u { typing_current = u64 (u.typing_current + 1) })))
            (if_yes {b = ltb t.typing_current (length t.typing_buffer)}
              (some (record t { typing_buffer = set t.typing_buffer t.typing_current c })) none
              (ground (arith, few))),
        retyped l (l.text ++ c ∷ []) (set t.typing_buffer t.typing_current c)
            (u64 (t.typing_current + 1)) s print.grid
            (subst (λ k. Behind k (terminal_print (c ∷ []) stored)) (sym longer) print.behind)
            print.same (length-set t.typing_buffer t.typing_current c ∙ s.room)
            (omega (arith, longer, few))
            (ap₂ (λ k i. take k (set t.typing_buffer i c)) longer current
              ∙ (take-set (length l.text) c t.typing_buffer (omega (arith, few))
                  ∙ ap (λ x. x ++ c ∷ []) s.text)),
      ))
