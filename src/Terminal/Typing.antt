-- ===== src/Terminal/Typing.antt =====
-- The keys of a line: each does to the terminal what the line editor does to the text.
use mathlib.Core.List.{append_assoc, append-nil}
use korby_os.Base.{
  bind-some, ◌++◌, ℕ, suc, ◌+◌, ◌≤◌, ◌<◌, ◌≡◌, ◌≢◌, refl, sym, ap, subst, ◌∙◌, Bool, not, ◌||◌,
  Option, some, List, [], ◌∷◌, ◌==◌, if◌then◌else◌, length, length-append, if_yes, All, arith,
  if_both, if_pair, ◌>>=◌,
}
use korby_os.Terminal.{Terminal, type_character, type_key, type_keys, other_key}
use korby_os.Terminal.Glyphs.{glyphs}
use korby_os.Terminal.Echo.{character-found, character-shown, echo, echo_all, type_key-glyphs}
use korby_os.Terminal.Line.{
  Line, drop_last, character, append, edit_other, edit, edit_all, Shows, backspace-Shows,
  type_character-Shows,
}

-- A result that holds the line.
abbrev Gives : Option Terminal → Line → Type 0
Gives o l = (u : Terminal) × (o ≡ some u) × Shows u l

-- A key that is in both tables, by the table that the shift keys and caps lock choose.
other_key-Shows :
    (scancode : ℕ) (t : Terminal) (l : Line)
    → scancode < 90
    → length l.text ≤ 126
    → Shows t l
    → Gives (other_key scancode t) (append (character scancode l) l)
other_key-Shows scancode t l known few s =
    subst
      (λ o.
        Gives (o >>= λ c. if c == 0 then some t else type_character c t)
          (append (character scancode l) l))
      (sym (character-found scancode t l known s))
      (if_pair Gives (character scancode l == 0) (λ _. (t, refl, s))
        (λ _. type_character-Shows (character scancode l) t l (character-shown scancode l) few s))

-- The cursor, the text and the buffer stay when a shift key or caps lock changes.
modified :
    {t : Terminal} {l : Line} (left right shift caps left' right' caps' : Bool)
    → Shows t l
    → left ≡ left'
    → right ≡ right'
    → shift ≡ (left' || right')
    → caps ≡ caps'
    → Shows
        (record t { left_shift = left; right_shift = right; shift = shift; caps = caps })
        (record l { left = left'; right = right'; caps = caps' })
modified {t} _ _ _ _ _ _ _ s left right shift caps = record {
  grid = record {
    wide = s.grid.wide;
    high = s.grid.high;
    cells = s.grid.cells;
    column = s.grid.column;
    row = s.grid.row;
    roomy = s.grid.roomy;
  };
  typing = s.typing;
  room = s.room;
  current = s.current;
  text = s.text;
  behind = s.behind;
  left = left;
  right = right;
  shift = shift;
  caps = caps;
}

type_key-Shows :
    (scancode : ℕ) (pressed : Bool) (t : Terminal) (l : Line)
    → scancode < 90
    → scancode ≢ 28
    → length l.text ≤ 126
    → Shows t l
    → Gives (type_key scancode pressed t) (edit scancode pressed l)
unfolding type_key edit
type_key-Shows scancode pressed t l known other few s =
    if_pair Gives (scancode == 14)
      (λ _.
        (_, refl, if_pair Shows pressed (λ _. backspace-Shows t l (omega (arith, few)) s) (λ _. s)))
      (λ _.
        if_both (λ o. Gives o (edit_other scancode pressed l)) (scancode == 28)
          (λ enter. absurd (other (ground arith)))
          (λ _.
            if_pair Gives (scancode == 42)
              (λ _. (
                _,
                refl,
                modified _ _ _ _ _ _ _ s refl s.right (ap (λ b. pressed || b) s.right) s.caps,
              ))
              (λ _.
                if_pair Gives (scancode == 54)
                  (λ _. (
                    _,
                    refl,
                    modified _ _ _ _ _ _ _ s s.left refl (ap (λ b. b || pressed) s.left) s.caps,
                  ))
                  (λ _.
                    if_pair Gives (scancode == 58)
                      (λ _. (
                        _,
                        refl,
                        if_pair Shows pressed
                            (λ _. modified _ _ _ _ _ _ _ s s.left s.right s.shift (ap not s.caps))
                            (λ _. s),
                      ))
                      (λ _.
                        if_pair Gives pressed (λ _. other_key-Shows scancode t l known few s)
                          (λ _. (t, refl, s)))))))

length-drop_last : (text : List ℕ) → length (drop_last text) ≤ length text
unfolding drop_last
length-drop_last [] = omega arith
length-drop_last (c ∷ []) = omega arith
length-drop_last (c ∷ d ∷ text) = omega (arith, length-drop_last (d ∷ text))

-- A key adds at most one character.
length-edit :
    (scancode : ℕ) (pressed : Bool) (l : Line)
    → length (edit scancode pressed l).text ≤ suc (length l.text)
unfolding edit
length-edit scancode pressed l =
    (let same : length l.text ≤ suc (length l.text) = omega arith in
      let Short = λ (k : Line). length k.text ≤ suc (length l.text) in
      if_both Short (scancode == 14)
        (λ _. if_both Short pressed (λ _. omega (arith, length-drop_last l.text)) (λ _. same))
        (λ _.
          if_both Short (scancode == 42) (λ _. same)
            (λ _.
              if_both Short (scancode == 54) (λ _. same)
                (λ _.
                  if_both Short (scancode == 58)
                    (λ _. if_both Short pressed (λ _. same) (λ _. same))
                    (λ _.
                      if_both Short pressed
                        (λ _.
                          if_both Short (character scancode l == 0) (λ _. same)
                            (λ _. omega (arith, length-append l.text (character scancode l ∷ []))))
                        (λ _. same))))))

pub length-edit_all :
    (keys : List (ℕ × Bool)) (l : Line)
    → length (edit_all keys l).text ≤ length l.text + length keys
unfolding edit_all
length-edit_all [] l = omega arith
length-edit_all ((scancode, pressed) ∷ keys) l =
    omega (arith, length-edit_all keys (edit scancode pressed l), length-edit scancode pressed l)

-- Keys that are in the tables, none of them the enter key.
abbrev pub Keys : List (ℕ × Bool) → Type 0
Keys = All (λ key. (key.0 < 90) × (key.0 ≢ 28))

-- A terminal that holds a line is one whose `typingBuffer` has the line's text in front, with the cursor
-- behind it and the shift keys and caps lock of the line. On such a one, keys that are in the tables,
-- none of them the enter key, are handled without a write outside the buffer, if the line's text and the
-- keys are at most 127 together. The terminal then holds what the line editor makes of the line, and
-- behind the characters that were drawn before it has drawn those that the keys typed, in order.
pub type_keys-Shows :
    (keys : List (ℕ × Bool)) (t : Terminal) (l : Line)
    → Keys keys
    → length l.text + length keys ≤ 127
    → Shows t l
    → (u : Terminal) × (type_keys keys t ≡ some u)
      × Shows u (edit_all keys l)
      × (glyphs u.drawn ≡ glyphs t.drawn ++ echo_all keys l)
unfolding type_keys edit_all echo_all
type_keys-Shows [] t l known few s = (t, refl, s, sym (append-nil (glyphs t.drawn)))
type_keys-Shows ((scancode, pressed) ∷ keys) t l known few s =
    (let (v, types, next) =
        type_key-Shows scancode pressed t l known.0.0 known.0.1 (omega (arith, few)) s in
      let (u, later, shows, drawn) =
        type_keys-Shows keys v (edit scancode pressed l) known.1
          (omega (arith, few, length-edit scancode pressed l)) next in
      (
        u,
        bind-some _ (if_yes _ _ s.typing ∙ types) later,
        shows,
        drawn
            ∙ (ap (λ g. g ++ echo_all keys (edit scancode pressed l))
                  (type_key-glyphs scancode pressed t v l known.0.0 known.0.1 s types)
                ∙ append_assoc (glyphs t.drawn) (echo scancode pressed l)
                    (echo_all keys (edit scancode pressed l))),
      ))
