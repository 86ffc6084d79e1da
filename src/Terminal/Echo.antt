-- ===== src/Terminal/Echo.antt =====
-- What a key draws: the character that it types.
use mathlib.Core.List.{append-nil}
use korby_os.Base.{
  ℕ, zero, suc, ◌≡◌, ◌≢◌, ◌<◌, refl, sym, ap₂, subst, ◌∙◌, Bool, false, not, ◌||◌, Option, some,
  List, [], ◌∷◌, ◌++◌, ◌==◌, if◌then◌else◌, if_both, if_pair, has, get_or, get_elem?, length, arith,
  ◌>>=◌,
}
use korby_os.Terminal.Keys.{scancodes, caps_scancodes}
use korby_os.Terminal.{Terminal, backspace, character_of, other_key, type_key, type_character}
use korby_os.Terminal.Glyphs.{glyphs, given, backspace-glyphs, type_character-glyphs}
use korby_os.Terminal.Line.{Line, character, edit, Shows}

lookup : (i : ℕ) (xs : List ℕ) → i < length xs → get_elem? xs i ≡ some (get_or xs i 0)
lookup i [] room = absurd (omega (arith, room))
lookup zero (x ∷ xs) room = refl
lookup (suc i) (x ∷ xs) room = lookup i xs (omega (arith, room))

get_or-has : (i : ℕ) (xs : List ℕ) → has b'\n' xs ≡ false → get_or xs i 0 ≢ b'\n'
get_or-has i [] free e = omega (arith, e)
get_or-has zero (x ∷ xs) free e = ground (arith, free, e)
get_or-has (suc i) (x ∷ xs) free e = get_or-has i xs (ground (arith, free)) e

-- The character that the tables have for a key of the line.
pub character-found :
    (scancode : ℕ) (t : Terminal) (l : Line)
    → scancode < 90
    → Shows t l
    → character_of t.caps t.shift scancode ≡ some (character scancode l)
character-found scancode t l known s =
    ap₂ (λ caps shift. character_of caps shift scancode) s.caps s.shift
    ∙ if_pair (λ table c. get_elem? table scancode ≡ some c)
        (if l.caps then not (l.left || l.right) else l.left || l.right)
        (λ _. lookup scancode caps_scancodes known) (λ _. lookup scancode scancodes known)

pub character-shown : (scancode : ℕ) (l : Line) → character scancode l ≢ b'\n'
character-shown scancode l =
    if_both (λ c. c ≢ b'\n') (if l.caps then not (l.left || l.right) else l.left || l.right)
      (λ _. get_or-has scancode caps_scancodes refl) (λ _. get_or-has scancode scancodes refl)

-- The character that a key types on a line, if any; in particular backspace draws none.
unfoldable pub echo : ℕ → Bool → Line → List ℕ
echo scancode pressed l =
    if scancode == 14
    then []
    else if scancode == 42
    then []
    else if scancode == 54
    then []
    else if scancode == 58
    then []
    else if pressed
    then (if character scancode l == 0 then [] else character scancode l ∷ [])
    else []

-- The characters that keys type, one after the other.
unfoldable pub echo_all : List (ℕ × Bool) → Line → List ℕ
echo_all [] l = []
echo_all ((scancode, pressed) ∷ keys) l =
    echo scancode pressed l ++ echo_all keys (edit scancode pressed l)

module _ (scancode : ℕ) (pressed : Bool) (t u : Terminal) (l : Line) where
  -- A result that is `u` has drawn the characters.
  abbrev Draws : Option Terminal → List ℕ → Type 0
  Draws o text = o ≡ some u → glyphs u.drawn ≡ glyphs t.drawn ++ text

  nothing_new : (v : Terminal) → glyphs v.drawn ≡ glyphs t.drawn → Draws (some v) []
  nothing_new v same e = given v u _ e (same ∙ sym (append-nil (glyphs t.drawn)))

  other_key-glyphs :
      scancode < 90
      → Shows t l
      → Draws
          (other_key scancode t)
          (if character scancode l == 0 then [] else character scancode l ∷ [])
  other_key-glyphs known s =
      subst
        (λ o.
          Draws (o >>= λ c. if c == 0 then some t else type_character c t)
            (if character scancode l == 0 then [] else character scancode l ∷ []))
        (sym (character-found scancode t l known s))
        (if_pair Draws (character scancode l == 0) (λ _. nothing_new t refl)
          (λ _ e. type_character-glyphs (character scancode l) t u (character-shown scancode l) e))

  pub type_key-glyphs :
      scancode < 90
      → scancode ≢ 28
      → Shows t l
      → Draws (type_key scancode pressed t) (echo scancode pressed l)
  unfolding type_key echo
  type_key-glyphs known other s =
      if_pair Draws (scancode == 14)
        (λ _.
          if_both (λ v. Draws (some v) []) pressed
            (λ _. nothing_new (backspace t) (backspace-glyphs t)) (λ _. nothing_new t refl))
        (λ _.
          if_both
            (λ o. Draws o (
              if scancode == 42
              then []
              else if scancode == 54
              then []
              else if scancode == 58
              then []
              else if pressed
              then (if character scancode l == 0 then [] else character scancode l ∷ [])
              else []))
            (scancode == 28) (λ enter. absurd (other (ground arith)))
            (λ _.
              if_pair Draws (scancode == 42) (λ _. nothing_new _ refl)
                (λ _.
                  if_pair Draws (scancode == 54) (λ _. nothing_new _ refl)
                    (λ _.
                      if_pair Draws (scancode == 58)
                        (λ _.
                          if_both (λ v. Draws (some v) []) pressed (λ _. nothing_new _ refl)
                            (λ _. nothing_new t refl))
                        (λ _.
                          if_pair Draws pressed (λ _. other_key-glyphs known s)
                            (λ _. nothing_new t refl))))))
