-- ===== src/Terminal/Glyphs.antt =====
-- The characters that the terminal draws: what is printed, in order.
use mathlib.Core.List.{append_assoc, append-nil}
use korby_os.Base.{
  ℕ, ◌+◌, ◌*◌, ◌≡◌, ◌≢◌, refl, sym, ap, ap₂, subst, ◌∙◌, false, not, some, List, [], ◌∷◌, ◌++◌,
  ◌==◌, if◌then◌else◌, if_both, if_pair, ltb, u32, u64, sub64, set, length, through, arith,
}
use korby_os.Terminal.{
  Terminal, Draw, rectangle, character, drop, fill, Colour, black, normal, fill_cursor, next_line,
  put, put_all, terminal_print, prompt, backspace, store, type_character,
}

-- The characters of the calls.
unfoldable pub glyphs : List Draw → List ℕ
glyphs [] = []
glyphs (character c x y ∷ calls) = c ∷ glyphs calls
glyphs (rectangle x y w h colour ∷ calls) = glyphs calls
glyphs (drop ∷ calls) = glyphs calls
glyphs (fill ∷ calls) = glyphs calls

-- A message without its line ends.
unfoldable pub printed : List ℕ → List ℕ
printed [] = []
printed (c ∷ message) = (if c == b'\n' then [] else c ∷ []) ++ printed message

glyphs-append : (a b : List Draw) → glyphs (a ++ b) ≡ glyphs a ++ glyphs b
unfolding glyphs
glyphs-append [] b = refl
glyphs-append (character c x y ∷ a) b = ap (λ l. c ∷ l) (glyphs-append a b)
glyphs-append (rectangle x y w h colour ∷ a) b = glyphs-append a b
glyphs-append (drop ∷ a) b = glyphs-append a b
glyphs-append (fill ∷ a) b = glyphs-append a b

-- Rectangles and moved lines draw no character.
unwritten : (a b : List Draw) → glyphs b ≡ [] → glyphs (a ++ b) ≡ glyphs a
unwritten a b e = glyphs-append a b ∙ (ap (λ l. glyphs a ++ l) e ∙ append-nil (glyphs a))

pub fill_cursor-glyphs :
    (c : Colour) (t : Terminal) → glyphs (fill_cursor c t).drawn ≡ glyphs t.drawn
unfolding glyphs
fill_cursor-glyphs c t = unwritten t.drawn _ refl

next_line-glyphs : (t : Terminal) → glyphs (next_line t).drawn ≡ glyphs t.drawn
unfolding next_line glyphs
next_line-glyphs t =
    if_both (λ (u : Terminal). glyphs u.drawn ≡ glyphs t.drawn)
      (not (u32 (t.cursor_y + 1) == t.height)) (λ _. refl) (λ _. unwritten t.drawn _ refl)

put-glyphs :
    (c : ℕ) (t : Terminal)
    → glyphs (put c t).drawn ≡ glyphs t.drawn ++ (if c == b'\n' then [] else c ∷ [])
unfolding put glyphs
put-glyphs c t =
    if_pair (λ (u : Terminal) (l : List ℕ). glyphs u.drawn ≡ glyphs t.drawn ++ l) (c == b'\n')
      (λ _. next_line-glyphs t ∙ sym (append-nil (glyphs t.drawn)))
      (λ _.
        if_both (λ (u : Terminal). glyphs u.drawn ≡ glyphs t.drawn ++ c ∷ [])
          (u32 (t.cursor_x + 1) == t.width) (λ _. next_line-glyphs _ ∙ glyphs-append t.drawn _)
          (λ _. glyphs-append t.drawn _))

put_all-glyphs :
    (message : List ℕ) (t : Terminal)
    → glyphs (put_all message t).drawn ≡ glyphs t.drawn ++ printed message
unfolding put_all printed
put_all-glyphs [] t = sym (append-nil (glyphs t.drawn))
put_all-glyphs (c ∷ message) t =
    put_all-glyphs message (put c t)
    ∙ (ap (λ l. l ++ printed message) (put-glyphs c t)
        ∙ append_assoc (glyphs t.drawn) (if c == b'\n' then [] else c ∷ []) (printed message))

pub terminal_print-glyphs :
    (message : List ℕ) (t : Terminal)
    → glyphs (terminal_print message t).drawn ≡ glyphs t.drawn ++ printed message
unfolding terminal_print
terminal_print-glyphs message t =
    fill_cursor-glyphs normal (put_all message (fill_cursor black t))
    ∙ (put_all-glyphs message (fill_cursor black t)
        ∙ ap (λ l. l ++ printed message) (fill_cursor-glyphs black t))

pub prompt-glyphs :
    (directory : List ℕ) (t : Terminal)
    → glyphs (prompt directory t).drawn ≡ glyphs t.drawn ++ printed directory
unfolding prompt
prompt-glyphs directory t = terminal_print-glyphs directory t

pub backspace-glyphs : (t : Terminal) → glyphs (backspace t).drawn ≡ glyphs t.drawn
unfolding backspace glyphs
backspace-glyphs t =
    (let taken : Terminal = record t { typing_current = sub64 t.typing_current 1 } in
      let u = fill_cursor black taken in
      let same : glyphs (u.drawn) ≡ glyphs t.drawn = fill_cursor-glyphs black taken in
      if_both (λ (u : Terminal). glyphs u.drawn ≡ glyphs t.drawn)
        (ltb t.typing_start (u32 (t.cursor_x + t.cursor_y * t.width)))
        (λ _.
          if_both (λ (u : Terminal). glyphs (fill_cursor normal u).drawn ≡ glyphs t.drawn)
            (ltb 0 t.cursor_x) (λ _. unwritten u.drawn _ refl ∙ same)
            (λ _. unwritten u.drawn _ refl ∙ same))
        (λ _. refl))

-- What is known of a terminal is known of the same one as a result.
pub given :
    (a b : Terminal) (l : List ℕ) → some a ≡ some b → glyphs a.drawn ≡ l → glyphs b.drawn ≡ l
given a b l e h = (let same : a ≡ b = cc in subst (λ (u : Terminal). glyphs u.drawn ≡ l) same h)

store-drawn : (c : ℕ) (t u : Terminal) → store c t ≡ some u → u.drawn ≡ t.drawn
unfolding store
store-drawn c t u =
    if_both (λ o. o ≡ some u → u.drawn ≡ t.drawn) (ltb t.typing_current (length t.typing_buffer))
      (λ _ e. sym (
        let same : record t { typing_buffer = set t.typing_buffer t.typing_current c } ≡ u = cc in
        ap (λ (v : Terminal). v.drawn) same))
      (λ _ e. absurd (cc))

pub type_character-glyphs :
    (c : ℕ) (t u : Terminal)
    → c ≢ b'\n'
    → type_character c t ≡ some u
    → glyphs u.drawn ≡ glyphs t.drawn ++ c ∷ []
unfolding type_character printed
type_character-glyphs c t u shown e =
    (let (v, stores, prints) = through (store c t) _ u e in
      given _ u _ prints (
        terminal_print-glyphs (c ∷ []) (record v { typing_current = u64 (v.typing_current + 1) })
        ∙ ap₂ (λ a b. glyphs a ++ b) (store-drawn c t v stores)
            (ap (λ b. (if b then [] else c ∷ []) ++ [])
              (let other : (c == b'\n') ≡ false = ground (arith, shown) in other))))
