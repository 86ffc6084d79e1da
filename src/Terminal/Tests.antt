-- ===== src/Terminal/Tests.antt =====
-- A terminal of 40 by 10 characters: a line that is typed, and the theorems applied to it.
use korby_os.Base.{ℕ, ◌≡◌, refl, Bool, true, false, some, List, [], ◌∷◌, ◌++◌, arith}
use korby_os.Terminal.{Terminal, prompt, terminal_print, type_keys}
use korby_os.Terminal.Example.{cleared, cleared-Grid}
use korby_os.Terminal.Entered.{Entered, fresh, prompt-Shows, prompt-Entered}
use korby_os.Terminal.Line.{edit_all, edit, drop_last, Shows}
use korby_os.Terminal.Glyphs.{glyphs}
use korby_os.Terminal.Echo.{echo_all, echo}
use korby_os.Terminal.Typing.{Keys, type_keys-Shows}
use korby_os.Terminal.Print.{Grid, terminal_print-Grid}

-- A shifted D, an x that is taken back, an i and an r.
abbrev typed : List (ℕ × Bool)
typed =
    (42, true) ∷ (32, true) ∷ (42, false) ∷ (45, true) ∷ (14, true) ∷ (23, true) ∷ (19, true) ∷ []

edited : (edit_all typed (fresh cleared)).text ≡ b'D' ∷ b'i' ∷ b'r' ∷ []
unfolding edit_all edit drop_last
edited = refl

echoed : echo_all typed (fresh cleared) ≡ b'D' ∷ b'x' ∷ b'i' ∷ b'r' ∷ []
unfolding echo_all echo edit drop_last
echoed = refl

typed-Keys : Keys typed
typed-Keys = (
  (omega arith, λ e. omega (arith, e)),
  (
    (omega arith, λ e. omega (arith, e)),
    (
      (omega arith, λ e. omega (arith, e)),
      (
        (omega arith, λ e. omega (arith, e)),
        (
          (omega arith, λ e. omega (arith, e)),
          ((omega arith, λ e. omega (arith, e)), ((omega arith, λ e. omega (arith, e)), _)),
        ),
      ),
    ),
  ),
)

prompt-Entered_example :
    (u : Terminal) × (type_keys (typed ++ (28, true) ∷ []) (prompt (b'/' ∷ []) cleared) ≡ some u)
    × Entered (edit_all typed (fresh cleared)).text u
prompt-Entered_example =
    prompt-Entered (b'/' ∷ []) typed cleared cleared-Grid refl refl typed-Keys (omega arith)

terminal_print-Grid_example : Grid (terminal_print (b'h' ∷ b'i' ∷ b'\n' ∷ []) cleared)
terminal_print-Grid_example = terminal_print-Grid (b'h' ∷ b'i' ∷ b'\n' ∷ []) cleared cleared-Grid

type_keys-Shows_example :
    (u : Terminal) × (type_keys typed (prompt (b'/' ∷ []) cleared) ≡ some u)
    × Shows u (edit_all typed (fresh cleared))
    × (glyphs u.drawn ≡ glyphs (prompt (b'/' ∷ []) cleared).drawn ++ echo_all typed (fresh cleared))
type_keys-Shows_example =
    type_keys-Shows typed (prompt (b'/' ∷ []) cleared) (fresh cleared) typed-Keys (omega arith)
      (prompt-Shows (b'/' ∷ []) cleared cleared-Grid refl refl)
