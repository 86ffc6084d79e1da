-- ===== src/Programs/Terminals.antt =====
-- The terminals of src/main.c: `registerTerminal`, `print` and `unregisterTerminal`.
--
-- A program's `Terminal` is its id. The program that calls is told by its pid, and none is the
-- kernel itself. The blocks of the list's nodes are left out.
use mathlib.Core.Option.{some-injective}
use korby_os.Base.{
  bind-some, ℕ, zero, suc, ◌^◌, ◌<◌, subst, ◌≡◌, ◌≢◌, refl, sym, ap, ◌∙◌, true, Option, none, some,
  List, [], ◌∷◌, ◌++◌, ◌==◌, if◌then◌else◌, if_yes, if_both, length, get_elem?, set, has, arith,
  ◌>>=◌,
}
use korby_os.Programs.{Program, Programs, is_running, execute, terminal_of, free_id}
use korby_os.Programs.Pids.{execute-IsNext}
use korby_os.Programs.Handlers.{IsFree, free_id-IsFree}

-- `terminals`, an array of 256, `terminalIds` and the programs.
pub record Session : Type 0 where
  pub functions : List ℕ
  pub ids : List ℕ
  pub programs : Programs

unfoldable pub program_at : ℕ → List Program → Option Program
program_at pid [] = none
program_at pid (p ∷ rest) = if pid == p.pid then some p else program_at pid rest

-- `currentProgram`.
abbrev pub current : Option ℕ → List Program → Option Program
current none running = none
current (some pid) running = program_at pid running

-- `currentProgram->terminalId = id;`
unfoldable pub give_terminal : ℕ → ℕ → List Program → List Program
give_terminal pid id [] = []
give_terminal pid id (p ∷ rest) =
    if pid == p.pid then record p { terminal_id = id } ∷ rest else p ∷ give_terminal pid id rest

unfoldable pub register_terminal : ℕ → ℕ → Session → Option Session
register_terminal function pid s = free_id 0 s.functions >>= λ id. some (record {
  functions = set s.functions id function;
  ids = s.ids ++ id ∷ [];
  programs = record s.programs { running = give_terminal pid id s.programs.running };
})

-- The function that `print` calls; a call of NULL is `none`.
abbrev pub called : Option ℕ → Option ℕ
called none = none
called (some zero) = none
called (some (suc f)) = some (suc f)

unfoldable pub print_function : Option ℕ → Session → Option ℕ
print_function pid s = called (get_elem? s.functions (terminal_of (current pid s.programs.running)))

-- The loop of `unregisterTerminal`, which goes on after an entry that it removes.
unfoldable pub drop_terminal : ℕ → List ℕ → List ℕ
drop_terminal id [] = []
drop_terminal id (i ∷ rest) =
    let later = drop_terminal id rest in if i == id then later else i ∷ later

unfoldable pub unregister_terminal : ℕ → Session → Session
unregister_terminal pid s =
    (let id = terminal_of (program_at pid s.programs.running) in
      if has id s.ids
      then record s { functions = set s.functions id 0; ids = drop_terminal id s.ids }
      else s)

-- `execute`, called by a program or by the kernel.
unfoldable pub execute_from : Option ℕ → Session → Option (ℕ × Session)
execute_from pid s = execute (current pid s.programs.running) s.programs >>= λ r.
    some (r.0, record s { programs = r.1 })

program_at-give_terminal :
    (pid id : ℕ) (running : List Program)
    → is_running pid running ≡ true
    → terminal_of (program_at pid (give_terminal pid id running)) ≡ id
unfolding program_at give_terminal is_running
program_at-give_terminal pid id [] there = absurd (ground (arith, there))
program_at-give_terminal pid id (p ∷ rest) there =
    let later = program_at-give_terminal pid id rest in ground (arith, there, later)

program_at-other :
    (pid id q : ℕ) (running : List Program)
    → q ≢ pid
    → terminal_of (program_at q (give_terminal pid id running)) ≡ terminal_of (program_at q running)
unfolding program_at give_terminal
program_at-other pid id q [] ne = refl
program_at-other pid id q (p ∷ rest) ne =
    let later = program_at-other pid id q rest ne in ground (arith, later, ne)

called-some : (o : Option ℕ) (f : ℕ) → called o ≡ some f → (o ≡ some f) × (f ≢ 0)
called-some none f e = absurd (cc)
called-some (some zero) f e = absurd (cc)
called-some (some (suc g)) f e = (e, λ z. omega (arith, z, some-injective (suc g) f e))

called-nonzero : (f : ℕ) → f ≢ 0 → called (some f) ≡ some f
called-nonzero zero ne = absurd (ne refl)
called-nonzero (suc f) ne = refl

-- What holds of a session in which a program has given itself a terminal.
pub record Registered (function pid : ℕ) (s t : Session) : Type 0 where
  pub own : print_function (some pid) t ≡ some function
  pub others :
      (q g : ℕ) → q ≢ pid → print_function (some q) s ≡ some g → print_function (some q) t ≡ some g
  pub kernel : (g : ℕ) → print_function none s ≡ some g → print_function none t ≡ some g
  pub child :
      (new : ℕ) × (u : Session) × (execute_from (some pid) t ≡ some (new, u))
      × (print_function (some new) u ≡ some function)

cleared : (functions : List ℕ) (id : ℕ) → called (get_elem? (set functions id 0) id) ≡ none
cleared [] id = refl
cleared (h ∷ functions) zero = refl
cleared (h ∷ functions) (suc id) = cleared functions id

-- A function that was reached before is reached after a free entry is taken.
kept :
    (functions : List ℕ) (index function id g : ℕ)
    → IsFree functions index
    → called (get_elem? functions id) ≡ some g
    → called (get_elem? (set functions index function) id) ≡ some g
kept functions index function id g f e =
    (let (at, nonzero) = called-some (get_elem? functions id) g e in
      let other : id ≢ index = (λ same.
        nonzero (some-injective g 0 (sym at ∙ (ap (get_elem? functions) same ∙ f.free)))) in
      ap called (f.others function id other) ∙ e)

length-give_terminal :
    (pid id : ℕ) (running : List Program) → length (give_terminal pid id running) ≡ length running
unfolding give_terminal
length-give_terminal pid id [] = refl
length-give_terminal pid id (p ∷ rest) =
    if_both (λ (l : List Program). length l ≡ suc (length rest)) (pid == p.pid) (λ _. refl)
      (λ _. ap suc (length-give_terminal pid id rest))

-- The last program that was executed is found first.
program_at-first :
    (pid terminal : ℕ) (running : List Program)
    → program_at pid (record { pid = pid; terminal_id = terminal } ∷ running)
      ≡ some (record { pid = pid; terminal_id = terminal })
unfolding program_at
program_at-first pid terminal running = if_yes {b = pid == pid} _ _ (ground arith)

-- A new program prints where the one that executed it does.
execute_from-print_function :
    (pid : Option ℕ) (t : Session) (function : ℕ)
    → print_function pid t ≡ some function
    → length t.programs.running < 2 ^ 64
    → (new : ℕ) × (u : Session) × (execute_from pid t ≡ some (new, u))
      × (print_function (some new) u ≡ some function)
unfolding execute_from print_function
execute_from-print_function pid t function prints few =
    (let by = current pid t.programs.running in
      let (new, executes, _) = execute-IsNext by t.programs few in
      (
        new,
        _,
        bind-some _ executes refl,
        ap (λ p. called (get_elem? t.functions (terminal_of p)))
              (program_at-first new (terminal_of by) t.programs.running)
            ∙ prints,
      ))

-- A running program registers a terminal function that is not NULL while an entry of the array is
-- free. From then on it prints with the function, so does a program that it executes, if there
-- are fewer than 2^64 programs, and whoever else printed with a function still does.
pub register_terminal-Registered :
    (function pid : ℕ) (s : Session)
    → function ≢ 0
    → is_running pid s.programs.running ≡ true
    → has 0 s.functions ≡ true
    → length s.programs.running < 2 ^ 64
    → (t : Session) × (register_terminal function pid s ≡ some t) × Registered function pid s t
unfolding register_terminal print_function
register_terminal-Registered function pid s real runs free few =
    (let (index, found, f) = free_id-IsFree 0 s.functions free in
      let t : Session = record {
        functions = set s.functions index function;
        ids = s.ids ++ index ∷ [];
        programs = record s.programs { running = give_terminal pid index s.programs.running };
      } in
      let own : print_function (some pid) t ≡ some function =
        ap (λ id. called (get_elem? t.functions id))
          (program_at-give_terminal pid index s.programs.running runs)
        ∙ (ap called (f.stored function) ∙ called-nonzero function real) in
      (
        t,
        ap
            (λ o. o >>= λ id. some (record {
              functions = set s.functions id function;
              ids = s.ids ++ id ∷ [];
              programs = record s.programs { running = give_terminal pid id s.programs.running };
            }))
            (found ∙ ap some (omega arith)),
        record {
          own = own;
          others = λ q g ne e.
              ap (λ id. called (get_elem? t.functions id))
                (program_at-other pid index q s.programs.running ne)
              ∙ kept s.functions index function _ g f e;
          kernel = λ g e. kept s.functions index function 0 g f e;
          child = execute_from-print_function (some pid) t function own (
              subst (λ (n : ℕ). n < 2 ^ 64)
                (sym (length-give_terminal pid index s.programs.running)) few);
        },
      ))

-- When the program with a terminal of its own gives it up, every running program with its terminal
-- calls NULL when it prints next.
pub unregister_terminal-none :
    (pid q : ℕ) (s : Session)
    → has (terminal_of (program_at pid s.programs.running)) s.ids ≡ true
    → terminal_of (program_at q s.programs.running)
      ≡ terminal_of (program_at pid s.programs.running)
    → print_function (some q) (unregister_terminal pid s) ≡ none
unfolding unregister_terminal print_function
unregister_terminal-none pid q s own shared =
    (let id = terminal_of (program_at pid s.programs.running) in
      ap (λ t. print_function (some q) t)
        (if_yes {b = has id s.ids}
          (record s { functions = set s.functions id 0; ids = drop_terminal id s.ids }) s own)
      ∙ (ap (λ i. called (get_elem? (set s.functions id 0) i)) shared ∙ cleared s.functions id))
