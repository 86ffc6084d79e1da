-- ===== src/Programs/Waiting.antt =====
-- Programs that wait for others: `waitForProgram`, `cancelWait` and `quit`.
use mathlib.Core.List.{append-nil, append_assoc}
use korby_os.Base.{
  ◌≢◌, if_yes, if_no, ap, ◌∙◌, ℕ, ◌≡◌, refl, Bool, true, false, ◌||◌, List, [], ◌∷◌, ◌++◌, ◌==◌,
  if◌then◌else◌, arith, Bool-cases, inl, inr,
}
use korby_os.Programs.{
  Program, WaitingProgram, Programs, is_running, raise, remove_program, notify, quit,
  wait_for_program, drop_waits, cancel_wait,
}

-- Some program waits for the pid, and some program watches the flag.
unfoldable pub awaited : ℕ → List WaitingProgram → Bool
awaited pid [] = false
awaited pid (w ∷ rest) = (w.waiting_pid == pid) || awaited pid rest

unfoldable pub watched : ℕ → List WaitingProgram → Bool
watched done [] = false
watched done (w ∷ rest) = (w.done == done) || watched done rest

abbrev pub wait : ℕ → ℕ → WaitingProgram
wait pid done = record { waiting_pid = pid; done = done }

-- `quit` finds the first one that waits for the pid.
pub notify-first :
    (pid done : ℕ) (before after : List WaitingProgram) (flag : ℕ → Bool)
    → awaited pid before ≡ false
    → notify pid (before ++ wait pid done ∷ after) flag ≡ (before ++ after, raise done flag)
unfolding notify awaited
notify-first pid done [] after flag none_before =
    let hit : (pid == pid) ≡ true = ground arith in rw hit
notify-first pid done (w ∷ before) after flag none_before =
    let miss : (w.waiting_pid == pid) ≡ false = ground arith in
    rw (miss, notify-first pid done before after flag (ground arith))

is_running-middle :
    (front : List Program) (p : Program) (back : List Program)
    → is_running p.pid (front ++ p ∷ back) ≡ true
unfolding is_running
is_running-middle [] p back = (let hit : (p.pid == p.pid) ≡ true = ground arith in rw hit)
is_running-middle (q ∷ front) p back = ground (arith, is_running-middle front p back)

remove_program-middle :
    (front : List Program) (p : Program) (back : List Program)
    → is_running p.pid front ≡ false
    → remove_program p.pid (front ++ p ∷ back) ≡ front ++ back
unfolding remove_program is_running
remove_program-middle [] p back out = (let hit : (p.pid == p.pid) ≡ true = ground arith in rw hit)
remove_program-middle (q ∷ front) p back out =
    ground (arith, out, remove_program-middle front p back)

-- What a program that quits leaves to those that were there.
pub record Left (front back : List Program) (done : ℕ) (s u : Programs) : Type 0 where
  pub running : u.running ≡ front ++ back
  pub waiting : u.waiting ≡ s.waiting
  pub told : u.flag done ≡ true
  pub others : (a : ℕ) → a ≢ done → u.flag a ≡ s.flag a

-- A program waits for another one that nobody else waits for, and that is the first in the list with its
-- pid. When that one quits, it is taken out of the list and the other programs stay, in order, the
-- flag that the first one watches is set, no other flag changes, and nobody new waits.
pub wait_for_program-quit :
    (front : List Program) (p : Program) (back : List Program) (done : ℕ) (s : Programs)
    → s.running ≡ front ++ p ∷ back
    → is_running p.pid front ≡ false
    → awaited p.pid s.waiting ≡ false
    → Left front back done s (quit p.pid (wait_for_program p.pid done s))
unfolding quit wait_for_program
wait_for_program-quit front p back done s order first free =
    (let runs : is_running p.pid s.running ≡ true =
        ap (is_running p.pid) order ∙ is_running-middle front p back in
      let told = notify-first p.pid done s.waiting [] s.flag free in
      let hit : (done == done) ≡ true = ground arith in
      rw runs (record {
        running = ap (remove_program p.pid) order ∙ remove_program-middle front p back first;
        waiting = ap (λ r. r.0) told ∙ append-nil s.waiting;
        told = ap (λ r. r.1 done) told ∙ if_yes {b = done == done} true (s.flag done) hit;
        others = λ a other.
            ap (λ r. r.1 a) told ∙ if_no {b = a == done} true (s.flag a) (ground (arith, other));
      }))

-- When two programs wait for the same one, and it quits, only the flag of the first to wait is
-- set, and the second goes on waiting for a pid that may be gone.
pub wait_for_program_twice-quit :
    (pid first second : ℕ) (s : Programs)
    → is_running pid s.running ≡ true
    → awaited pid s.waiting ≡ false
    → quit pid (wait_for_program pid second (wait_for_program pid first s)) ≡ record {
      running = remove_program pid s.running;
      waiting = s.waiting ++ wait pid second ∷ [];
      flag = raise first s.flag;
    }
unfolding quit wait_for_program
wait_for_program_twice-quit pid first second s runs free = rw (
  runs,
  runs,
  append_assoc s.waiting (wait pid first ∷ []) (wait pid second ∷ []),
  notify-first pid first s.waiting (wait pid second ∷ []) s.flag free,
)

drop_waits-snoc :
    (pid done : ℕ) (ws : List WaitingProgram)
    → watched done ws ≡ false
    → drop_waits done (ws ++ wait pid done ∷ []) ≡ ws
unfolding drop_waits watched
drop_waits-snoc pid done [] unseen = let hit : (done == done) ≡ true = ground arith in rw hit
drop_waits-snoc pid done (w ∷ ws) unseen =
    let miss : (w.done == done) ≡ false = ground arith in
    rw (miss, drop_waits-snoc pid done ws (ground arith))

drop_waits_unseen :
    (done : ℕ) (ws : List WaitingProgram) → watched done ws ≡ false → drop_waits done ws ≡ ws
unfolding drop_waits watched
drop_waits_unseen done [] unseen = refl
drop_waits_unseen done (w ∷ ws) unseen =
    let miss : (w.done == done) ≡ false = ground arith in
    rw (miss, drop_waits_unseen done ws (ground arith))

-- Where nobody watches the flag yet, `cancelWait` undoes a `waitForProgram` for a running program,
-- and after one for a program that is not running, where there is nothing to cancel, the flag stays
-- set.
pub wait_for_program-cancel_wait :
    (pid done : ℕ) (s : Programs)
    → watched done s.waiting ≡ false
    → cancel_wait done (wait_for_program pid done s)
      ≡ (if is_running pid s.running then s else record s { flag = raise done s.flag })
unfolding cancel_wait wait_for_program
wait_for_program-cancel_wait pid done s unseen = elim (Bool-cases (is_running pid s.running)) [
  | inl runs ↦ rw (runs, drop_waits-snoc pid done s.waiting unseen)
  | inr gone ↦ rw (gone, drop_waits_unseen done s.waiting unseen)
]
