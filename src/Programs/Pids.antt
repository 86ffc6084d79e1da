-- ===== src/Programs/Pids.antt =====
-- The pid that `execute` gives a program.
use korby_os.Base.{
  ℕ, zero, suc, ◌+◌, ◌^◌, ◌<◌, ◌≤◌, ◌≡◌, true, false, Option, some, List, [], ◌∷◌, ◌==◌,
  if◌then◌else◌, leb, u64, length, arith, Bool-cases, inl, inr,
}
use korby_os.Programs.{Program, Programs, is_running, next_pid, terminal_of, execute}

-- How many programs have a pid from `pid` on.
unfoldable from : ℕ → List Program → ℕ
from pid [] = 0
from pid (p ∷ rest) = if leb pid p.pid then suc (from pid rest) else from pid rest

from-length : (running : List Program) → from 0 running ≤ length running
unfolding from
from-length [] = omega arith
from-length (p ∷ rest) = ground (arith, from-length rest)

from_later : (pid : ℕ) (running : List Program) → from (pid + 1) running ≤ from pid running
unfolding from
from_later pid [] = omega arith
from_later pid (p ∷ rest) = ground (arith, from_later pid rest)

-- A pid in use counts among those from it on, and no more among those behind it.
from-is_running :
    (pid : ℕ) (running : List Program)
    → is_running pid running ≡ true
    → suc (from (pid + 1) running) ≤ from pid running
unfolding from is_running
from-is_running pid [] h = ground arith
from-is_running pid (p ∷ rest) h = ground (arith, from_later pid rest, from-is_running pid rest)

-- The pid is the lowest that no running program has.
pub record IsNext (running : List Program) (pid : ℕ) : Type 0 where
  pub unused : is_running pid running ≡ false
  pub least : (lower : ℕ) → lower < pid → is_running lower running ≡ true
  pub bounded : pid ≤ length running

next_pid-IsNext :
    (fuel pid : ℕ) (running : List Program)
    → pid + from pid running ≤ length running
    → length running < 2 ^ 64
    → from pid running < fuel
    → ((lower : ℕ) → lower < pid → is_running lower running ≡ true)
    → (p : ℕ) × (next_pid fuel pid running ≡ some p) × IsNext running p
unfolding next_pid
next_pid-IsNext zero pid running room small enough lower = absurd (omega arith)
next_pid-IsNext (suc fuel) pid running room small enough lower =
    elim (Bool-cases (is_running pid running)) [
      | inr free ↦ (
        pid,
        rw (free, next_pid),
        record { unused = free; least = lower; bounded = omega (arith, room) },
      )
      | inl used ↦
          let fewer : suc (from (pid + 1) running) ≤ from pid running =
            from-is_running pid running used in
          let (p, runs, next) =
            next_pid-IsNext fuel (pid + 1) running (omega (arith, fewer)) small
              (omega (arith, fewer))
              (λ q below. elim (Bool-cases (q == pid)) [
                | inl same ↦ (let e : q ≡ pid = ground arith in rw e used)
                | inr other ↦ lower q (ground arith)
              ]) in
          let step : u64 (pid + 1) ≡ pid + 1 = omega (arith, fewer) in
          (p, rw (used, next_pid, step) runs, next)
    ]

-- With fewer than 2^64 programs, the search of `execute` ends, and the new program gets the lowest
-- pid that no running program has and the terminal of the program that runs it, stands first in the list, in front of the programs as they
-- were, and the programs that wait and their flags are unchanged.
pub execute-IsNext :
    (current : Option Program) (s : Programs)
    → length s.running < 2 ^ 64
    → (pid : ℕ) × (execute current s
        ≡ some (
          pid,
          record s {
            running = record { pid = pid; terminal_id = terminal_of current } ∷ s.running;
          },
        ))
      × IsNext s.running pid
unfolding execute
execute-IsNext current s small =
    let count : from 0 s.running ≤ length s.running = from-length s.running in
    let (p, runs, next) =
      next_pid-IsNext (suc (length s.running)) 0 s.running (omega (arith, count)) small
        (omega (arith, count)) (λ q below. absurd (omega arith)) in
    (p, rw runs, next)
