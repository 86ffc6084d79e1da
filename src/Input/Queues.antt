-- ===== src/Input/Queues.antt =====
-- The queues of the interrupt handlers: what waits in them, in order.
use korby_os.Base.{
  ℕ, suc, ◌+◌, ◌%◌, ◌^◌, ◌≤◌, ◌≡◌, ap, ◌∙◌, some, none, List, [], ◌∷◌, ◌++◌, ltb, length, take, set,
  take-set, length-set, if_yes, arith,
}
use korby_os.Input.{Queue, push}

module _ {A : Type 0} where
  -- The entries that wait in the queue.
  abbrev pub waiting : Queue A → List A
  waiting q = take q.current q.entries

  -- A queue of 255 entries with room for `n` more.
  pub record Room (n : ℕ) (q : Queue A) : Type 0 where
    pub entries : length q.entries ≡ 255
    pub room : q.current + n ≤ 255

  pub push-waiting :
      (n : ℕ) (a : A) (q : Queue A)
      → Room (suc n) q
      → (q' : Queue A) × (push a q ≡ some q') × Room n q' × (waiting q' ≡ waiting q ++ a ∷ [])
  unfolding push
  push-waiting n a q room =
      (let size = room.entries in
        let fits = room.room in
        let next : (q.current + 1) % 2 ^ 8 ≡ suc q.current = omega arith in
        (
          _,
          if_yes {b = ltb q.current 255} _ none (ground arith),
          record { entries = length-set q.entries q.current a ∙ size; room = omega (arith, next) },
          ap (λ k. take k (set q.entries q.current a)) next
              ∙ take-set q.current a q.entries (omega arith),
        ))
