-- ===== src/Interrupts/Install.antt =====
-- What installing a handler leads to.
use korby_os.Base.{
  ℕ, zero, suc, ◌+◌, ◌-◌, ◌*◌, ◌/◌, ◌%◌, ◌^◌, ◌<◌, ◌≤◌, ◌≡◌, ◌≢◌, refl, true, some, List, [], ◌∷◌,
  if◌then◌else◌, u16, ltb, length, set, get_elem?, arith, Bool-cases, inl, inr,
}
use korby_os.Base.Bytes.{byte_table, same_values}
use korby_os.Interrupts.{Gate, Interrupts, clear_line, gate_of, unmask_interrupt, install_interrupt}

-- A byte without the bit of a line.
abbrev pub without : ℕ → ℕ → ℕ
without byte line = byte - byte / 2 ^ line % 2 * 2 ^ line

clear_line_lem :
    (line : ℕ) → line < 8 → (byte : ℕ) → byte < 256 → clear_line byte line ≡ without byte line
clear_line_lem zero h =
    byte_table (λ b. clear_line b 0) (λ b. without b 0) (unfold same_values in refl)
clear_line_lem (suc zero) h =
    byte_table (λ b. clear_line b 1) (λ b. without b 1) (unfold same_values in refl)
clear_line_lem (suc (suc zero)) h =
    byte_table (λ b. clear_line b 2) (λ b. without b 2) (unfold same_values in refl)
clear_line_lem (suc (suc (suc zero))) h =
    byte_table (λ b. clear_line b 3) (λ b. without b 3) (unfold same_values in refl)
clear_line_lem (suc (suc (suc (suc zero)))) h =
    byte_table (λ b. clear_line b 4) (λ b. without b 4) (unfold same_values in refl)
clear_line_lem (suc (suc (suc (suc (suc zero))))) h =
    byte_table (λ b. clear_line b 5) (λ b. without b 5) (unfold same_values in refl)
clear_line_lem (suc (suc (suc (suc (suc (suc zero)))))) h =
    byte_table (λ b. clear_line b 6) (λ b. without b 6) (unfold same_values in refl)
clear_line_lem (suc (suc (suc (suc (suc (suc (suc zero))))))) h =
    byte_table (λ b. clear_line b 7) (λ b. without b 7) (unfold same_values in refl)
clear_line_lem (suc (suc (suc (suc (suc (suc (suc (suc n)))))))) h = absurd (omega (arith, h))

-- The address that the processor reads out of a gate.
abbrev pub target : Gate → ℕ
target g = g.lower + 2 ^ 16 * g.middle + 2 ^ 32 * g.higher

target-gate_of : (handler : ℕ) → handler < 2 ^ 64 → target (gate_of handler) ≡ handler
target-gate_of handler h = omega (arith, h)

stored : {A : Type 0} (l : List A) (i : ℕ) (a : A) → i < length l → get_elem? (set l i a) i ≡ some a
stored [] i a h = absurd (omega (arith, h))
stored (x ∷ l) zero a h = refl
stored (x ∷ l) (suc i) a h = stored l i a (omega (arith, h))

kept : {A : Type 0} (l : List A) (i j : ℕ) (a : A) → j ≢ i → get_elem? (set l i a) j ≡ get_elem? l j
kept [] i j a ne = refl
kept (x ∷ l) zero zero a ne = absurd (ne refl)
kept (x ∷ l) zero (suc j) a ne = refl
kept (x ∷ l) (suc i) zero a ne = refl
kept (x ∷ l) (suc i) (suc j) a ne = kept l i j a (ground (arith, ne))

-- The gates after a handler is installed at an index.
pub record Gates (index handler : ℕ) (before after : List Gate) : Type 0 where
  pub gate : get_elem? after index ≡ some (gate_of handler)
  pub address : target (gate_of handler) ≡ handler
  pub others : (j : ℕ) → j ≢ index → get_elem? after j ≡ get_elem? before j

Gates-set :
    (index handler : ℕ) (l : List Gate)
    → index < length l
    → handler < 2 ^ 64
    → Gates index handler l (set l index (gate_of handler))
Gates-set index handler l inside h = record {
  gate = stored l index (gate_of handler) inside;
  address = target-gate_of handler h;
  others = λ j ne. kept l index j (gate_of handler) ne;
}

-- Installing a handler for one of the sixteen hardware lines, with byte masks and room in the
-- table, stores a gate behind the 32 exceptions from which the processor reads the handler's
-- address, leaves the other gates, and clears the line's mask bit on its controller and no other
-- bit.
pub install_interrupt-Gates :
    (interrupt handler : ℕ) (s : Interrupts)
    → interrupt < 16
    → handler < 2 ^ 64
    → 48 ≤ length s.idt
    → s.mask1 < 256
    → s.mask2 < 256
    → (s' : Interrupts) × (install_interrupt interrupt handler true s ≡ some s')
      × Gates (32 + interrupt) handler s.idt s'.idt
      × (s'.mask1 ≡ (if ltb interrupt 8 then without s.mask1 interrupt else s.mask1))
      × (s'.mask2 ≡ (if ltb interrupt 8 then s.mask2 else without s.mask2 (interrupt - 8)))
unfolding install_interrupt unmask_interrupt
install_interrupt-Gates interrupt handler s line h room m1 m2 =
    let index : u16 (0x20 + interrupt) ≡ 32 + interrupt = omega arith in
    let inside : ltb (32 + interrupt) (length s.idt) ≡ true = ground arith in
    let low : ltb interrupt 16 ≡ true = ground arith in
    let gates : Gates (32 + interrupt) handler s.idt
        (set s.idt (32 + interrupt) (gate_of handler)) =
      Gates-set (32 + interrupt) handler s.idt (omega arith) h in
    elim (Bool-cases (ltb interrupt 8)) [
      | inl first ↦ (
        record s {
          idt = set s.idt (32 + interrupt) (gate_of handler);
          mask1 = clear_line s.mask1 interrupt;
        },
        rw (index, inside, first),
        gates,
        rw first (clear_line_lem interrupt (ground arith) s.mask1 m1),
        rw first,
      )
      | inr second ↦ (
        record s {
          idt = set s.idt (32 + interrupt) (gate_of handler);
          mask2 = clear_line s.mask2 (interrupt - 8);
        },
        rw (index, inside, second, low),
        gates,
        rw second,
        rw second (clear_line_lem (interrupt - 8) (omega arith) s.mask2 m2),
      )
    ]
