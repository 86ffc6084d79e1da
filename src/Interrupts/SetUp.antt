-- ===== src/Interrupts/SetUp.antt =====
-- The interrupts that `completed` of src/main.h sets up before it looks for a network card: the masks,
-- the handlers of the 32 exceptions, those of the timer, the keyboard and the mouse, and that of the
-- system calls, in the code's order.
use korby_os.Base.{
  bind-some, ℕ, zero, suc, ◌+◌, ◌≤◌, ◌<◌, ◌≡◌, refl, sym, ap, ◌∙◌, Bool, true, false, ◌&&◌, Option,
  none, some, ◌==◌, if◌then◌else◌, if_yes, if_no, if_both, Bool-cases, inl, inr, leb, ltb, u16,
  length, set, length-set, get_elem?, get_elem?-set, arith, ◌>>=◌,
}
use korby_os.Interrupts.{Gate, Interrupts, gate_of, clear_line, unmask_interrupt, install_interrupt}

-- The addresses of the handlers.
pub record Handlers : Type 0 where
  pub isr : ℕ → ℕ
  pub hpet : ℕ
  pub keyboard : ℕ
  pub mouse : ℕ
  pub syscall : ℕ

-- `installInterrupt(i, isri, FALSE)` for a number of exceptions from `i` on.
unfoldable pub install_exceptions : ℕ → ℕ → (ℕ → ℕ) → Interrupts → Option Interrupts
install_exceptions zero i isr s = some s
install_exceptions (suc rest) i isr s =
    install_interrupt i (isr i) false s >>= install_exceptions rest (suc i) isr

unfoldable pub set_up : Handlers → Interrupts → Option Interrupts
set_up h s = do
  s0 ← install_exceptions 32 0 h.isr (record s { mask1 = 0xFF; mask2 = 0xFF })
  s1 ← install_interrupt 0 h.hpet true s0
  s2 ← install_interrupt 1 h.keyboard true s1
  s3 ← install_interrupt 12 h.mouse true (unmask_interrupt 2 s2)
  install_interrupt 0x80 h.syscall false s3

-- What handles an interrupt.
unfoldable pub handler_of : Handlers → ℕ → Option ℕ
handler_of h i =
    if ltb i 32
    then some (h.isr i)
    else if i == 0x20
    then some h.hpet
    else if i == 0x21
    then some h.keyboard
    else if i == 0x2C
    then some h.mouse
    else if i == 0x80
    then some h.syscall
    else none

-- A gate for a handler, or what was there before.
abbrev pub gate_or : Option ℕ → Option Gate → Option Gate
gate_or none before = before
gate_or (some handler) before = some (gate_of handler)

offset_is :
    (interrupt : ℕ) (hardware : Bool)
    → (if hardware then 0x20 else 0) + interrupt
      ≡ (if hardware then 0x20 + interrupt else interrupt)
offset_is interrupt true = refl
offset_is interrupt false = omega arith

module _ (interrupt handler : ℕ) (hardware : Bool) (s : Interrupts) where
  abbrev index : ℕ
  index = if hardware then 0x20 + interrupt else interrupt

  abbrev stored : Interrupts
  stored = record s { idt = set s.idt index (gate_of handler) }

  -- With room in the table, the gate is stored.
  install_interrupt-some :
      index < length s.idt
      → length s.idt ≡ 256
      → install_interrupt interrupt handler hardware s
        ≡ some (if hardware then unmask_interrupt interrupt stored else stored)
  unfolding install_interrupt
  install_interrupt-some inside size =
      (let same : u16 ((if hardware then 0x20 else 0) + interrupt) ≡ index =
          ap u16 (offset_is interrupt hardware) ∙ omega (arith, inside, size) in
        ap
          (λ k.
            if ltb k (length s.idt)
            then some (
                let t : Interrupts = record s { idt = set s.idt k (gate_of handler) } in
                if hardware then unmask_interrupt interrupt t else t)
            else none)
          same
        ∙ if_yes {b = ltb index (length s.idt)} _ none (ground (arith, inside)))

-- What holds after exceptions from `i` on were installed.
record Installed (rest i : ℕ) (isr : ℕ → ℕ) (s t : Interrupts) : Type 0 where
  size : length t.idt ≡ 256
  mask1 : t.mask1 ≡ s.mask1
  mask2 : t.mask2 ≡ s.mask2
  gates :
      (j : ℕ)
      → j < 256
      → get_elem? t.idt j
        ≡ (if leb i j && ltb j (i + rest) then some (gate_of (isr j)) else get_elem? s.idt j)

install_exceptions-Installed :
    (rest i : ℕ) (isr : ℕ → ℕ) (s : Interrupts)
    → length s.idt ≡ 256
    → i + rest ≤ 32
    → (t : Interrupts) × (install_exceptions rest i isr s ≡ some t) × Installed rest i isr s t
unfolding install_exceptions
install_exceptions-Installed zero i isr s size within =
    (s, refl, record { size = size; mask1 = refl; mask2 = refl; gates = λ j below. ground arith })
install_exceptions-Installed (suc rest) i isr s size within =
    (let inside : i < length s.idt = omega (arith, size, within) in
      let next = stored i (isr i) false s in
      let (t, runs, done) =
        install_exceptions-Installed rest (suc i) isr next
          (length-set s.idt i (gate_of (isr i)) ∙ size) (omega (arith, within)) in
      (
        t,
        bind-some _ (install_interrupt-some i (isr i) false s inside size) runs,
        record {
          size = done.size;
          mask1 = done.mask1;
          mask2 = done.mask2;
          gates = λ j below.
              let set_at = get_elem?-set s.idt i j (gate_of (isr i)) inside in
              let later = done.gates j below in
              elim (Bool-cases (i == j)) [
                | inl same ↦
                    (let e : i ≡ j = ground arith in
                      later
                      ∙ (if_no {b = leb (suc i) j && ltb j (suc i + rest)} _ _ (ground (arith, e))
                          ∙ (set_at
                              ∙ (if_yes {b = i == j} _ _ same
                                  ∙ (ap (λ k. some (gate_of (isr k))) e
                                      ∙ sym (
                                          if_yes {b = leb i j && ltb j (i + suc rest)} _ _
                                            (ground (arith, e))))))))
                | inr other ↦
                    later
                    ∙ (ap
                          (λ o.
                            if leb (suc i) j && ltb j (suc i + rest)
                            then some (gate_of (isr j))
                            else o)
                          (set_at ∙ if_no {b = i == j} _ _ other)
                        ∙ ap (λ b. if b then some (gate_of (isr j)) else get_elem? s.idt j)
                            (ground (arith, other)))
              ];
        },
      ))

-- The masks that leave the timer, the keyboard, the second controller and the mouse.
pub record Gated (h : Handlers) (s t : Interrupts) : Type 0 where
  pub size : length t.idt ≡ 256
  pub mask1 : t.mask1 ≡ 0xF8
  pub mask2 : t.mask2 ≡ 0xEF
  pub gates : (j : ℕ) → j < 256 → get_elem? t.idt j ≡ gate_or (handler_of h j) (get_elem? s.idt j)

-- The four gates behind the exceptions'.
device_gates :
    (h : Handlers) (j : ℕ) (o x0 x1 x2 x3 : Option Gate)
    → x0 ≡ (if leb 0 j && ltb j (0 + 32) then some (gate_of (h.isr j)) else o)
    → x1 ≡ (if 32 == j then some (gate_of h.hpet) else x0)
    → x2 ≡ (if 33 == j then some (gate_of h.keyboard) else x1)
    → x3 ≡ (if 44 == j then some (gate_of h.mouse) else x2)
    → (if 128 == j then some (gate_of h.syscall) else x3) ≡ gate_or (handler_of h j) o
unfolding handler_of
device_gates h j o x0 x1 x2 x3 e0 e1 e2 e3 =
    if_both (λ (r : Option ℕ). (if 128 == j then some (gate_of h.syscall) else x3) ≡ gate_or r o)
      (ltb j 32) (λ low. ground (arith, low, e0, e1, e2, e3))
      (λ high. ground (arith, high, e0, e1, e2, e3))

-- In a table of 256 gates the set-up ends: the 32 exceptions, the timer, the keyboard, the mouse and the
-- system calls each have the gate of their handler, all other gates are as they were, and exactly
-- lines 0, 1, 2 and 12 are not masked.
pub set_up-Gated :
    (h : Handlers) (s : Interrupts)
    → length s.idt ≡ 256
    → (t : Interrupts) × (set_up h s ≡ some t) × Gated h s t
unfolding set_up unmask_interrupt handler_of
set_up-Gated h s size =
    (let (s0, runs, done) =
        install_exceptions-Installed 32 0 h.isr (record s { mask1 = 0xFF; mask2 = 0xFF }) size
          (omega arith) in
      let full = done.size in
      let s1 = unmask_interrupt 0 (stored 0 h.hpet true s0) in
      let full1 : length s1.idt ≡ 256 = length-set s0.idt 32 (gate_of h.hpet) ∙ full in
      let s2 = unmask_interrupt 1 (stored 1 h.keyboard true s1) in
      let full2 : length s2.idt ≡ 256 = length-set s1.idt 33 (gate_of h.keyboard) ∙ full1 in
      let s3 = unmask_interrupt 2 s2 in
      let s4 = unmask_interrupt 12 (stored 12 h.mouse true s3) in
      let full4 : length s4.idt ≡ 256 = length-set s3.idt 44 (gate_of h.mouse) ∙ full2 in
      let s5 = stored 0x80 h.syscall false s4 in
      (
        s5,
        bind-some _ runs (
            bind-some _ (install_interrupt-some 0 h.hpet true s0 (omega (arith, full)) full) (
              bind-some _ (install_interrupt-some 1 h.keyboard true s1 (omega (arith, full1)) full1)
                (bind-some _
                  (install_interrupt-some 12 h.mouse true s3 (omega (arith, full2)) full2)
                  (install_interrupt-some 0x80 h.syscall false s4 (omega (arith, full4)) full4)))),
        record {
          size = length-set s4.idt 128 (gate_of h.syscall) ∙ full4;
          mask1 = ap (λ m. clear_line (clear_line (clear_line m 0) 1) 2) done.mask1;
          mask2 = ap (λ m. clear_line m 4) done.mask2;
          gates = λ j below.
              let before = done.gates j below in
              let g1 = get_elem?-set s0.idt 32 j (gate_of h.hpet) (omega (arith, full)) in
              let g2 = get_elem?-set s1.idt 33 j (gate_of h.keyboard) (omega (arith, full1)) in
              let g3 = get_elem?-set s3.idt 44 j (gate_of h.mouse) (omega (arith, full2)) in
              let g4 = get_elem?-set s4.idt 128 j (gate_of h.syscall) (omega (arith, full4)) in
              g4 ∙ device_gates h j (get_elem? s.idt j) _ _ _ _ before g1 g2 g3;
        },
      ))
