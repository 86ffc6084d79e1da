-- ===== src/Interrupts/Completed.antt =====
-- All interrupts that `completed` of src/main.h sets up: those of SetUp, and that of the network card.
use korby_os.Base.{
  bind-some, ℕ, ◌+◌, ◌%◌, ◌^◌, ◌<◌, ◌≡◌, ◌≢◌, refl, sym, ap, ◌∙◌, true, Option, none, some, ◌==◌,
  if◌then◌else◌, if_both, ltb, ◌-◌, length, get_elem?, arith, ◌>>=◌,
}
use korby_os.Interrupts.{Gate, Interrupts, gate_of, install_interrupt}
use korby_os.Interrupts.Install.{target, without, install_interrupt-Gates}
use korby_os.Interrupts.SetUp.{Handlers, set_up, handler_of, gate_or, set_up-Gated}

-- The card that was found: the line, which is byte 0x3C of its configuration space, and the handler of
-- its driver.
pub record CardLine : Type 0 where
  pub line : ℕ
  pub handler : ℕ

-- `installInterrupt(pciInb(bus, device, function, 0x3C), e1000, TRUE)`, and so for rtl8169.
unfoldable pub install_card : Option CardLine → Interrupts → Option Interrupts
install_card none s = some s
install_card (some c) s = install_interrupt c.line c.handler true s

unfoldable pub set_up_all : Handlers → Option CardLine → Interrupts → Option Interrupts
set_up_all h card s = set_up h s >>= install_card card

-- A gate through which an interrupt comes to a handler: in the kernel's code segment, present, of the
-- kernel's privilege, with interrupts off.
pub record Opens (handler : ℕ) (g : Gate) : Type 0 where
  pub address : target g ≡ handler % 2 ^ 64
  pub selector : g.selector ≡ 8
  pub attributes : g.attributes ≡ 0x8E
  pub ist : g.ist ≡ 0
  pub zero_word : g.zero_word ≡ 0

-- A gate that opens for the handler, or what was there before.
abbrev pub Leads : Option ℕ → Option Gate → Option Gate → Type 0
Leads none before after = after ≡ before
Leads (some handler) before after = (g : Gate) × (after ≡ some g) × Opens handler g

-- What handles an interrupt. A card takes over a line that it shares.
abbrev pub handler_with : Handlers → Option CardLine → ℕ → Option ℕ
handler_with h none j = handler_of h j
handler_with h (some c) j = if 32 + c.line == j then some c.handler else handler_of h j

-- The lines 0, 1 and 2, and 12 of the second controller, and that of the card.
abbrev pub open1 : Option CardLine → ℕ
open1 none = 0xF8
open1 (some c) = if ltb c.line 8 then without 0xF8 c.line else 0xF8

abbrev pub open2 : Option CardLine → ℕ
open2 none = 0xEF
open2 (some c) = if ltb c.line 8 then 0xEF else without 0xEF (c.line - 8)

-- The line of a card is one of the controllers'.
abbrev pub IsLine : Option CardLine → Type 0
IsLine none = Unit
IsLine (some c) = (c.line < 16) × (c.handler < 2 ^ 64)

pub record SetUp (h : Handlers) (card : Option CardLine) (s t : Interrupts) : Type 0 where
  pub mask1 : t.mask1 ≡ open1 card
  pub mask2 : t.mask2 ≡ open2 card
  pub gates :
      (j : ℕ) → j < 256 → Leads (handler_with h card j) (get_elem? s.idt j) (get_elem? t.idt j)

gate_of-Opens : (handler : ℕ) → Opens handler (gate_of handler)
gate_of-Opens handler = record {
  address = omega arith;
  selector = refl;
  attributes = refl;
  ist = refl;
  zero_word = refl;
}

gate_or-Leads :
    (o : Option ℕ) (before after : Option Gate) → after ≡ gate_or o before → Leads o before after
gate_or-Leads none before after e = e
gate_or-Leads (some handler) before after e = (gate_of handler, e, gate_of-Opens handler)

-- In a table of 256 gates, with the network card, if there is one, on one of the 16 lines and its handler
-- at an address of 64 bits, the set-up ends. The gates of the 32 exceptions, the timer, the keyboard, the
-- mouse, the system calls and the card are present gates of the kernel from which the processor reads the
-- handler's address, modulo 2^64, where the card's handler goes before that of a line it shares; all other
-- gates are as they were, and exactly lines 0, 1, 2 and 12 and that of the card are not masked.
pub set_up_all-SetUp :
    (h : Handlers) (card : Option CardLine) (s : Interrupts)
    → length s.idt ≡ 256
    → IsLine card
    → (t : Interrupts) × (set_up_all h card s ≡ some t) × SetUp h card s t
unfolding set_up_all install_card
set_up_all-SetUp h none s size _ =
    (let (t, runs, gated) = set_up-Gated h s size in
      (
        t,
        bind-some _ runs refl,
        record {
          mask1 = gated.mask1;
          mask2 = gated.mask2;
          gates = λ j below. gate_or-Leads (handler_of h j) _ _ (gated.gates j below);
        },
      ))
set_up_all-SetUp h (some c) s size line =
    (let (t, runs, gated) = set_up-Gated h s size in
      let (u, installs, gates, mask1, mask2) =
        install_interrupt-Gates c.line c.handler t line.0 line.1 (omega (arith, gated.size))
          (omega (arith, gated.mask1)) (omega (arith, gated.mask2)) in
      (
        u,
        bind-some _ runs installs,
        record {
          mask1 = mask1 ∙ ap (λ m. if ltb c.line 8 then without m c.line else m) gated.mask1;
          mask2 = mask2 ∙ ap (λ m. if ltb c.line 8 then m else without m (c.line - 8)) gated.mask2;
          gates = λ j below.
              if_both (λ o. Leads o (get_elem? s.idt j) (get_elem? u.idt j)) (32 + c.line == j)
                (λ here. (
                  gate_of c.handler,
                  ap (get_elem? u.idt) (sym (let e : 32 + c.line ≡ j = ground (arith, here) in e))
                      ∙ gates.gate,
                  gate_of-Opens c.handler,
                ))
                (λ other. gate_or-Leads (handler_of h j) _ _ (
                  gates.others j (let ne : j ≢ 32 + c.line = ground (arith, other) in ne)
                  ∙ gated.gates j below));
        },
      ))
