-- ===== src/Interrupts.antt =====
-- The interrupt table of src/main.h: `installInterrupt` and `unmaskInterrupt`.
--
-- The ports 0x21 and 0xA1 hold the masks of the two interrupt controllers; a handler is its address.
pub mod Completed
pub mod Install
pub mod SetUp
mod Tests
use korby_os.Base.{
  ℕ, ◌+◌, ◌-◌, ◌/◌, ◌^◌, Bool, Option, none, some, List, if◌then◌else◌, u16, u32, u8, ltb, length,
  set,
}
use Prim.Native.Nat.{bit_and}

-- An entry of `idt`.
pub record Gate : Type 0 where
  pub lower : ℕ
  pub selector : ℕ
  pub ist : ℕ
  pub attributes : ℕ
  pub middle : ℕ
  pub higher : ℕ
  pub zero_word : ℕ

pub record Interrupts : Type 0 where
  pub idt : List Gate
  pub mask1 : ℕ
  pub mask2 : ℕ

-- `byte & ~(1 << line)` on a byte.
abbrev pub clear_line : ℕ → ℕ → ℕ
clear_line byte line = bit_and byte (255 - 2 ^ line)

-- From line 16 on, the shifted bit is above the byte that is written.
unfoldable pub unmask_interrupt : ℕ → Interrupts → Interrupts
unmask_interrupt interrupt s =
    if ltb interrupt 8 then record s { mask1 = clear_line s.mask1 interrupt } else record s {
      mask2 = if ltb interrupt 16 then clear_line s.mask2 (interrupt - 8) else s.mask2;
    }

abbrev pub gate_of : ℕ → Gate
gate_of handler = record {
  lower = u16 handler;
  selector = 0x08;
  ist = 0;
  attributes = 0x8E;
  middle = u16 (handler / 2 ^ 16);
  higher = u32 (handler / 2 ^ 32);
  zero_word = 0;
}

-- A write behind the table of 256 entries is `none`.
unfoldable pub install_interrupt : ℕ → ℕ → Bool → Interrupts → Option Interrupts
install_interrupt interrupt handler hardware s =
    let index : ℕ = u16 ((if hardware then 0x20 else 0) + interrupt) in
    let t : Interrupts = record s { idt = set s.idt index (gate_of handler) } in
    if ltb index (length s.idt)
    then some (if hardware then unmask_interrupt interrupt t else t)
    else none
