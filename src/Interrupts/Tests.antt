-- ===== src/Interrupts/Tests.antt =====
-- A table of gates, and the theorem applied to it.
use korby_os.Base.{arith, ◌+◌, ◌*◌, ◌≡◌, refl, some, replicate}
use korby_os.Interrupts.{Gate, Interrupts}
use korby_os.Interrupts.SetUp.{Handlers}
use korby_os.Interrupts.Completed.{CardLine, set_up_all, SetUp, set_up_all-SetUp}

abbrev empty_gate : Gate
empty_gate = record {
  lower = 0;
  selector = 0;
  ist = 0;
  attributes = 0;
  middle = 0;
  higher = 0;
  zero_word = 0;
}

abbrev masked : Interrupts
masked = record { idt = replicate 256 empty_gate; mask1 = 0xFF; mask2 = 0xFF }

abbrev handlers : Handlers
handlers = record {
  isr = λ i. 0xFFFF800000001000 + i * 16;
  hpet = 0xFFFF800000002000;
  keyboard = 0xFFFF800000002100;
  mouse = 0xFFFF800000002200;
  syscall = 0xFFFF800000002300;
}

-- A card on line 11.
abbrev card : CardLine
card = record { line = 11; handler = 0xFFFF800000002400 }

set_up_all-SetUp_example :
    (t : Interrupts) × (set_up_all handlers (some card) masked ≡ some t)
    × SetUp handlers (some card) masked t
set_up_all-SetUp_example =
    set_up_all-SetUp handlers (some card) masked refl (omega arith, omega arith)
