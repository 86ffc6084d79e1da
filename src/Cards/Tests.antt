-- ===== src/Cards/Tests.antt =====
-- Rings in a memory of zeros, with frames in them, and the theorems applied to them.
use korby_os.Base.{
  ℕ, ◌+◌, ◌<◌, ◌≡◌, ◌↔◌, inl, refl, true, false, none, some, List, [], ◌∷◌, ◌++◌, ◌==◌,
  if◌then◌else◌, length, replicate, arith,
}
use korby_os.Cards.{
  Ram, E1000Sender, E1000Receiver, Rtl8169Sender, Rtl8169Receiver, update, read_bytes, write_bytes,
  rtl8169,
}
use korby_os.Cards.Pci.{Registers}
use korby_os.Cards.Receive.{Frame, AllArrived, good_bytes, e1000_all, e1000_all-waiting}
use korby_os.Input.Queues.{waiting, Room}
use korby_os.Cards.Rings.{e1000_rx_ring, e1000_tx_ring, rtl8169_rx_ring, rtl8169_tx_ring}
use korby_os.Cards.Search.{Place, IsFirst, card_at, find_card, find_card_lem}
use korby_os.Cards.Send.{
  AllSent, e1000_send_all, e1000_send_all-AllSent, e1000_tx_ring-OnRing, rtl8169_send_all,
  rtl8169_send_all-none,
}
use korby_os.Cards.Sweep.{Short, Swept, pending, rtl8169-Swept}
use korby_os.Input.{Queue}

abbrev zeros : Ram
zeros a = 0

abbrev sender : E1000Sender
sender = record { tail = 0; tx = e1000_tx_ring 0x100000; ram = zeros }

e1000_send_all-AllSent_example :
    AllSent 0 ((1 ∷ 2 ∷ []) ∷ (3 ∷ []) ∷ []) (e1000_send_all ((1 ∷ 2 ∷ []) ∷ (3 ∷ []) ∷ []) sender)
e1000_send_all-AllSent_example =
    e1000_send_all-AllSent 0x100000 ((1 ∷ 2 ∷ []) ∷ (3 ∷ []) ∷ []) sender
      (e1000_tx_ring-OnRing 0x100000 zeros (omega arith)) (omega arith, (omega arith, _))
      (omega arith)

abbrev worn : Rtl8169Sender
worn = record { current = 255; tx = rtl8169_tx_ring 0x100000; ram = zeros }

rtl8169_send_all-none_example :
    (rtl8169_send_all ((1 ∷ []) ∷ (2 ∷ []) ∷ []) worn ≡ none) ↔ (256 < 255 + 2)
rtl8169_send_all-none_example = rtl8169_send_all-none ((1 ∷ []) ∷ (2 ∷ []) ∷ []) worn (omega arith)

abbrev no_packets : Queue (List ℕ)
no_packets = record { entries = replicate 255 []; current = 0 }

-- The card has written a frame of two bytes, and then one with an error.
abbrev receiver : E1000Receiver
receiver = record {
  tail = 255;
  rx = λ i.
      if i == 0
      then record (e1000_rx_ring 0x100000 0) { size = 2 }
      else record (e1000_rx_ring 0x100000 i) { error = true };
  ram = write_bytes (7 ∷ 8 ∷ []) 0x100000 zeros;
  packets = no_packets;
}

abbrev whole : Frame
whole = record { bad = false; bytes = 7 ∷ 8 ∷ [] }

abbrev broken : Frame
broken = record { bad = true; bytes = [] }

receiver-AllArrived : AllArrived 255 (whole ∷ broken ∷ []) receiver
unfolding e1000_rx_ring read_bytes write_bytes
receiver-AllArrived = (
  record { marks = refl; short = omega arith; contents = refl },
  (record { marks = refl; short = omega arith; contents = refl }, _),
)

e1000_all-waiting_example :
    (t : E1000Receiver) × (e1000_all (0x80 ∷ 0x84 ∷ []) receiver ≡ some t)
    × (waiting t.packets ≡ waiting no_packets ++ good_bytes (whole ∷ broken ∷ []))
e1000_all-waiting_example =
    e1000_all-waiting (0x80 ∷ 0x84 ∷ []) (whole ∷ broken ∷ []) receiver (refl, (refl, _)) refl
      (record { entries = refl; room = omega arith }) receiver-AllArrived

-- The card has handed over descriptor 3.
abbrev swept : Rtl8169Receiver
swept = record {
  rx =
      update (rtl8169_rx_ring 0x100000) 3
        (record (rtl8169_rx_ring 0x100000 3) { size = 1; done = false });
  ram = zeros;
  packets = no_packets;
}

swept-Short : Short swept
unfolding rtl8169_rx_ring
swept-Short j = ground arith

swept-pending : pending 256 0 swept.rx swept.ram ≡ (0 ∷ []) ∷ []
unfolding rtl8169_rx_ring read_bytes
swept-pending = refl

swept-Room : Room (length (pending 256 0 swept.rx swept.ram)) no_packets
unfolding rtl8169_rx_ring read_bytes
swept-Room = record { entries = refl; room = omega arith }

rtl8169-Swept_example :
    (t : Rtl8169Receiver) × (rtl8169 0x11 swept ≡ some (t, some 0x11)) × Swept 256 0 swept t
rtl8169-Swept_example = rtl8169-Swept 0x11 swept (inl refl) swept-Short swept-Room

-- A bus with an e1000 at device 2 of bus 0, and nothing else.
abbrev one_card : Registers
one_card a = if a == 0x80001000 then 0x10D38086 else 0xFFFFFFFF

find_card_lem_example :
    ((p : Place) → find_card one_card ≡ some p → IsFirst one_card p)
    × (find_card one_card ≡ none
        → (b d f : ℕ) → b < 256
        → d < 32
        → f < 8
        → card_at one_card b d f ≡ none)
find_card_lem_example = find_card_lem one_card
