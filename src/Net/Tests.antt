-- ===== src/Net/Tests.antt =====
-- Concrete packets: the results of the network code on them, and the theorems applied to them.
use korby_os.Base.{true, length, ℕ, All, ◌≡◌, refl, some, List, [], ◌∷◌, arith}
use korby_os.Net.{Mac, Packet, Host, Station, swap16, accepts, fold_carry, fold_fuel, build_frame}
use korby_os.Net.Connections.{is_queue, network_round, handle_frames}
use korby_os.Net.Exchange.{Fits, outgoing, emptied, gained, network_round-handle_frames}
use korby_os.Net.Frame.{IsIp, Sendable, Verifies, build_frame-Verifies}

abbrev everyone : Mac
everyone = record { m0 = 0xFF; m1 = 0xFF; m2 = 0xFF; m3 = 0xFF; m4 = 0xFF; m5 = 0xFF }

abbrev own_mac : Mac
own_mac = record { m0 = 0x52; m1 = 0x54; m2 = 0; m3 = 0x12; m4 = 0x34; m5 = 0x56 }

abbrev sender : Host
sender = record {
  mac = own_mac;
  ip = record { b0 = 192; b1 = 168; b2 = 1; b3 = 7 };
  router = everyone;
}

abbrev question : Packet
question = record {
  ip = record { b0 = 8; b1 = 8; b2 = 4; b3 = 4 };
  port = 53;
  contents = 1 ∷ 2 ∷ 0xFF ∷ [];
}

abbrev listener : Station
listener = record {
  host = record {
    mac = record { m0 = 2; m1 = 0; m2 = 0; m3 = 0; m4 = 0; m5 = 1 };
    ip = record { b0 = 8; b1 = 8; b2 = 4; b3 = 4 };
    router = everyone;
  };
  connections =
      record { at = 4096; port = 53; received = []; send = [] }
      ∷ record { at = 8192; port = 54; received = []; send = [] }
      ∷ [];
}

folds : fold_carry fold_fuel 0x2FFFF ≡ some 2
unfolding fold_carry
folds = refl

swaps : swap16 0x1234 ≡ 0x3412
unfolding swap16
swaps = refl

abbrev sender-IsIp : IsIp sender.ip
sender-IsIp = record {
  byte0 = omega arith;
  byte1 = omega arith;
  byte2 = omega arith;
  byte3 = omega arith;
}

abbrev question-Sendable : Sendable question
question-Sendable = record {
  address = record {
    byte0 = omega arith;
    byte1 = omega arith;
    byte2 = omega arith;
    byte3 = omega arith;
  };
  bytes = (omega arith, (omega arith, (omega arith, _)));
  fits = omega arith;
}

build_frame-Verifies_example :
    (frame : List ℕ) × (build_frame sender 1234 question ≡ some frame)
    × Verifies sender 1234 question frame
build_frame-Verifies_example =
    build_frame-Verifies sender 1234 question sender-IsIp question-Sendable

-- Two connections of the sender, with three packets.
abbrev talker : Station
talker = record {
  host = sender;
  connections =
      record { at = 4096; port = 1000; received = []; send = question ∷ question ∷ [] }
      ∷ record { at = 8192; port = 1001; received = []; send = record question { port = 54 } ∷ [] }
      ∷ [];
}

abbrev other-Sendable : Sendable (record question { port = 54 })
other-Sendable = record {
  address = question-Sendable.address;
  bytes = question-Sendable.bytes;
  fits = question-Sendable.fits;
}

talker-Fits : All Fits (outgoing talker.connections)
unfolding outgoing
talker-Fits = (
  record { sendable = question-Sendable; port = omega arith; short = omega arith },
  (
    record { sendable = question-Sendable; port = omega arith; short = omega arith },
    (record { sendable = other-Sendable; port = omega arith; short = omega arith }, _),
  ),
)

network_round-handle_frames_example :
    (frames : List (List ℕ)) × (t : Station) × (network_round (λ i. 0) [] talker
      ≡ some (frames, record talker { connections = emptied talker.connections }))
    × (length frames ≡ length (outgoing talker.connections))
    × (is_queue frames ≡ true)
    × (handle_frames (λ i. 0) 0 frames listener ≡ ([], t))
    × (t.connections ≡ gained sender (outgoing talker.connections) listener.connections)
unfolding accepts outgoing
network_round-handle_frames_example =
    network_round-handle_frames (λ i. 0) talker listener sender-IsIp talker-Fits (omega arith) refl
