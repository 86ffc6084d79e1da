-- ===== src/Net/Arp.antt =====
-- The answer to an ARP request, in the loop of `start` in src/main.c over `ethernetPackets`.
use korby_os.Base.{
  ℕ, ◌+◌, ◌≡◌, refl, ap, ◌∙◌, Bool, true, ◌&&◌, Option, none, some, List, ◌∷◌, ◌++◌, ◌==◌,
  if◌then◌else◌, if_both, if_yes, arith,
}
use korby_os.Net.{
  Ip, Mac, Host, bytes16, ip_bytes, mac_bytes, ethernet_layer, accepts, byte_at, word_at, mac_at,
}

-- `ArpLayer` for IPv4 over Ethernet; a request has the opcode 0x0100 and an answer 0x0200, as they
-- are read on x86.
unfoldable pub arp_layer : ℕ → Mac → Ip → Mac → Ip → List ℕ
arp_layer opcode source_mac source_ip destination_mac destination_ip =
    bytes16 0x0100
    ++ (bytes16 0x08
        ++ (6
            ∷ 4
            ∷ (bytes16 opcode
                ++ (mac_bytes source_mac
                    ++ (ip_bytes source_ip
                        ++ (mac_bytes destination_mac ++ ip_bytes destination_ip))))))

module _ (frame : List ℕ) where
  abbrev pub ip_at : ℕ → Ip
  ip_at i = record {
    b0 = byte_at frame i;
    b1 = byte_at frame (i + 1);
    b2 = byte_at frame (i + 2);
    b3 = byte_at frame (i + 3);
  }

  -- The first test: each byte of the destination's hardware address is `own`, which is `mac[i]` for
  -- the index `i` of the packet.
  unfoldable pub all_own : ℕ → Bool
  all_own own =
      (byte_at frame 32 == own)
      && ((byte_at frame 33 == own)
          && ((byte_at frame 34 == own)
              && ((byte_at frame 35 == own)
                  && ((byte_at frame 36 == own) && (byte_at frame 37 == own)))))

  -- The second test: the destination's address is the station's.
  unfoldable pub asks_for : Ip → Bool
  asks_for ip =
      (byte_at frame 38 == ip.b0)
      && ((byte_at frame 39 == ip.b1)
          && ((byte_at frame 40 == ip.b2) && (byte_at frame 41 == ip.b3)))

  -- The frame that is sent, if any.
  unfoldable pub answer : ℕ → Host → Option (List ℕ)
  answer own host =
      if accepts host.mac (mac_at frame 0) && (word_at frame 12 == 0x608)
      then (if (if all_own own then true else asks_for host.ip) && (word_at frame 20 == 0x0100)
          then some (
              ethernet_layer (mac_at frame 6) host.mac 0x608
              ++ arp_layer 0x0200 host.mac host.ip (mac_at frame 6) (ip_at 28))
          else none)
      else none

-- A request as a station sends it, with the bytes that fill up the frame.
abbrev pub arp_request : Mac → Host → Mac → Ip → List ℕ → List ℕ
arp_request to asker unknown wanted padding =
    ethernet_layer to asker.mac 0x608
    ++ (arp_layer 0x0100 asker.mac asker.ip unknown wanted ++ padding)

abbrev pub filled : ℕ → Mac
filled b = record { m0 = b; m1 = b; m2 = b; m3 = b; m4 = b; m5 = b }

asks_for-wanted :
    (to : Mac) (asker : Host) (unknown : Mac) (ip : Ip) (padding : List ℕ)
    → asks_for (arp_request to asker unknown ip padding) ip ≡ true
unfolding asks_for ethernet_layer arp_layer
asks_for-wanted to asker unknown ip padding = ground arith

-- A request for a station's own address, in a frame that the station accepts, is answered with the
-- station's hardware address, whatever the byte that the first test compares with.
pub answer-arp_request :
    (to : Mac) (asker host : Host) (unknown : Mac) (padding : List ℕ) (own : ℕ)
    → accepts host.mac to ≡ true
    → answer (arp_request to asker unknown host.ip padding) own host
      ≡ some (
          ethernet_layer asker.mac host.mac 0x608
          ++ arp_layer 0x0200 host.mac host.ip asker.mac asker.ip)
unfolding answer ethernet_layer arp_layer
answer-arp_request to asker host unknown padding own taken =
    if_yes _ none (ap (λ b. b && true) taken)
    ∙ if_yes _ none (
        ap (λ b. b && true)
          (if_both (λ b. b ≡ true) (all_own (arp_request to asker unknown host.ip padding) own)
            (λ _. refl) (λ _. asks_for-wanted to asker unknown host.ip padding)))

all_own-filled :
    (to : Mac) (asker : Host) (wanted : Ip) (padding : List ℕ) (own : ℕ)
    → all_own (arp_request to asker (filled own) wanted padding) own ≡ true
unfolding all_own ethernet_layer arp_layer
all_own-filled to asker wanted padding own = ground arith

-- A request in a frame that a station accepts, of which the six unknown bytes are all the byte that
-- the first test compares with, is answered
-- whatever address it asks for, with the station's own addresses.
pub answer-filled :
    (to : Mac) (asker host : Host) (wanted : Ip) (padding : List ℕ) (own : ℕ)
    → accepts host.mac to ≡ true
    → answer (arp_request to asker (filled own) wanted padding) own host
      ≡ some (
          ethernet_layer asker.mac host.mac 0x608
          ++ arp_layer 0x0200 host.mac host.ip asker.mac asker.ip)
unfolding answer ethernet_layer arp_layer
answer-filled to asker host wanted padding own taken =
    if_yes _ none (ap (λ b. b && true) taken)
    ∙ if_yes _ none (
        ap
          (λ b.
            (if b
              then true
              else asks_for (arp_request to asker (filled own) wanted padding) host.ip)
            && true)
          (all_own-filled to asker wanted padding own))
