-- ===== src/Net/Receive.antt =====
-- What one station builds, another one receives.
use korby_os.Base.{
  ℕ, ◌+◌, ◌-◌, ◌*◌, ◌/◌, ◌%◌, ◌^◌, ◌<◌, ◌≤◌, ◌≡◌, refl, ap, ap₂, ◌∙◌, Bool, true, false, ◌&&◌, ◌==◌,
  if◌then◌else◌, some, List, [], ◌∷◌, ◌++◌, u16, sub64, length, take, arith,
}
use korby_os.Net.{
  swap16, Packet, Host, build_frame, ethernet_layer, ipv4_layer, udp_layer, Station, accepts,
  is_open, arrived, deliver, learn, receive,
}
use korby_os.Net.Frame.{IsIp, Sendable, build_frame-Verifies}

-- The packet as the other side gets it: the address is the sender's.
abbrev pub from_host : Host → Packet → Packet
from_host host packet = record { ip = host.ip; port = packet.port; contents = packet.contents }

-- A station after a packet sent by `host`: if the frame's destination, which is the sender's
-- router, is the station, its open connections get the packet, and a station that knows no router
-- takes the sender for it.
abbrev pub after_packet : Host → Packet → Station → Station
after_packet host packet s =
    if accepts s.host.mac host.router
    then record {
      host = record {
        mac = s.host.mac;
        ip = s.host.ip;
        router =
            if is_open packet.port s.connections && (s.host.router.m0 == 0xFF)
            then host.mac
            else s.host.router;
      };
      connections = deliver (from_host host packet) s.connections;
    }
    else s

and-true : (a : Bool) → (a && true) ≡ a
and-true true = refl
and-true false = refl

pub take-length : (xs : List ℕ) → take (length xs) xs ≡ xs
take-length [] = refl
take-length (x ∷ xs) = ap (λ l. x ∷ l) (take-length xs)

-- The frame written out.
abbrev pub built : Host → ℕ → Packet → ℕ → ℕ → List ℕ
built host port packet c d =
    ethernet_layer host.router host.mac 0x8
    ++ (ipv4_layer host.ip packet.ip (28 + length packet.contents) c
        ++ udp_layer port packet.port (8 + length packet.contents) d packet.contents)

swap_stored : (x : ℕ) → x < 2 ^ 16 → swap16 (swap16 x % 256 + 256 * (swap16 x / 256 % 256)) ≡ x
unfolding swap16
swap_stored x h = omega (arith, h)

arrived-built :
    (host : Host) (port : ℕ) (packet : Packet) (c d : ℕ)
    → packet.port < 2 ^ 16
    → length packet.contents ≤ 0xFFFF - 28
    → arrived (built host port packet c d) ≡ from_host host packet
unfolding arrived ethernet_layer ipv4_layer udp_layer
arrived-built host port packet c d p fits =
    ap₂ (λ q l. record { ip = host.ip; port = q; contents = l }) (swap_stored packet.port p)
      (ap (λ n. take n packet.contents)
          (ap (λ n. u16 (sub64 n 8))
              (swap_stored (8 + length packet.contents) (omega (arith, fits)))
            ∙ omega (arith, fits))
        ∙ take-length packet.contents)

pub receive-built :
    (host : Host) (port : ℕ) (packet : Packet) (c d : ℕ) (s : Station)
    → packet.port < 2 ^ 16
    → length packet.contents ≤ 0xFFFF - 28
    → receive (built host port packet c d) s ≡ after_packet host packet s
unfolding receive learn ethernet_layer ipv4_layer udp_layer
receive-built host port packet c d s p fits =
    rw (arrived-built host port packet c d p fits, and-true (accepts s.host.mac host.router))

pub build_frame-built :
    (host : Host) (port : ℕ) (packet : Packet)
    → IsIp host.ip
    → Sendable packet
    → (c : ℕ) × (d : ℕ) × (build_frame host port packet ≡ some (built host port packet c d))
build_frame-built host port packet i h =
    let (frame, builds, v) = build_frame-Verifies host port packet i h in
    (
      v.header_checksum,
      v.datagram_checksum,
      builds
          ∙ ap some (
              v.layout
              ∙ ap₂ (λ a b. ethernet_layer host.router host.mac 0x8 ++ (a ++ b)) v.header_is
                  v.datagram_is),
    )
