-- ===== src/Net.antt =====
-- The network code of `start` in src/main.c: the byte orders, the layers of a UDP packet and their
-- checksums.
--
-- Memory is a list of bytes; a `uint16_t` in it is stored low byte first, as on x86. The layers are
-- packed, so their bytes follow one another.
pub mod Arp
pub mod Checksum
pub mod Connections
pub mod Exchange
pub mod Frame
pub mod Receive
mod Tests
use korby_os.Base.{
  ℕ, zero, suc, ◌+◌, ◌-◌, ◌*◌, ◌/◌, ◌%◌, ◌^◌, Bool, true, false, Option, none, some, List, [], ◌∷◌,
  ◌++◌, ◌==◌, if◌then◌else◌, u8, u16, u32, length, sub64, get_or, take, drop, ◌&&◌, ◌||◌, ◌>>=◌,
}

-- `((x & 0xFF) << 8) | ((x >> 8) & 0xFF)`, the two halves of a `uint16_t` exchanged.
unfoldable pub swap16 : ℕ → ℕ
swap16 x = x % 256 * 256 + x / 256 % 256

-- A `uint16_t` as it lies in memory.
abbrev pub bytes16 : ℕ → List ℕ
bytes16 x = x % 256 ∷ x / 256 % 256 ∷ []

-- The sum of the words from `p` on into a `uint32_t`, with the odd byte at the end as a low byte.
unfoldable pub sum16 : ℕ → List ℕ → ℕ
sum16 acc [] = acc
sum16 acc (a ∷ []) = u32 (acc + a)
sum16 acc (a ∷ b ∷ rest) = sum16 (u32 (acc + (a + 256 * b))) rest

-- `while (checksum >> 16) checksum = (checksum & 0xFFFF) + (checksum >> 16);` on fuel.
unfoldable pub fold_carry : ℕ → ℕ → Option ℕ
fold_carry zero sum = none
fold_carry (suc fuel) sum = elim (sum / 2 ^ 16 == 0) [
  | true ↦ some sum
  | false ↦ fold_carry fuel (sum % 2 ^ 16 + sum / 2 ^ 16)
]

-- `~sum` stored in a `uint16_t`.
abbrev pub complement16 : ℕ → ℕ
complement16 sum = (2 ^ 16 - 1) - sum % 2 ^ 16

pub record Ip : Type 0 where
  pub b0 : ℕ
  pub b1 : ℕ
  pub b2 : ℕ
  pub b3 : ℕ

abbrev pub ip_bytes : Ip → List ℕ
ip_bytes a = a.b0 ∷ a.b1 ∷ a.b2 ∷ a.b3 ∷ []

pub record Mac : Type 0 where
  pub m0 : ℕ
  pub m1 : ℕ
  pub m2 : ℕ
  pub m3 : ℕ
  pub m4 : ℕ
  pub m5 : ℕ

abbrev pub mac_bytes : Mac → List ℕ
mac_bytes a = a.m0 ∷ a.m1 ∷ a.m2 ∷ a.m3 ∷ a.m4 ∷ a.m5 ∷ []

-- A `Packet` without its list pointer; its length is the number of its bytes.
pub record Packet : Type 0 where
  pub ip : Ip
  pub port : ℕ
  pub contents : List ℕ

-- `EthernetLayer`; the type is 0x8 for IPv4.
unfoldable pub ethernet_layer : Mac → Mac → ℕ → List ℕ
ethernet_layer destination source type = mac_bytes destination ++ (mac_bytes source ++ bytes16 type)

-- `Ipv4Layer` as the sender fills it. The field `version` is the low half of the first byte, and
-- gets 5; `ihl` is the high half, and gets 4.
unfoldable pub ipv4_layer : Ip → Ip → ℕ → ℕ → List ℕ
ipv4_layer source destination size checksum =
    (4 * 16 + 5)
    ∷ 0
    ∷ (bytes16 (swap16 size)
        ++ (0
            ∷ 0
            ∷ 0
            ∷ 0
            ∷ 0x80
            ∷ 0x11
            ∷ (bytes16 checksum ++ (ip_bytes source ++ ip_bytes destination))))

-- `UdpLayer` and the contents behind it.
unfoldable pub udp_layer : ℕ → ℕ → ℕ → ℕ → List ℕ → List ℕ
udp_layer source destination size checksum contents =
    bytes16 (swap16 source)
    ++ (bytes16 (swap16 destination) ++ (bytes16 (swap16 size) ++ (bytes16 checksum ++ contents)))

-- A checksum loop may take three rounds: a `uint32_t` is below 2^17 after the first, and below
-- 2^16 after the second.
abbrev pub fold_fuel : ℕ
fold_fuel = 3

-- The words of an address, as `ipv4->source[0] | ipv4->source[1] << 8` and so on.
abbrev pub ip_words : Ip → ℕ
ip_words a = (a.b0 + 256 * a.b1) + (a.b2 + 256 * a.b3)

-- What the UDP checksum takes in of the IPv4 layer.
unfoldable pub pseudo_sum : Ip → Ip → ℕ → ℕ
pseudo_sum source destination size =
    swap16 size + 0x11 * 256 + ip_words source + ip_words destination

-- The parts of the network state that go into a packet.
pub record Host : Type 0 where
  pub mac : Mac
  pub ip : Ip
  pub router : Mac

-- One round of the loop over `send`, up to `sendPacket`: the frame of a packet of a connection.
unfoldable pub build_frame : Host → ℕ → Packet → Option (List ℕ)
build_frame host port packet =
    let size : ℕ = u16 (20 + 8 + length packet.contents) in
    let udp_size : ℕ = u16 (8 + length packet.contents) in
    let udp : ℕ → List ℕ = λ c. udp_layer port packet.port udp_size c packet.contents in
    fold_carry fold_fuel (sum16 0 (ipv4_layer host.ip packet.ip size 0)) >>= λ ipv4_sum.
    fold_carry fold_fuel (u32 (sum16 0 (udp 0) + pseudo_sum host.ip packet.ip udp_size))
    >>= λ udp_sum. some (
        ethernet_layer host.router host.mac 0x8
        ++ (ipv4_layer host.ip packet.ip size (complement16 ipv4_sum)
            ++ udp (complement16 udp_sum)))

-- A `ConnectionData`: where it is, its port, the packets that have come for it and those to be sent.
pub record Connection : Type 0 where
  pub at : ℕ
  pub port : ℕ
  pub received : List Packet
  pub send : List Packet

pub record Station : Type 0 where
  pub host : Host
  pub connections : List Connection

-- The test of a frame's destination: each byte is that of the station's address, or 0xFF.
unfoldable pub accepts : Mac → Mac → Bool
accepts mac d =
    let ok : ℕ → ℕ → Bool = λ own byte. (byte == own) || (byte == 0xFF) in
    ok mac.m0 d.m0
    && (ok mac.m1 d.m1
        && (ok mac.m2 d.m2 && (ok mac.m3 d.m3 && (ok mac.m4 d.m4 && ok mac.m5 d.m5))))

-- What the layers' fields read in a frame; a byte behind its end reads 0.
module _ (frame : List ℕ) where
  abbrev pub byte_at : ℕ → ℕ
  byte_at i = get_or frame i 0

  abbrev pub word_at : ℕ → ℕ
  word_at i = byte_at i + 256 * byte_at (suc i)

  abbrev pub mac_at : ℕ → Mac
  mac_at i = record {
    m0 = byte_at i;
    m1 = byte_at (i + 1);
    m2 = byte_at (i + 2);
    m3 = byte_at (i + 3);
    m4 = byte_at (i + 4);
    m5 = byte_at (i + 5);
  }

  -- The packet that a connection gets: its length is the datagram's less the header's 8,
  -- computed in 64 bits and kept in 16, and its port is the connection's, that is the datagram's destination.
  unfoldable pub arrived : Packet
  arrived = record {
    ip = record { b0 = byte_at 26; b1 = byte_at 27; b2 = byte_at 28; b3 = byte_at 29 };
    port = swap16 (word_at 36);
    contents = take (u16 (sub64 (swap16 (word_at 38)) 8)) (drop 42 frame);
  }

-- The walk over the connections; each one with the packet's port gets it.
unfoldable pub deliver : Packet → List Connection → List Connection
deliver packet [] = []
deliver packet (c ∷ rest) =
    (if c.port == packet.port then record c { received = c.received ++ (packet ∷ []) } else c)
    ∷ deliver packet rest

unfoldable pub is_open : ℕ → List Connection → Bool
is_open port [] = false
is_open port (c ∷ rest) = (c.port == port) || is_open port rest

-- The router's address is taken from the first frame that a connection gets.
unfoldable pub learn : List ℕ → Station → Mac
learn frame s =
    if is_open (arrived frame).port s.connections && (s.host.router.m0 == 0xFF)
    then mac_at frame 6
    else s.host.router

-- One round of the loop over `ethernetPackets` for a frame that is not ARP's.
unfoldable pub receive : List ℕ → Station → Station
receive frame s =
    if accepts s.host.mac (mac_at frame 0)
      && ((word_at frame 12 == 0x8) && (byte_at frame 23 == 0x11))
    then record {
      host = record { mac = s.host.mac; ip = s.host.ip; router = learn frame s };
      connections = deliver (arrived frame) s.connections;
    }
    else s
