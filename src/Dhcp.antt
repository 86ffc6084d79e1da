-- ===== src/Dhcp.antt =====
-- The DHCP client in `start` of src/main.c: the request it sends first, and its answer to an offer.
--
-- A message is a list of bytes. A read behind its end is a read of other memory, and is `none`.
pub mod Lease
pub mod Options
mod Tests
use korby_os.Base.{
  ℕ, zero, suc, ◌+◌, ◌-◌, Option, none, some, List, [], ◌∷◌, ◌++◌, ◌==◌, true, false, if◌then◌else◌,
  length, get_elem?, drop, replicate, ◌>>=◌,
}
use korby_os.Net.{Ip, Mac, Packet, ip_bytes, mac_bytes}

-- A `DhcpLayer` that is cleared, and gets its first fields, the card's address and the first bytes
-- of `options`, which has 312.
unfoldable pub dhcp_layer : Mac → List ℕ → List ℕ
dhcp_layer mac options =
    (1 ∷ 1 ∷ 6 ∷ 0 ∷ 0x12 ∷ 0x34 ∷ 0x56 ∷ 0x78 ∷ replicate 20 0)
    ++ (mac_bytes mac ++ (replicate 202 0 ++ (options ++ replicate (312 - length options) 0)))

-- The message that is sent to everyone before the loop.
unfoldable pub discover : Mac → Packet
discover mac = record {
  ip = record { b0 = 255; b1 = 255; b2 = 255; b3 = 255 };
  port = 67;
  contents =
      dhcp_layer mac (0x63 ∷ 0x82 ∷ 0x53 ∷ 0x63 ∷ 0x35 ∷ 1 ∷ 1 ∷ 0x37 ∷ 3 ∷ 1 ∷ 3 ∷ 6 ∷ 0xFF ∷ []);
}

-- The answer to an offer of an address by a server.
unfoldable pub request : Mac → Ip → Ip → Packet
request mac offered server = record {
  ip = server;
  port = 67;
  contents = dhcp_layer mac (
      0x63 ∷ 0x82 ∷ 0x53 ∷ 0x63 ∷ 0x35 ∷ 1 ∷ 3 ∷ 0x32 ∷ 4 ∷ offered.b0 ∷ offered.b1 ∷ offered.b2
      ∷ offered.b3 ∷ 0x36 ∷ 4 ∷ server.b0 ∷ server.b1 ∷ server.b2 ∷ server.b3 ∷ 0xFF ∷ []);
}

unfoldable pub leading_address : List ℕ → Option Ip
leading_address (a ∷ b ∷ c ∷ d ∷ bytes) = some (record { b0 = a; b1 = b; b2 = c; b3 = d })
leading_address _ = none

-- The four bytes from `i` on.
unfoldable pub address_at : ℕ → List ℕ → Option Ip
address_at i bytes = leading_address (drop i bytes)

-- What an option of a kind leaves as the DNS server's address.
unfoldable pub server_of : List ℕ → ℕ → Ip → Option Ip
server_of option kind dns = if kind == 6 then address_at 2 option else some dns

-- The loop over the options, from `option` on. Each round passes a byte or more, so the length of
-- the message is enough fuel.
unfoldable pub read_options : ℕ → List ℕ → Ip → Option Ip
read_options zero option dns = none
read_options (suc fuel) option dns = get_elem? option 0 >>= λ kind.
    if kind == 0xFF
    then some dns
    else (server_of option kind dns >>= λ dns'.
        get_elem? option 1 >>= λ size. read_options fuel (drop (size + 2) option) dns')

-- The card's address, the addresses that were learned, and the queues of `dhcpConnection`.
pub record Client : Type 0 where
  pub mac : Mac
  pub ip : Ip
  pub dns : Ip
  pub received : List Packet
  pub send : List Packet

-- The answer to the first packet that was received.
unfoldable pub accept : Packet → Client → Option Client
accept packet s = address_at 16 packet.contents >>= λ offered.
    read_options (suc (length packet.contents)) (drop 240 packet.contents) s.dns >>= λ dns.
    some
      (record s { ip = offered; dns = dns; send = s.send ++ request s.mac offered packet.ip ∷ [] })

-- What a round of the loop does while there is no address.
unfoldable pub dhcp : Client → Option Client
dhcp s =
    if s.ip.b0 == 0
    then elim s.received [ [] ↦ some s | packet ∷ more ↦ accept packet s ]
    else some s
