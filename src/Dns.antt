-- ===== src/Dns.antt =====
-- The query in src/programs/test/program.c: `start` asks a DNS server for a name, and `update` makes
-- an NTP request of the answer, and reads the time of the next one.
--
-- A message is a list of bytes. The count in front of a label is written as the label's bytes come,
-- and is a `uint8_t`.
pub mod Labels
pub mod Time
mod Tests
use korby_os.Base.{
  ℕ, zero, suc, ◌+◌, ◌-◌, ◌*◌, ◌/◌, ◌%◌, ◌^◌, Bool, true, false, Option, none, some, List, [], ◌∷◌,
  ◌++◌, ◌==◌, if◌then◌else◌, u8, length, take, drop, replicate, get_elem?, ◌>>=◌,
}
use korby_os.Net.{Ip, Packet, ip_bytes}
use korby_os.Dhcp.{address_at}

-- What stands in the message while the loop runs: the labels that are complete, each behind its
-- count, and the open one, `number` and the bytes behind it.
pub record Writer : Type 0 where
  pub complete : List ℕ
  pub number : ℕ
  pub label : List ℕ

-- One round of `while (*name)`.
unfoldable pub write_character : ℕ → Writer → Writer
write_character c w =
    if c == b'.'
    then record { complete = w.complete ++ w.number ∷ w.label; number = 0; label = [] }
    else record w { number = u8 (w.number + 1); label = w.label ++ c ∷ [] }

unfoldable pub write_all : List ℕ → Writer → Writer
write_all [] w = w
write_all (c ∷ name) w = write_all name (write_character c w)

-- The name as the loop leaves it, with the 0 behind it.
unfoldable pub write_name : List ℕ → List ℕ
write_name name =
    (let w = write_all name (record { complete = []; number = 0; label = [] }) in
      w.complete ++ (w.number ∷ (w.label ++ 0 ∷ [])))

-- `DnsLayer` with one question, the name, and its type and class.
unfoldable pub query : List ℕ → List ℕ
query name =
    (0x34 ∷ 0x12 ∷ 0x01 ∷ 0 ∷ 0 ∷ 1 ∷ 0 ∷ 0 ∷ 0 ∷ 0 ∷ 0 ∷ 0 ∷ [])
    ++ (write_name name ++ (0 ∷ 1 ∷ 0 ∷ 1 ∷ []))

-- `start`: the packet that is put in `send`. `size` is what the code computes for it.
unfoldable pub dns_size : List ℕ → ℕ
dns_size name = (12 + 6 + length name) % 2 ^ 16

unfoldable pub dns_packet : Ip → List ℕ → Packet
dns_packet dns name = record { ip = dns; port = 53; contents = query name }

-- `update` on the answer: the address behind the question and 12 bytes of the first record.
unfoldable pub ntp_packet : ℕ → Packet → Option Packet
ntp_packet size answer = address_at (size + 12) answer.contents >>= λ ip.
    some (record { ip = ip; port = 123; contents = 0x23 ∷ replicate 47 0 })

-- `*(uint32_t*)(packet->data + 40)`, with its bytes exchanged, modulo 60.
unfoldable pub swap32 : ℕ → ℕ
swap32 t =
    t / 2 ^ 24 % 2 ^ 8
    + t / 2 ^ 16 % 2 ^ 8 * 2 ^ 8
    + t / 2 ^ 8 % 2 ^ 8 * 2 ^ 16
    + t % 2 ^ 8 * 2 ^ 24

unfoldable pub word_of : List ℕ → Option ℕ
word_of (a ∷ b ∷ c ∷ d ∷ bytes) = some (a + 2 ^ 8 * b + 2 ^ 16 * c + 2 ^ 24 * d)
word_of _ = none

unfoldable pub seconds : Packet → Option ℕ
seconds answer = word_of (drop 40 answer.contents) >>= λ t. some (swap32 t % 60)
