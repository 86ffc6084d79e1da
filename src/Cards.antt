-- ===== src/Cards.antt =====
-- The two network cards of src/main.h: their rings of 256 descriptors, and the handlers and senders
-- that move frames between the rings and the kernel.
--
-- Memory is a function from addresses to bytes. An array of descriptors is a function from indexes;
-- an index behind its 256 entries is `none`. What is read of a card's cause register is an argument.
pub mod Addresses
pub mod Memory
pub mod Pci
pub mod Receive
pub mod Rings
pub mod Search
pub mod Send
pub mod Sweep
mod Tests
use korby_os.Base.{
  ℕ, zero, suc, ◌+◌, ◌-◌, ◌*◌, ◌/◌, ◌%◌, ◌^◌, Bool, true, false, not, ◌&&◌, ◌||◌, Option, none,
  some, List, [], ◌∷◌, ◌++◌, ◌==◌, if◌then◌else◌, ltb, leb, u16, u32, u64, length, ◌>>=◌,
}
use korby_os.Input.{Queue, push}

abbrev pub Ram : Type 0
Ram = ℕ → ℕ

abbrev pub update : {A : Type 0} → (ℕ → A) → ℕ → A → ℕ → A
update f i v j = if j == i then v else f j

-- `copyMemory` out of and into memory.
unfoldable pub read_bytes : Ram → ℕ → ℕ → List ℕ
read_bytes ram address zero = []
read_bytes ram address (suc size) = ram address ∷ read_bytes ram (address + 1) size

unfoldable pub write_bytes : List ℕ → ℕ → Ram → Ram
write_bytes [] address ram = ram
write_bytes (byte ∷ bytes) address ram = write_bytes bytes (address + 1) (update ram address byte)

-- The fields of the four kinds of descriptors that the code uses.
pub record E1000Rx : Type 0 where
  pub lower : ℕ
  pub upper : ℕ
  pub size : ℕ
  pub done : Bool
  pub tcp_udp_error : Bool
  pub ipv4_error : Bool
  pub error : Bool

pub record E1000Tx : Type 0 where
  pub lower : ℕ
  pub upper : ℕ
  pub size : ℕ
  pub end : Bool
  pub done : Bool

pub record Rtl8169Rx : Type 0 where
  pub size : ℕ
  pub end : Bool
  pub done : Bool
  pub vlan : ℕ
  pub lower : ℕ
  pub upper : ℕ

pub record Rtl8169Tx : Type 0 where
  pub size : ℕ
  pub last_segment : Bool
  pub first_segment : Bool
  pub end : Bool
  pub done : Bool
  pub lower : ℕ
  pub upper : ℕ

-- `(uint64_t)lower | ((uint64_t)upper << 32)`, of a `lower` of 32 bits.
abbrev pub address_of : ℕ → ℕ → ℕ
address_of lower upper = lower + upper * 2 ^ 32

-- `tail + 1`, and 0 at the end of the ring.
abbrev pub next_index : ℕ → ℕ
next_index i = if leb 256 (u32 (i + 1)) then 0 else u32 (i + 1)

-- The sending half of the e1000: register 0x3818, `txDescriptors` and memory.
pub record E1000Sender : Type 0 where
  pub tail : ℕ
  pub tx : ℕ → E1000Tx
  pub ram : Ram

unfoldable pub e1000_send : List ℕ → E1000Sender → E1000Sender
e1000_send bytes s =
    (let d = s.tx s.tail in
      record {
        tail = next_index s.tail;
        tx = update s.tx s.tail (record d { size = length bytes; end = true; done = false });
        ram = write_bytes bytes (address_of d.lower d.upper) s.ram;
      })

-- The receiving half: register 0x2818, `rxDescriptors`, memory and `ethernetPackets`.
pub record E1000Receiver : Type 0 where
  pub tail : ℕ
  pub rx : ℕ → E1000Rx
  pub ram : Ram
  pub packets : Queue (List ℕ)

-- A frame goes to the queue; one that is longer than the queue's 2048 bytes is `none`.
unfoldable pub take_frame : List ℕ → Queue (List ℕ) → Option (Queue (List ℕ))
take_frame frame packets = if leb (length frame) 2048 then push frame packets else none

unfoldable pub e1000_receive : E1000Receiver → Option E1000Receiver
e1000_receive s =
    (let tail = next_index s.tail in
      let d = s.rx tail in
      (if (d.error || d.ipv4_error) || d.tcp_udp_error
        then some s.packets
        else take_frame (read_bytes s.ram (address_of d.lower d.upper) d.size) s.packets)
      >>= λ packets. some (record s {
        packets = packets;
        rx = update s.rx tail (record d { done = false });
        tail = tail;
      }))

-- The handler, for the cause that was read; with the state comes the cause that is written back.
unfoldable pub e1000 : ℕ → E1000Receiver → Option (E1000Receiver × Option ℕ)
e1000 cause s =
    if cause % 2 ^ 20 == 0
    then some (s, none)
    else ((if cause / 0x80 % 2 == 1 then e1000_receive s else some s) >>= λ t.
        some (t, some (cause % 2 ^ 20)))

-- The rtl8169: `txCurrent`, which is never set back, and `txDescriptors`.
pub record Rtl8169Sender : Type 0 where
  pub current : ℕ
  pub tx : ℕ → Rtl8169Tx
  pub ram : Ram

unfoldable pub rtl8169_send : List ℕ → Rtl8169Sender → Option Rtl8169Sender
rtl8169_send bytes s =
    if ltb s.current 256
    then (let d = s.tx s.current in
        some (record {
          current = u16 (s.current + 1);
          tx = update s.tx s.current (record d {
            size = length bytes;
            first_segment = true;
            last_segment = true;
            done = true;
          });
          ram = write_bytes bytes (address_of d.lower d.upper) s.ram;
        }))
    else none

pub record Rtl8169Receiver : Type 0 where
  pub rx : ℕ → Rtl8169Rx
  pub ram : Ram
  pub packets : Queue (List ℕ)

-- One descriptor: `done` is the mark that the card still owns it.
unfoldable pub rtl8169_take : ℕ → Rtl8169Receiver → Option Rtl8169Receiver
rtl8169_take i s =
    (let d = s.rx i in
      if d.done
      then some s
      else (take_frame (read_bytes s.ram (address_of d.lower d.upper) d.size) s.packets
          >>= λ packets. some (record s {
            packets = packets;
            rx = update s.rx i (record d { size = 2048; vlan = 0; done = true });
          })))

-- The descriptors from `i` on.
unfoldable pub rtl8169_take_all : ℕ → ℕ → Rtl8169Receiver → Option Rtl8169Receiver
rtl8169_take_all zero i s = some s
rtl8169_take_all (suc rest) i s = rtl8169_take i s >>= rtl8169_take_all rest (suc i)

unfoldable pub rtl8169 : ℕ → Rtl8169Receiver → Option (Rtl8169Receiver × Option ℕ)
rtl8169 cause s =
    if cause == 0
    then some (s, none)
    else ((if (cause % 2 == 0) && (cause / 0x10 % 2 == 0) then some s else rtl8169_take_all 256 0 s)
        >>= λ t. some (t, some cause))
