-- ===== src/Net/Frame.antt =====
-- The frames that the sender builds: both of their checksums verify.
use korby_os.Base.{
  ◌/◌, [], ◌∷◌, ℕ, ◌+◌, ◌-◌, ◌%◌, ◌^◌, ◌<◌, ◌≤◌, ◌≡◌, refl, ap, ◌∙◌, some, List, ◌++◌, u16, u32,
  length, arith,
}
use korby_os.Net.{
  ip_bytes, swap16, sum16, complement16, Ip, Packet, ethernet_layer, ipv4_layer, udp_layer,
  pseudo_sum, Host, build_frame,
}
use korby_os.Net.Checksum.{
  Folded, fold_carry-Folded, sum_complement, IsVerified, words-IsVerified, words, Bytes,
  words_bound, sum16-words,
}

pub record IsIp (a : Ip) : Type 0 where
  pub byte0 : a.b0 < 256
  pub byte1 : a.b1 < 256
  pub byte2 : a.b2 < 256
  pub byte3 : a.b3 < 256

-- What a caller may send: an address of bytes, and contents of bytes that fit in one IPv4 packet.
pub record Sendable (packet : Packet) : Type 0 where
  pub address : IsIp packet.ip
  pub bytes : Bytes packet.contents
  pub fits : length packet.contents ≤ 0xFFFF - 28

-- The sum of a header of which the checksum field is filled in.
header_words :
    (source destination : Ip) (size c : ℕ)
    → words (ipv4_layer source destination size c)
      ≡ words (ipv4_layer source destination size 0) + c % 2 ^ 16
unfolding ipv4_layer
header_words source destination size c = omega arith

header_small :
    (source destination : Ip) (size : ℕ)
    → IsIp source
    → IsIp destination
    → words (ipv4_layer source destination size 0) < 2 ^ 24
unfolding ipv4_layer
header_small source destination size s d = omega (arith, s, d)

datagram_words :
    (source destination size c : ℕ) (contents : List ℕ)
    → words (udp_layer source destination size c contents)
      ≡ words (udp_layer source destination size 0 contents) + c % 2 ^ 16
unfolding udp_layer
datagram_words source destination size c contents = omega arith

datagram_small :
    (source destination size : ℕ) (contents : List ℕ)
    → Bytes contents
    → length contents ≤ 0xFFFF - 28
    → words (udp_layer source destination size 0 contents) < 2 ^ 31 + 2 ^ 24
unfolding udp_layer
datagram_small source destination size contents bytes fits =
    omega (arith, words_bound contents bytes, fits)

pseudo_small :
    (source destination : Ip) (size : ℕ)
    → IsIp source
    → IsIp destination
    → pseudo_sum source destination size < 2 ^ 24
unfolding pseudo_sum swap16
pseudo_small source destination size s d = omega (arith, s, d)

-- The pseudo header of a datagram: the addresses, a 0, the protocol, and the size, high byte first.
abbrev pub pseudo_header : Ip → Ip → ℕ → List ℕ
pseudo_header source destination size =
    ip_bytes source ++ (ip_bytes destination ++ (0 ∷ 17 ∷ size / 256 ∷ size % 256 ∷ []))

pseudo_words :
    (source destination : Ip) (size : ℕ) (datagram : List ℕ)
    → size < 2 ^ 16
    → words (pseudo_header source destination size ++ datagram)
      ≡ words datagram + pseudo_sum source destination size
unfolding pseudo_sum swap16
pseudo_words source destination size datagram small = omega (arith, small)

-- What is sent: a frame that ends in an IPv4 header and a UDP datagram; the header verifies, and so does
-- the datagram behind its pseudo header.
pub record Verifies (host : Host) (port : ℕ) (packet : Packet) (frame : List ℕ) : Type 0 where
  pub header_checksum : ℕ
  pub datagram_checksum : ℕ
  pub header : List ℕ
  pub datagram : List ℕ
  pub header_is :
      header ≡ ipv4_layer host.ip packet.ip (28 + length packet.contents) header_checksum
  pub datagram_is :
      datagram
      ≡ udp_layer port packet.port (8 + length packet.contents) datagram_checksum packet.contents
  pub layout : frame ≡ ethernet_layer host.router host.mac 0x8 ++ (header ++ datagram)
  pub header_verifies : IsVerified header
  pub datagram_verifies :
      IsVerified (pseudo_header host.ip packet.ip (8 + length packet.contents) ++ datagram)

header-IsVerified :
    (source destination : Ip) (size r : ℕ)
    → IsIp source
    → IsIp destination
    → Folded (words (ipv4_layer source destination size 0)) r
    → IsVerified (ipv4_layer source destination size (complement16 r))
header-IsVerified source destination size r s d f =
    (let small = header_small source destination size s d in
      let (k, multiple) =
        sum_complement (words (ipv4_layer source destination size 0)) r f (omega (arith, small)) in
      words-IsVerified _ k
        (header_words source destination size (complement16 r) ∙ omega (arith, multiple)))

datagram-IsVerified :
    (source destination : Ip) (from to size r : ℕ) (contents : List ℕ)
    → size < 2 ^ 16
    → Bytes contents
    → length contents ≤ 0xFFFF - 28
    → pseudo_sum source destination size < 2 ^ 24
    → Folded (words (udp_layer from to size 0 contents) + pseudo_sum source destination size) r
    → IsVerified
        (pseudo_header source destination size ++ udp_layer from to size (complement16 r) contents)
datagram-IsVerified source destination from to size r contents low bytes fits p f =
    (let small = datagram_small from to size contents bytes fits in
      let (k, multiple) =
        sum_complement
          (words (udp_layer from to size 0 contents) + pseudo_sum source destination size) r f
          (omega (arith, small, p)) in
      words-IsVerified
        (pseudo_header source destination size ++ udp_layer from to size (complement16 r) contents)
        k
        (pseudo_words source destination size (udp_layer from to size (complement16 r) contents) low
          ∙ omega (arith, datagram_words from to size (complement16 r) contents, multiple)))

-- From a host with an address of bytes, every packet that fits is built into a frame, whatever
-- the port: the checksum loops end, and the one's complement sum of the words, high byte first, is all ones
-- for the IPv4 header, and for the datagram behind the pseudo header of the two addresses, the protocol
-- and the size.
pub build_frame-Verifies :
    (host : Host) (port : ℕ) (packet : Packet)
    → IsIp host.ip
    → Sendable packet
    → (frame : List ℕ) × (build_frame host port packet ≡ some frame)
      × Verifies host port packet frame
unfolding build_frame
build_frame-Verifies host port packet i s =
    let n : ℕ = length packet.contents in
    let whole : u16 (20 + 8 + n) ≡ 28 + n = omega (arith, s.fits) in
    let part : u16 (8 + n) ≡ 8 + n = omega (arith, s.fits) in
    let header0 : List ℕ = ipv4_layer host.ip packet.ip (28 + n) 0 in
    let datagram0 : List ℕ = udp_layer port packet.port (8 + n) 0 packet.contents in
    let pseudo : ℕ = pseudo_sum host.ip packet.ip (8 + n) in
    let header_bound : words header0 < 2 ^ 24 =
      header_small host.ip packet.ip (28 + n) i s.address in
    let datagram_bound : words datagram0 < 2 ^ 31 + 2 ^ 24 =
      datagram_small port packet.port (8 + n) packet.contents s.bytes s.fits in
    let pseudo_bound : pseudo < 2 ^ 24 = pseudo_small host.ip packet.ip (8 + n) i s.address in
    let (r, header_runs, f) = fold_carry-Folded (words header0) (omega (arith, header_bound)) in
    let (q, datagram_runs, g) =
      fold_carry-Folded (words datagram0 + pseudo) (omega (arith, datagram_bound, pseudo_bound)) in
    let header_sum : sum16 0 header0 ≡ words header0 =
      sum16-words 0 header0 (omega (arith, header_bound)) ∙ omega arith in
    let datagram_sum : u32 (sum16 0 datagram0 + pseudo) ≡ words datagram0 + pseudo =
      ap (λ a. u32 (a + pseudo)) (sum16-words 0 datagram0 (omega (arith, datagram_bound)))
      ∙ omega (arith, datagram_bound, pseudo_bound) in
    (
      _,
      rw (whole, part, header_sum, header_runs, datagram_sum, datagram_runs),
      record {
        header_checksum = complement16 r;
        datagram_checksum = complement16 q;
        header = _;
        datagram = _;
        header_is = refl;
        datagram_is = refl;
        layout = refl;
        header_verifies = header-IsVerified host.ip packet.ip (28 + n) r i s.address f;
        datagram_verifies =
            datagram-IsVerified host.ip packet.ip port packet.port (8 + n) q packet.contents
              (omega (arith, s.fits)) s.bytes s.fits pseudo_bound g;
      },
    )
