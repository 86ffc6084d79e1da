-- ===== src/Net/Exchange.antt =====
-- Two stations: what one sends in a round, the other has after its next round.
use mathlib.Core.List.{append_assoc, append-nil}
use korby_os.Base.{
  bind-some, ◌+◌, ◌≤◌, leb, length, take, ℕ, suc, ◌^◌, ◌<◌, ◌≡◌, refl, sym, ap, ap₂, ◌∙◌, true,
  false, ◌&&◌, none, some, List, [], ◌∷◌, ◌++◌, ◌==◌, if◌then◌else◌, All, if_yes, if_no, if_both,
  arith,
}
use korby_os.Net.{
  Packet, Host, Connection, Station, accepts, mac_at, ethernet_layer, ipv4_layer, udp_layer,
  deliver, is_open,
}
use korby_os.Net.Arp.{answer}
use korby_os.Net.Connections.{
  sized, all_short, is_queue, send_packets, send_all, handle_frame, handle_frames, network_round,
  own_byte, answers,
}
use korby_os.Net.Frame.{IsIp, Sendable}
use korby_os.Net.Receive.{
  take-length, from_host, after_packet, built, build_frame-built, receive-built,
}

-- The packets that wait, in the order of the connections.
unfoldable pub outgoing : List Connection → List Packet
outgoing [] = []
outgoing (c ∷ rest) = c.send ++ outgoing rest

-- A packet that fits, in an entry of the queue of frames too, to a port.
pub record Fits (p : Packet) : Type 0 where
  pub sendable : Sendable p
  pub port : p.port < 2 ^ 16
  pub short : 42 + length p.contents ≤ 2048

-- Each frame is a packet's, and of the host.
pub data Carries (host : Host) : List Packet → List (List ℕ) → Type 0 where
  nothing : Carries host [] []
  more :
      {p : Packet} {ps : List Packet} {fs : List (List ℕ)} (port c d : ℕ)
      → Fits p
      → Carries host ps fs
      → Carries host (p ∷ ps) (built host port p c d ∷ fs)

length-built :
    (host : Host) (port : ℕ) (p : Packet) (c d : ℕ)
    → length (built host port p c d) ≡ 42 + length p.contents
unfolding ethernet_layer ipv4_layer udp_layer
length-built host port p c d = omega arith

sized-built :
    (host : Host) (port : ℕ) (p : Packet) (c d : ℕ)
    → Fits p
    → sized (built host port p c d) ≡ built host port p c d
sized-built host port p c d h =
    ap (λ n. take n (built host port p c d)) (omega (arith, length-built host port p c d, h.short))
    ∙ take-length (built host port p c d)

-- The frames are as many as the packets, and fit in the queue's entries.
Carries-short :
    (host : Host) (ps : List Packet) (fs : List (List ℕ))
    → Carries host ps fs
    → (length fs ≡ length ps) × (all_short fs ≡ true)
unfolding all_short
Carries-short host _ _ nothing = (refl, refl)
Carries-short host _ _ (more {p} {ps} {fs} port c d fits h) =
    (let (size, short) = Carries-short host ps fs h in
      let long = length-built host port p c d in
      let room = fits.short in
      let one : leb (length (built host port p c d)) 2048 ≡ true = ground (arith, long, room) in
      (ap suc size, ap₂ ◌&&◌ one short))

unfoldable pub emptied : List Connection → List Connection
emptied [] = []
emptied (c ∷ rest) = record c { send = [] } ∷ emptied rest

All-append : (ps qs : List Packet) → All Fits (ps ++ qs) → All Fits ps × All Fits qs
All-append [] qs h = (_, h)
All-append (p ∷ ps) qs h = (let (first, second) = All-append ps qs h.1 in ((h.0, first), second))

Carries-append :
    (host : Host) (ps qs : List Packet) (fs gs : List (List ℕ))
    → Carries host ps fs
    → Carries host qs gs
    → Carries host (ps ++ qs) (fs ++ gs)
Carries-append host _ qs _ gs nothing k = k
Carries-append host _ qs _ gs (more port c d fits h) k =
    more port c d fits (Carries-append host _ qs _ gs h k)

module _ (host : Host) (own_ip : IsIp host.ip) where
  send_packets-Carries :
      (port : ℕ) (ps : List Packet)
      → All Fits ps
      → (fs : List (List ℕ)) × (send_packets host port ps ≡ some fs) × Carries host ps fs
  unfolding send_packets
  send_packets-Carries port [] h = ([], refl, nothing)
  send_packets-Carries port (p ∷ ps) h =
      let (c, d, builds) = build_frame-built host port p own_ip h.0.sendable in
      let (fs, sends, carries) = send_packets-Carries port ps h.1 in
      (
        built host port p c d ∷ fs,
        bind-some _ builds
            (bind-some _ sends (ap (λ f. some (f ∷ fs)) (sized-built host port p c d h.0))),
        more port c d h.0 carries,
      )

  send_all-Carries :
      (cs : List Connection)
      → All Fits (outgoing cs)
      → (fs : List (List ℕ)) × (send_all host cs ≡ some (fs, emptied cs))
        × Carries host (outgoing cs) fs
  unfolding send_all outgoing emptied
  send_all-Carries [] h = ([], refl, nothing)
  send_all-Carries (c ∷ cs) h =
      let (own, others) = All-append c.send (outgoing cs) h in
      let (fs, sends, carries) = send_packets-Carries c.port c.send own in
      let (gs, later, rest) = send_all-Carries cs others in
      (
        fs ++ gs,
        bind-some _ sends (bind-some _ later refl),
        Carries-append host c.send (outgoing cs) fs gs carries rest,
      )

module _ (host : Host) where
  -- A frame of UDP is no ARP request.
  answer-built :
      (port own c d : ℕ) (p : Packet) (other : Host)
      → answer (built host port p c d) own other ≡ none
  unfolding answer ethernet_layer
  answer-built port own c d p other =
      if_no {b = accepts other.mac (mac_at (built host port p c d) 0) && false} _ none
        (ground arith)

  -- A station after packets of the host.
  after_packets : List Packet → Station → Station
  after_packets [] s = s
  after_packets (p ∷ ps) s = after_packets ps (after_packet host p s)

  handle_frames-Carries :
      (beyond : ℕ → ℕ) (i : ℕ) (ps : List Packet) (fs : List (List ℕ)) (s : Station)
      → Carries host ps fs
      → handle_frames beyond i fs s ≡ ([], after_packets ps s)
  unfolding handle_frames handle_frame after_packets
  handle_frames-Carries beyond i _ _ s nothing = refl
  handle_frames-Carries beyond i _ _ s (more {p} {ps} {fs} port c d fits h) =
      ap₂
        (λ o t. (
          answers o ++ (handle_frames beyond (suc i) fs t).0,
          (handle_frames beyond (suc i) fs t).1,
        ))
        (answer-built port (own_byte beyond s.host.mac i) c d p s.host)
        (receive-built host port p c d s fits.port fits.sendable.fits)
      ∙ handle_frames-Carries beyond (suc i) ps fs (after_packet host p s) h

  -- What is for a port, with the host as its origin.
  unfoldable pub for_port : ℕ → List Packet → List Packet
  for_port port [] = []
  for_port port (p ∷ ps) =
      let later = for_port port ps in if port == p.port then from_host host p ∷ later else later

  unfoldable pub gained : List Packet → List Connection → List Connection
  gained ps [] = []
  gained ps (c ∷ cs) = record c { received = c.received ++ for_port c.port ps } ∷ gained ps cs

  gained-nothing : (cs : List Connection) → gained [] cs ≡ cs
  unfolding gained for_port
  gained-nothing [] = refl
  gained-nothing (c ∷ cs) =
      ap₂ (λ r l. record c { received = r } ∷ l) (append-nil c.received) (gained-nothing cs)

  gained-deliver :
      (p : Packet) (ps : List Packet) (cs : List Connection)
      → gained ps (deliver (from_host host p) cs) ≡ gained (p ∷ ps) cs
  unfolding gained deliver for_port
  gained-deliver p ps [] = refl
  gained-deliver p ps (c ∷ cs) =
      ap₂ ◌∷◌
        (if_both
          (λ (d : Connection).
            record d { received = d.received ++ for_port d.port ps }
            ≡ record c { received = c.received ++ for_port c.port (p ∷ ps) })
          (c.port == p.port)
          (λ (e : c.port == p.port ≡ true).
            ap (λ r. record c { received = r })
              (append_assoc c.received (from_host host p ∷ []) (for_port c.port ps)
                ∙ ap (λ l. c.received ++ l) (sym (if_yes {b = c.port == p.port} _ _ e))))
          (λ (e : c.port == p.port ≡ false).
            ap (λ l. record c { received = c.received ++ l })
              (sym (if_no {b = c.port == p.port} _ _ e))))
        (gained-deliver p ps cs)

  -- A station that the host sends to, after a packet.
  abbrev met : Packet → Station → Station
  met p s = record {
    host = record {
      mac = s.host.mac;
      ip = s.host.ip;
      router =
          if is_open p.port s.connections && (s.host.router.m0 == 0xFF)
          then host.mac
          else s.host.router;
    };
    connections = deliver (from_host host p) s.connections;
  }

  after_packets-gained :
      (ps : List Packet) (s : Station)
      → accepts s.host.mac host.router ≡ true
      → (after_packets ps s).connections ≡ gained ps s.connections
  unfolding after_packets
  after_packets-gained [] s taken = sym (gained-nothing s.connections)
  after_packets-gained (p ∷ ps) s taken =
      ap (λ t. (after_packets ps t).connections) (if_yes (met p s) s taken)
      ∙ (after_packets-gained ps (met p s) taken ∙ gained-deliver p ps s.connections)

-- At most 255 packets wait at one station, they are for ports of 16 bits and fit, each in a frame of at
-- most 2048 bytes, and its address is one of bytes; it sends to an address of which each byte is the
-- other station's or 0xFF. Then its round without new frames sends a frame for each packet and leaves
-- none waiting, the frames fit in the other station's empty queue, which answers none of them, and each
-- of its connections gains the packets for its port, in the order in which they waited and with the
-- sender's address.
pub network_round-handle_frames :
    (beyond : ℕ → ℕ) (a b : Station)
    → IsIp a.host.ip
    → All Fits (outgoing a.connections)
    → length (outgoing a.connections) ≤ 255
    → accepts b.host.mac a.host.router ≡ true
    → (frames : List (List ℕ)) × (t : Station) × (network_round beyond [] a
        ≡ some (frames, record a { connections = emptied a.connections }))
      × (length frames ≡ length (outgoing a.connections))
      × (is_queue frames ≡ true)
      × (handle_frames beyond 0 frames b ≡ ([], t))
      × (t.connections ≡ gained a.host (outgoing a.connections) b.connections)
unfolding network_round handle_frames all_short
network_round-handle_frames beyond a b own_ip fit few taken =
    let waiting = outgoing a.connections in
    let (frames, sends, carries) = send_all-Carries a.host own_ip a.connections fit in
    (
      frames,
      after_packets a.host waiting b,
      bind-some _ sends refl,
      (Carries-short a.host waiting frames carries).0,
      ap₂ ◌&&◌
          (let size = (Carries-short a.host waiting frames carries).0 in
            let fit : leb (length frames) 255 ≡ true = ground (arith, size, few) in fit)
          (Carries-short a.host waiting frames carries).1,
      handle_frames-Carries a.host beyond 0 waiting frames b carries,
      after_packets-gained a.host waiting b taken,
    )
