-- ===== src/Net/Connections.antt =====
-- The connections of src/main.c: `createConnection` and `closeConnection`, and what a round of the
-- loop of `start` does with the frames that came and with the packets that wait to be sent.
--
-- What is given to `sendPacket` is a list of frames. `addItem` returns the address of a connection,
-- which is an argument. The blocks of the packets are left out.
use korby_os.Base.{
  ℕ, Bool, true, leb, length, take, u16, ◌&&◌, suc, Option, none, some, List, [], ◌∷◌, ◌++◌, ◌==◌,
  if◌then◌else◌, get_or, ◌>>=◌,
}
use korby_os.Net.{Mac, mac_bytes, Packet, Host, Connection, Station, build_frame, receive}
use korby_os.Net.Arp.{answer}

unfoldable pub create_connection : ℕ → ℕ → List Connection → List Connection
create_connection at port connections =
    connections ++ record { at = at; port = port; received = []; send = [] } ∷ []

-- The loop of `closeConnection`, which ends at the connection.
unfoldable pub close_connection : ℕ → List Connection → List Connection
close_connection at [] = []
close_connection at (c ∷ rest) = if c.at == at then rest else c ∷ close_connection at rest

-- What `sendPacket` is given: its size is a `uint16_t`.
abbrev pub sized : List ℕ → List ℕ
sized frame = take (u16 (length frame)) frame

-- The loop over a connection's `send`.
unfoldable pub send_packets : Host → ℕ → List Packet → Option (List (List ℕ))
send_packets host port [] = some []
send_packets host port (p ∷ packets) = build_frame host port p >>= λ frame.
    send_packets host port packets >>= λ frames. some (sized frame ∷ frames)

-- The loop over the connections: what each one sends, and `send` emptied.
unfoldable pub send_all : Host → List Connection → Option (List (List ℕ) × List Connection)
send_all host [] = some ([], [])
send_all host (c ∷ rest) = send_packets host c.port c.send >>= λ frames.
    send_all host rest >>= λ later. some (frames ++ later.0, record c { send = [] } ∷ later.1)

-- `mac[i]`, which from the sixth byte on is other memory.
abbrev pub own_byte : (ℕ → ℕ) → Mac → ℕ → ℕ
own_byte beyond mac i = get_or (mac_bytes mac) i (beyond i)

abbrev pub answers : Option (List ℕ) → List (List ℕ)
answers none = []
answers (some frame) = frame ∷ []

-- `ethernetPackets` has 255 entries of 2048 bytes.
unfoldable pub all_short : List (List ℕ) → Bool
all_short [] = true
all_short (f ∷ frames) = leb (length f) 2048 && all_short frames

abbrev pub is_queue : List (List ℕ) → Bool
is_queue frames = leb (length frames) 255 && all_short frames

-- One round of the loop over `ethernetPackets`, with what is sent in answer.
unfoldable pub handle_frame : ℕ → List ℕ → Station → List (List ℕ) × Station
handle_frame own frame s = (answers (answer frame own s.host), receive frame s)

-- The loop, from index `i` on, over what `network_round` has found to be the entries of the array.
unfoldable pub handle_frames : (ℕ → ℕ) → ℕ → List (List ℕ) → Station → List (List ℕ) × Station
handle_frames beyond i [] s = ([], s)
handle_frames beyond i (f ∷ frames) s =
    (let handled = handle_frame (own_byte beyond s.host.mac i) f s in
      let later = handle_frames beyond (suc i) frames handled.1 in (handled.0 ++ later.0, later.1))

-- The network's part of a round: the frames that came, then the packets to be sent. More or longer
-- frames than the array holds are `none`.
unfoldable pub network_round : (ℕ → ℕ) → List (List ℕ) → Station → Option (List (List ℕ) × Station)
network_round beyond frames s =
    (let handled = handle_frames beyond 0 frames s in
      if is_queue frames
      then (send_all handled.1.host handled.1.connections >>= λ sent.
          some (handled.0 ++ sent.0, record handled.1 { connections = sent.1 }))
      else none)
