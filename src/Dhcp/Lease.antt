-- ===== src/Dhcp/Lease.antt =====
-- What the client makes of an offer: it takes the address and asks the server for it.
use mathlib.Core.List.{append_assoc}
use korby_os.Base.{
  ℕ, suc, ◌<◌, ◌≡◌, refl, ap, sym, ◌∙◌, Option, some, List, [], ◌∷◌, ◌++◌, ◌==◌, length, drop,
  replicate, length-append, if_yes, arith, ◌>>=◌,
}
use korby_os.Dhcp.{
  leading_address, address_at, read_options, dhcp_layer, request, Client, accept, dhcp,
}
use korby_os.Dhcp.Options.{
  Setting, encode, WellFormed, last_dns, drop-++, length-encode, read_options-encode,
}
use korby_os.Net.{Ip, Packet, ip_bytes}

-- A message that offers an address: what stands before it, between it and the options, and behind
-- them is free.
pub record Offer : Type 0 where
  pub address : Ip
  pub settings : List Setting
  pub front : List ℕ
  pub middle : List ℕ
  pub behind : List ℕ

abbrev pub message : Offer → List ℕ
message o = o.front ++ (ip_bytes o.address ++ (o.middle ++ encode o.settings o.behind))

pub record IsOffer (o : Offer) : Type 0 where
  pub front : length o.front ≡ 16
  pub middle : length o.middle ≡ 220
  pub formed : WellFormed o.settings

-- The client has the address and the last DNS server of the offer, and sends the server a request
-- for the address.
pub record Leased (o : Offer) (server : Ip) (s t : Client) : Type 0 where
  pub ip : t.ip ≡ o.address
  pub dns : t.dns ≡ last_dns o.settings s.dns
  pub answer : Packet
  pub sent : t.send ≡ s.send ++ answer ∷ []
  pub to : answer.ip ≡ server
  pub port : answer.port ≡ 67
  pub size : length answer.contents ≡ 548
  pub options :
      drop 240 answer.contents
      ≡ encode
          (record { kind = 53; value = 3 ∷ [] }
            ∷ record { kind = 50; value = ip_bytes o.address }
            ∷ record { kind = 54; value = ip_bytes server }
            ∷ [])
          (replicate 292 0)

module _ (o : Offer) (is : IsOffer o) where
  message-address : address_at 16 (message o) ≡ some o.address
  unfolding address_at leading_address
  message-address =
      ap leading_address (ap (λ n. drop n (message o)) (sym is.front) ∙ drop-++ o.front _)

  message-options : drop 240 (message o) ≡ encode o.settings o.behind
  message-options =
      (let before = o.front ++ (ip_bytes o.address ++ o.middle) in
        let size : length before ≡ 240 =
          (let front = is.front in
            let middle = is.middle in
            omega (arith, length-append o.front (ip_bytes o.address ++ o.middle))) in
        let split : message o ≡ before ++ encode o.settings o.behind =
          sym
            (append_assoc o.front (ip_bytes o.address ++ o.middle) (encode o.settings o.behind)) in
        ap (drop 240) split
        ∙ (ap (λ n. drop n (before ++ encode o.settings o.behind)) (sym size) ∙ drop-++ before _))

  length-message : length o.settings < length (message o)
  length-message = omega (
    arith,
    length-encode o.settings o.behind,
    length-append o.front (ip_bytes o.address ++ (o.middle ++ encode o.settings o.behind)),
    length-append o.middle (encode o.settings o.behind),
  )

-- The client with an address, and the request for it sent.
abbrev leased : Packet → Ip → Ip → Client → Client
leased packet address dns s = record s {
  ip = address;
  dns = dns;
  send = s.send ++ request s.mac address packet.ip ∷ [];
}

accept-message :
    (o : Offer) (packet : Packet) (s : Client)
    → IsOffer o
    → packet.contents ≡ message o
    → accept packet s ≡ some (leased packet o.address (last_dns o.settings s.dns) s)
unfolding accept
accept-message o packet s is e =
    ap
      (λ c. address_at 16 c >>= λ offered.
        read c (drop 240 c) >>= λ dns. some (leased packet offered dns s))
      e
    ∙ (ap
          (λ a. a >>= λ offered.
            read (message o) (drop 240 (message o)) >>= λ dns. some (leased packet offered dns s))
          (message-address o is)
        ∙ ap (λ d. d >>= λ dns. some (leased packet o.address dns s))
            (ap (read (message o)) (message-options o is)
              ∙ read_options-encode (suc (length (message o))) o.settings o.behind s.dns is.formed
                  (omega (arith, length-message o is))))
  where
    read : List ℕ → List ℕ → Option Ip
    read whole options = read_options (suc (length whole)) options s.dns

leased-Leased :
    (o : Offer) (server : Ip) (port : ℕ) (s : Client)
    → Leased o server s (
        leased
          (record { ip = server; port = port; contents = message o })
          o.address
          (last_dns o.settings s.dns)
          s)
unfolding request dhcp_layer
leased-Leased o server port s = record {
  ip = refl;
  dns = refl;
  answer = request s.mac o.address server;
  sent = refl;
  to = refl;
  port = refl;
  size = refl;
  options = refl;
}

-- A client without an address, whose first packet is an offer with well-formed options, ends with
-- the offered address and the last DNS server of the options, and sends the offer's sender a message
-- of which the options ask for that address.
pub dhcp-Leased :
    (o : Offer) (server : Ip) (port : ℕ) (more : List Packet) (s : Client)
    → IsOffer o
    → s.ip.b0 ≡ 0
    → s.received ≡ record { ip = server; port = port; contents = message o } ∷ more
    → (t : Client) × (dhcp s ≡ some t) × Leased o server s t
unfolding dhcp
dhcp-Leased o server port more s is unset first = (
  _,
  if_yes {b = s.ip.b0 == 0} _ (some s) (ground arith)
      ∙ (ap (λ l. elim l [ [] ↦ some s | packet ∷ rest ↦ accept packet s ]) first
          ∙ accept-message o _ s is refl),
  leased-Leased o server port s,
)
