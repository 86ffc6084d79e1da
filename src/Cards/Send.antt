-- ===== src/Cards/Send.antt =====
-- Packets that are sent one after another: the e1000's ring keeps up to 256 of them in order, and
-- the rtl8169's counter leaves the ring after its last descriptor.
use korby_os.Base.{
  ℕ, suc, ◌+◌, ◌-◌, ◌*◌, ◌%◌, ◌≤◌, ◌<◌, ◌≡◌, ◌≢◌, ◌↔◌, Bool-cases, inl, inr, refl, sym, ap, subst,
  ◌∙◌, true, false, Option, none, some, List, [], ◌∷◌, ◌==◌, ltb, length, All, if_yes, if_no,
  if_both, arith, ◌>>=◌,
}
use korby_os.Cards.{
  E1000Tx, E1000Sender, Ram, address_of, next_index, read_bytes, write_bytes, e1000_send,
  Rtl8169Sender, rtl8169_send,
}
use korby_os.Cards.Addresses.{Placed, address_of-half, blocks-Apart}
use korby_os.Cards.Memory.{read_bytes-write_bytes, read_bytes-Apart}
use korby_os.Cards.Rings.{e1000_tx_ring}

unfoldable pub e1000_send_all : List (List ℕ) → E1000Sender → E1000Sender
e1000_send_all [] s = s
e1000_send_all (p ∷ packets) s = e1000_send_all packets (e1000_send p s)

-- Descriptor `j` is handed to the card with the packet.
pub record Sent (j : ℕ) (p : List ℕ) (s : E1000Sender) : Type 0 where
  pub size : (s.tx j).size ≡ length p
  pub end : (s.tx j).end ≡ true
  pub pending : (s.tx j).done ≡ false
  pub contents : read_bytes s.ram (address_of (s.tx j).lower (s.tx j).upper) (length p) ≡ p

-- The packets stand in the descriptors from `j` on, round the ring.
abbrev pub AllSent : ℕ → List (List ℕ) → E1000Sender → Type 0
AllSent j [] s = Unit
AllSent j (p ∷ packets) s = Sent j p s × AllSent (next_index j) packets s

-- The ring as it was set up, whatever has been sent since.
pub record OnRing (base : ℕ) (s : E1000Sender) : Type 0 where
  pub tail : s.tail < 256
  pub address : (i : ℕ) → i < 256 → address_of (s.tx i).lower (s.tx i).upper ≡ base + 2048 * i

module _ (base : ℕ) (p : List ℕ) (s : E1000Sender) (ring : OnRing base s)
    (small : length p ≤ 2048) where
  abbrev after : E1000Sender
  after = e1000_send p s

  send-OnRing : OnRing base after
  unfolding e1000_send
  send-OnRing = record {
    tail = (let tail = ring.tail in ground arith);
    address = λ i below.
        if_both (λ (d : E1000Tx). address_of d.lower d.upper ≡ base + 2048 * i) (i == s.tail)
          (λ here.
            let same : s.tail ≡ i = ground arith in
            ring.address s.tail ring.tail ∙ ap (λ k. base + 2048 * k) same)
          (λ _. ring.address i below);
  }

  send-Sent : Sent s.tail p after
  unfolding e1000_send
  send-Sent =
      (let slot = s.tx s.tail in
        let here : after.tx s.tail ≡ record slot { size = length p; end = true; done = false } =
          if_yes {b = s.tail == s.tail} _ slot (ground arith) in
        record {
          size = ap (λ d. d.size) here;
          end = ap (λ d. d.end) here;
          pending = ap (λ d. d.done) here;
          contents =
              ap (λ d. read_bytes after.ram (address_of d.lower d.upper) (length p)) here
              ∙ read_bytes-write_bytes p (address_of slot.lower slot.upper) s.ram;
        })

  send-Sent_other :
      (j : ℕ) (q : List ℕ) → j < 256 → j ≢ s.tail → length q ≤ 2048 → Sent j q s → Sent j q after
  unfolding e1000_send
  send-Sent_other j q below other short sent =
      (let slot = s.tx s.tail in
        let there : after.tx j ≡ s.tx j = if_no {b = j == s.tail} _ (s.tx j) (ground arith) in
        record {
          size = ap (λ d. d.size) there ∙ sent.size;
          end = ap (λ d. d.end) there ∙ sent.end;
          pending = ap (λ d. d.done) there ∙ sent.pending;
          contents =
              ap (λ d. read_bytes after.ram (address_of d.lower d.upper) (length q)) there
              ∙ (ap (λ a. read_bytes after.ram a (length q)) (ring.address j below)
                  ∙ (ap (λ a. read_bytes (write_bytes p a s.ram) (base + 2048 * j) (length q))
                        (ring.address s.tail ring.tail)
                      ∙ (read_bytes-Apart p (base + 2048 * s.tail) s.ram (base + 2048 * j)
                            (length q)
                            (blocks-Apart base s.tail j (length p) (length q) (λ e. other (sym e))
                              small short)
                          ∙ (ap (λ a. read_bytes s.ram a (length q)) (sym (ring.address j below))
                              ∙ sent.contents))));
        })

-- How many descriptors lie between the tail and `j`.
abbrev ahead : ℕ → ℕ → ℕ
ahead j tail = (j + 256 - tail) % 256

send-tail : (p : List ℕ) (s : E1000Sender) → (e1000_send p s).tail ≡ next_index s.tail
unfolding e1000_send
send-tail p s = refl

ahead-next :
    (j tail n : ℕ)
    → j < 256
    → tail < 256
    → suc n ≤ ahead j tail
    → (n ≤ ahead j (next_index tail)) × (j ≢ tail)
ahead-next j tail n below inside far = (ground arith, λ e. omega (arith, e, far))

ahead-behind : (tail n : ℕ) → tail < 256 → suc n ≤ 256 → n ≤ ahead tail (next_index tail)
ahead-behind tail n inside few = ground arith

send_each-Sent :
    (base : ℕ) (packets : List (List ℕ)) (s : E1000Sender) (j : ℕ) (q : List ℕ)
    → OnRing base s
    → All (λ p. length p ≤ 2048) packets
    → j < 256
    → length q ≤ 2048
    → length packets ≤ ahead j s.tail
    → Sent j q s
    → Sent j q (e1000_send_all packets s)
unfolding e1000_send_all
send_each-Sent base [] s j q ring small below short far sent = sent
send_each-Sent base (p ∷ packets) s j q ring small below short far sent =
    (let step = ahead-next j s.tail (length packets) below ring.tail far in
      send_each-Sent base packets (e1000_send p s) j q (send-OnRing base p s ring small.0) small.1
        below short (subst (λ t. length packets ≤ ahead j t) (sym (send-tail p s)) step.0)
        (send-Sent_other base p s ring small.0 j q below step.1 short sent))

-- Up to 256 packets of at most 2048 bytes each, sent on a ring as `completed` sets it up, stand whole
-- and in order in the descriptors from the tail on, each handed to the card.
pub e1000_send_all-AllSent :
    (base : ℕ) (packets : List (List ℕ)) (s : E1000Sender)
    → OnRing base s
    → All (λ p. length p ≤ 2048) packets
    → length packets ≤ 256
    → AllSent s.tail packets (e1000_send_all packets s)
unfolding e1000_send_all
e1000_send_all-AllSent base [] s ring small few = _
e1000_send_all-AllSent base (p ∷ packets) s ring small few =
    (let ring' = send-OnRing base p s ring small.0 in
      (
        send_each-Sent base packets (e1000_send p s) s.tail p ring' small.1 ring.tail small.0
            (subst (λ t. length packets ≤ ahead s.tail t) (sym (send-tail p s))
              (ahead-behind s.tail (length packets) ring.tail few))
            (send-Sent base p s ring small.0),
        subst (λ t. AllSent t packets (e1000_send_all packets (e1000_send p s))) (send-tail p s)
            (e1000_send_all-AllSent base packets (e1000_send p s) ring' small.1
              (omega (arith, few))),
      ))

pub e1000_tx_ring-OnRing :
    (base : ℕ) (ram : Ram)
    → Placed base
    → OnRing base (record { tail = 0; tx = e1000_tx_ring base; ram = ram })
unfolding e1000_tx_ring
e1000_tx_ring-OnRing base ram placed = record {
  tail = omega arith;
  address = λ i below. address_of-half base i placed below;
}

-- The rtl8169.
unfoldable pub rtl8169_send_all : List (List ℕ) → Rtl8169Sender → Option Rtl8169Sender
rtl8169_send_all [] s = some s
rtl8169_send_all (p ∷ packets) s = rtl8169_send p s >>= rtl8169_send_all packets

rtl8169_send-some :
    (p : List ℕ) (s : Rtl8169Sender)
    → s.current < 256
    → (t : Rtl8169Sender) × (rtl8169_send p s ≡ some t) × (t.current ≡ suc s.current)
unfolding rtl8169_send
rtl8169_send-some p s room = (_, if_yes {b = ltb s.current 256} _ none (ground arith), omega arith)

rtl8169_send-full :
    (p : List ℕ) (s : Rtl8169Sender) → ltb s.current 256 ≡ false → rtl8169_send p s ≡ none
unfolding rtl8169_send
rtl8169_send-full p s full = if_no {b = ltb s.current 256} _ none full

-- From a counter that is not behind the ring's 256 descriptors, a sequence of packets is sent without a
-- write behind the ring exactly when the counter and the packets are at most 256 together, however long
-- the card has had to send the earlier ones.
pub rtl8169_send_all-none :
    (packets : List (List ℕ)) (s : Rtl8169Sender)
    → s.current ≤ 256
    → (rtl8169_send_all packets s ≡ none) ↔ (256 < s.current + length packets)
unfolding rtl8169_send_all
rtl8169_send_all-none [] s inside = ((λ e. cc), λ more. absurd (omega (arith, inside, more)))
rtl8169_send_all-none (p ∷ packets) s inside = elim (Bool-cases (ltb s.current 256)) [
  | inl room ↦
      (let (t, runs, current) = rtl8169_send-some p s (ground arith) in
        let rest = rtl8169_send_all-none packets t (ground arith) in
        subst
          (λ o.
            ((o >>= rtl8169_send_all packets) ≡ none) ↔ (256 < s.current + suc (length packets)))
          (sym runs)
          ((λ e. omega (arith, rest.0 e, current)), λ more. rest.1 (omega (arith, more, current))))
  | inr full ↦
      subst
        (λ o. ((o >>= rtl8169_send_all packets) ≡ none) ↔ (256 < s.current + suc (length packets)))
        (sym (rtl8169_send-full p s full)) ((λ _. ground arith), λ _. refl)
]
