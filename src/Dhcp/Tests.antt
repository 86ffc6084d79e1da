-- ===== src/Dhcp/Tests.antt =====
-- An offer with a router, a DNS server and a lease time, and the theorem applied to it.
use korby_os.Base.{◌≡◌, refl, some, [], ◌∷◌, replicate, arith}
use korby_os.Dhcp.{Client, dhcp}
use korby_os.Dhcp.Lease.{Offer, IsOffer, Leased, message, dhcp-Leased}
use korby_os.Net.{Ip}

abbrev home : Ip
home = record { b0 = 192; b1 = 168; b2 = 1; b3 = 1 }

abbrev offered : Offer
offered = record {
  address = record { b0 = 192; b1 = 168; b2 = 1; b3 = 7 };
  settings =
      record { kind = 53; value = 2 ∷ [] }
      ∷ record { kind = 3; value = 192 ∷ 168 ∷ 1 ∷ 1 ∷ [] }
      ∷ record { kind = 6; value = 8 ∷ 8 ∷ 4 ∷ 4 ∷ [] }
      ∷ [];
  front = replicate 16 2;
  middle = replicate 220 0;
  behind = 0 ∷ [];
}

abbrev waiting : Client
waiting = record {
  mac = record { m0 = 0x52; m1 = 0x54; m2 = 0; m3 = 0x12; m4 = 0x34; m5 = 0x56 };
  ip = record { b0 = 0; b1 = 0; b2 = 0; b3 = 0 };
  dns = record { b0 = 0; b1 = 0; b2 = 0; b3 = 0 };
  received = record { ip = home; port = 68; contents = message offered } ∷ [];
  send = [];
}

offered-IsOffer : IsOffer offered
offered-IsOffer = record {
  front = refl;
  middle = refl;
  formed = (
    ((λ e. omega (arith, e)), λ e. omega (arith, e)),
    (((λ e. omega (arith, e)), λ e. omega arith), (((λ e. omega (arith, e)), λ e. omega arith), _)),
  );
}

dhcp-Leased_example : (t : Client) × (dhcp waiting ≡ some t) × Leased offered home waiting t
dhcp-Leased_example = dhcp-Leased offered home 68 [] waiting offered-IsOffer refl refl
