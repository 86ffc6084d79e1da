-- ===== src/Cards/Rings.antt =====
-- What the loops of `completed` in src/main.h make of the descriptors: 256 blocks of 2048 bytes.
use korby_os.Base.{ℕ, ◌+◌, ◌*◌, ◌/◌, ◌^◌, ◌==◌, true, false, u32, u64}
use korby_os.Cards.{E1000Rx, E1000Tx, Rtl8169Rx, Rtl8169Tx}

-- `address` and `address >> 32` as they are stored.
abbrev pub low_half : ℕ → ℕ → ℕ
low_half base i = u32 (u64 (base + u32 (2048 * i)))

abbrev pub high_half : ℕ → ℕ → ℕ
high_half base i = u32 (u64 (base + u32 (2048 * i)) / 2 ^ 32)

unfoldable pub e1000_rx_ring : ℕ → ℕ → E1000Rx
e1000_rx_ring base i = record {
  lower = low_half base i;
  upper = high_half base i;
  size = 0;
  done = false;
  tcp_udp_error = false;
  ipv4_error = false;
  error = false;
}

unfoldable pub e1000_tx_ring : ℕ → ℕ → E1000Tx
e1000_tx_ring base i = record {
  lower = low_half base i;
  upper = high_half base i;
  size = 0;
  end = false;
  done = false;
}

unfoldable pub rtl8169_rx_ring : ℕ → ℕ → Rtl8169Rx
rtl8169_rx_ring base i = record {
  size = 2048;
  end = i == 255;
  done = true;
  vlan = 0;
  lower = low_half base i;
  upper = high_half base i;
}

unfoldable pub rtl8169_tx_ring : ℕ → ℕ → Rtl8169Tx
rtl8169_tx_ring base i = record {
  size = 0;
  last_segment = false;
  first_segment = false;
  end = i == 255;
  done = false;
  lower = low_half base i;
  upper = high_half base i;
}
