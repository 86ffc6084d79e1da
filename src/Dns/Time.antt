-- ===== src/Dns/Time.antt =====
-- The time in an NTP answer: four bytes in network order.
use korby_os.Base.{
  ℕ, ◌+◌, ◌*◌, ◌%◌, ◌^◌, ◌<◌, ◌≡◌, sym, ap, ◌∙◌, some, List, ◌∷◌, ◌++◌, length, drop, arith, ◌>>=◌,
}
use korby_os.Dhcp.Options.{drop-++}
use korby_os.Dns.{swap32, word_of, seconds}
use korby_os.Net.{Ip}

swap32-word :
    (a b c d : ℕ)
    → a < 256
    → b < 256
    → c < 256
    → d < 256
    → swap32 (a + 2 ^ 8 * b + 2 ^ 16 * c + 2 ^ 24 * d) ≡ 2 ^ 24 * a + 2 ^ 16 * b + 2 ^ 8 * c + d
unfolding swap32
swap32-word a b c d ha hb hc hd = omega arith

-- From an answer with the bytes of a time behind its first 40 bytes, the highest byte first, the
-- program takes the seconds of that time's minute.
pub seconds-network :
    (ip : Ip) (port : ℕ) (front behind : List ℕ) (a b c d : ℕ)
    → length front ≡ 40
    → a < 256
    → b < 256
    → c < 256
    → d < 256
    → seconds (record { ip = ip; port = port; contents = front ++ a ∷ b ∷ c ∷ d ∷ behind })
      ≡ some ((2 ^ 24 * a + 2 ^ 16 * b + 2 ^ 8 * c + d) % 60)
unfolding seconds word_of
seconds-network ip port front behind a b c d size ha hb hc hd =
    (let bytes = a ∷ b ∷ c ∷ d ∷ behind in
      ap (λ n. word_of (drop n (front ++ bytes)) >>= λ t. some (swap32 t % 60)) (sym size)
      ∙ (ap (λ l. word_of l >>= λ t. some (swap32 t % 60)) (drop-++ front bytes)
          ∙ ap (λ t. some (t % 60)) (swap32-word a b c d ha hb hc hd)))
