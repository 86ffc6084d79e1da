-- ===== src/Dns/Tests.antt =====
-- The name that the program asks for, and the theorems applied to it.
use korby_os.Base.{ℕ, ◌≡◌, refl, some, List, [], ◌∷◌, length, drop, arith}
use korby_os.Dns.{query, dns_size, write_name, write_all, write_character}
use korby_os.Dns.Labels.{IsLabel, join, read_labels, query-read_labels}

abbrev pool : List ℕ
pool = b'p' ∷ b'o' ∷ b'o' ∷ b'l' ∷ []

abbrev ntp : List ℕ
ntp = b'n' ∷ b't' ∷ b'p' ∷ []

abbrev org : List ℕ
org = b'o' ∷ b'r' ∷ b'g' ∷ []

written :
    write_name (join pool (ntp ∷ org ∷ []))
    ≡ 4 ∷ b'p' ∷ b'o' ∷ b'o' ∷ b'l' ∷ 3 ∷ b'n' ∷ b't' ∷ b'p' ∷ 3 ∷ b'o' ∷ b'r' ∷ b'g' ∷ 0 ∷ []
unfolding write_name write_all write_character
written = refl

pool-IsLabel : IsLabel pool
pool-IsLabel = record { nonempty = omega arith; short = omega arith; undotted = omega arith }

ntp-IsLabel : IsLabel ntp
ntp-IsLabel = record { nonempty = omega arith; short = omega arith; undotted = omega arith }

org-IsLabel : IsLabel org
org-IsLabel = record { nonempty = omega arith; short = omega arith; undotted = omega arith }

query-read_labels_example :
    (length (query (join pool (ntp ∷ org ∷ []))) ≡ dns_size (join pool (ntp ∷ org ∷ [])))
    × (read_labels 4 (drop 12 (query (join pool (ntp ∷ org ∷ []))))
        ≡ some (pool ∷ ntp ∷ org ∷ [], 0 ∷ 1 ∷ 0 ∷ 1 ∷ []))
query-read_labels_example =
    query-read_labels pool (ntp ∷ org ∷ []) 4 pool-IsLabel (ntp-IsLabel, (org-IsLabel, _))
      (omega arith) (omega arith)
