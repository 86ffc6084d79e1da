-- ===== src/Dhcp/Options.antt =====
-- Options as DHCP writes them, a kind, a length and a value each, and what `start` reads of them.
use korby_os.Base.{
  ℕ, zero, suc, ◌+◌, ◌≤◌, ◌<◌, ◌≡◌, ◌≢◌, refl, ap, ◌∙◌, some, List, [], ◌∷◌, ◌++◌, ◌==◌,
  if◌then◌else◌, length, drop, All, length-append, if_pair, if_no, arith, ◌>>=◌,
}
use korby_os.Dhcp.{address_at, leading_address, server_of, read_options}
use korby_os.Net.{Ip}

pub record Setting : Type 0 where
  pub kind : ℕ
  pub value : List ℕ

abbrev pub encode : List Setting → List ℕ → List ℕ
encode [] behind = 0xFF ∷ behind
encode (o ∷ settings) behind = o.kind ∷ length o.value ∷ (o.value ++ encode settings behind)

-- The value of a DNS option holds an address at least.
abbrev pub WellFormed : List Setting → Type 0
WellFormed = All (λ o. (o.kind ≢ 0xFF) × (o.kind ≡ 6 → 4 ≤ length o.value))

abbrev pub first_address : List ℕ → Ip → Ip
first_address (a ∷ b ∷ c ∷ d ∷ value) dns = record { b0 = a; b1 = b; b2 = c; b3 = d }
first_address _ dns = dns

-- The address in the last DNS option, if there is one.
abbrev pub last_dns : List Setting → Ip → Ip
last_dns [] dns = dns
last_dns (o ∷ settings) dns =
    last_dns settings (if o.kind == 6 then first_address o.value dns else dns)

pub drop-++ : (xs ys : List ℕ) → drop (length xs) (xs ++ ys) ≡ ys
drop-++ [] ys = refl
drop-++ (x ∷ xs) ys = drop-++ xs ys

address_at-first :
    (kind : ℕ) (value rest : List ℕ) (dns : Ip)
    → 4 ≤ length value
    → address_at 2 (kind ∷ length value ∷ (value ++ rest)) ≡ some (first_address value dns)
unfolding address_at leading_address
address_at-first kind (a ∷ b ∷ c ∷ d ∷ value) rest dns room = refl
address_at-first kind [] rest dns room = absurd (omega (arith, room))
address_at-first kind (a ∷ []) rest dns room = absurd (omega (arith, room))
address_at-first kind (a ∷ b ∷ []) rest dns room = absurd (omega (arith, room))
address_at-first kind (a ∷ b ∷ c ∷ []) rest dns room = absurd (omega (arith, room))

drop-option : (n kind : ℕ) (xs : List ℕ) → drop (n + 2) (kind ∷ n ∷ xs) ≡ drop n xs
drop-option n kind xs =
    (let two : n + 2 ≡ suc (suc n) = omega arith in ap (λ k. drop k (kind ∷ n ∷ xs)) two)

-- The loop reads the options up to the end mark, whatever is behind it.
pub read_options-encode :
    (fuel : ℕ) (settings : List Setting) (behind : List ℕ) (dns : Ip)
    → WellFormed settings
    → length settings < fuel
    → read_options fuel (encode settings behind) dns ≡ some (last_dns settings dns)
unfolding read_options server_of
read_options-encode zero settings behind dns formed enough = absurd (omega arith)
read_options-encode (suc fuel) [] behind dns formed enough = refl
read_options-encode (suc fuel) (o ∷ settings) behind dns formed enough =
    (let rest = encode settings behind in
      let next = if o.kind == 6 then first_address o.value dns else dns in
      let server : server_of (encode (o ∷ settings) behind) o.kind dns ≡ some next =
        if_pair (λ a b. a ≡ some b) (o.kind == 6)
          (λ six. address_at-first o.kind o.value rest dns (formed.0.1 (ground arith)))
          (λ _. refl) in
      if_no {b = o.kind == 0xFF} (some dns) _ (let other = formed.0.0 in ground arith)
      ∙ (ap
            (λ a. a >>= λ d.
              read_options fuel (drop (length o.value + 2) (encode (o ∷ settings) behind)) d)
            server
          ∙ (ap (λ xs. read_options fuel xs next)
                (drop-option (length o.value) o.kind (o.value ++ rest) ∙ drop-++ o.value rest)
              ∙ read_options-encode fuel settings behind next formed.1 (omega (arith, enough)))))

pub length-encode :
    (settings : List Setting) (behind : List ℕ) → length settings < length (encode settings behind)
length-encode [] behind = omega arith
length-encode (o ∷ settings) behind =
    omega (arith, length-encode settings behind, length-append o.value (encode settings behind))
