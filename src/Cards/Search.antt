-- ===== src/Cards/Search.antt =====
-- The search of `completed` in src/main.h for a network card: three loops that end at the first.
use korby_os.Base.{
  ℕ, zero, suc, ◌+◌, ◌≤◌, ◌<◌, ◌≡◌, ◌⊎◌, inl, inr, refl, sym, ap, ◌∙◌, Option, none, some,
  Option-cases, Bool-cases, ◌==◌, if◌then◌else◌, arith,
}
use korby_os.Cards.Pci.{Registers, pci_ind}

pub data Card : Type 0 where
  e1000 : Card
  rtl8169 : Card

-- The card that the first register of a place tells.
unfoldable pub card_at : Registers → ℕ → ℕ → ℕ → Option Card
card_at r bus device function =
    if pci_ind r bus device function 0 == 0x10D38086
    then some e1000
    else if pci_ind r bus device function 0 == 0x816810EC
    then some rtl8169
    else none

-- A loop from `i` on that ends where its body finds something.
unfoldable pub first_some {ℓ} : {A : Type ℓ} → ℕ → ℕ → (ℕ → Option A) → Option A
first_some zero i body = none
first_some (suc rest) i body = elim (body i) [
  | some a ↦ some a
  | none ↦ first_some rest (suc i) body
]

pub record Place : Type 0 where
  pub card : Card
  pub bus : ℕ
  pub device : ℕ
  pub function : ℕ

abbrev pub placed : ℕ → ℕ → ℕ → Option Card → Option Place
placed bus device function none = none
placed bus device function (some c) =
    some (record { card = c; bus = bus; device = device; function = function })

unfoldable pub find_function : Registers → ℕ → ℕ → Option Place
find_function r bus device =
    first_some 8 0 (λ function. placed bus device function (card_at r bus device function))

unfoldable pub find_device : Registers → ℕ → Option Place
find_device r bus = first_some 32 0 (find_function r bus)

unfoldable pub find_card : Registers → Option Place
find_card r = first_some 256 0 (find_device r)

module _ {ℓ} {A : Type ℓ} (body : ℕ → Option A) where
  first_some-skip :
      (rest i : ℕ) → body i ≡ none → first_some (suc rest) i body ≡ first_some rest (suc i) body
  unfolding first_some
  first_some-skip rest i e =
      ap (λ o. elim o [ some a ↦ some a | none ↦ first_some rest (suc i) body ]) e

  first_some-stop : (rest i : ℕ) (a : A) → body i ≡ some a → first_some (suc rest) i body ≡ some a
  unfolding first_some
  first_some-stop rest i a e =
      ap (λ o. elim o [ some a ↦ some a | none ↦ first_some rest (suc i) body ]) e

  -- Nothing found at `i` and nothing found behind it.
  none_from :
      (rest i : ℕ) (k : ℕ)
      → body i ≡ none
      → ((j : ℕ) → suc i ≤ j → j < rest → body j ≡ none)
      → i ≤ k
      → k < rest
      → body k ≡ none
  none_from rest i k here later low high = elim (Bool-cases (k == i)) [
    | inl same ↦ (let at : k ≡ i = ground arith in ap body at ∙ here)
    | inr other ↦ later k (ground (arith, low)) high
  ]

  first_some-none :
      (rest i : ℕ) → first_some rest i body ≡ none → (k : ℕ) → i ≤ k → k < i + rest → body k ≡ none
  first_some-none zero i e k low high = absurd (omega (arith, low, high))
  first_some-none (suc rest) i e k low high = elim (Option-cases (body i)) [
    | inl here ↦
        none_from (suc i + rest) i k here
          (first_some-none rest (suc i) (sym (first_some-skip rest i here) ∙ e)) low
          (omega (arith, high))
    | inr (a, here) ↦ (let stop = first_some-stop rest i a here in absurd (cc))
  ]

  -- The place where the loop ended, and what it had passed.
  pub record EndsAt (rest i : ℕ) (a : A) : Type ℓ where
    pub at : ℕ
    pub low : i ≤ at
    pub high : at < i + rest
    pub found : body at ≡ some a
    pub passed : (k : ℕ) → i ≤ k → k < at → body k ≡ none

  first_some-EndsAt : (rest i : ℕ) (a : A) → first_some rest i body ≡ some a → EndsAt rest i a
  unfolding first_some
  first_some-EndsAt zero i a e = absurd (cc)
  first_some-EndsAt (suc rest) i a e = elim (Option-cases (body i)) [
    | inl here ↦
        (let later = first_some-EndsAt rest (suc i) a (sym (first_some-skip rest i here) ∙ e) in
          let low = later.low in
          let high = later.high in
          record {
            at = later.at;
            low = omega arith;
            high = omega arith;
            found = later.found;
            passed = λ k. none_from later.at i k here later.passed;
          })
    | inr (b, here) ↦ record {
      at = i;
      low = omega arith;
      high = omega arith;
      found = here ∙ (sym (first_some-stop rest i b here) ∙ e);
      passed = λ k from before. absurd (omega (arith, from, before));
    }
  ]

placed-some :
    (b d f : ℕ) (o : Option Card) (p : Place)
    → placed b d f o ≡ some p
    → (p.bus ≡ b) × (p.device ≡ d) × (p.function ≡ f) × (o ≡ some p.card)
placed-some b d f none p e = absurd (cc)
placed-some b d f (some c) p e = ground (arith, e)

placed-none : (b d f : ℕ) (o : Option Card) → placed b d f o ≡ none → o ≡ none
placed-none b d f none e = refl
placed-none b d f (some c) e = absurd (cc)

-- The place of a card, and no card before it in the order of the search.
pub record IsFirst (r : Registers) (p : Place) : Type 0 where
  pub bus : p.bus < 256
  pub device : p.device < 32
  pub function : p.function < 8
  pub found : card_at r p.bus p.device p.function ≡ some p.card
  pub none_before :
      (b d f : ℕ)
      → d < 32
      → f < 8
      → (b < p.bus) ⊎ ((b ≡ p.bus) × ((d < p.device) ⊎ ((d ≡ p.device) × (f < p.function))))
      → card_at r b d f ≡ none

module _ (r : Registers) (b d f : ℕ) (inside : f < 8) where
  find_function-none : find_function r b d ≡ none → card_at r b d f ≡ none
  unfolding find_function
  find_function-none e = placed-none b d f _ (first_some-none _ 8 0 e f (omega arith) (omega arith))

  find_device-none : d < 32 → find_device r b ≡ none → card_at r b d f ≡ none
  unfolding find_device
  find_device-none low e =
      find_function-none (first_some-none _ 32 0 e d (omega arith) (omega arith))

find_card-some : (r : Registers) (p : Place) → find_card r ≡ some p → IsFirst r p
unfolding find_card find_device find_function
find_card-some r p e =
    (let on_bus = first_some-EndsAt (find_device r) 256 0 p e in
      let on_device = first_some-EndsAt (find_function r on_bus.at) 32 0 p on_bus.found in
      let on_function = first_some-EndsAt _ 8 0 p on_device.found in
      let (bus, device, function, found) =
        placed-some on_bus.at on_device.at on_function.at _ p on_function.found in
      let bus_high = on_bus.high in
      let device_high = on_device.high in
      let function_high = on_function.high in
      record {
        bus = omega (arith, bus, bus_high);
        device = omega (arith, device, device_high);
        function = omega (arith, function, function_high);
        found = (λ i. card_at r (bus i) (device i) (function i)) ∙ found;
        none_before = λ b d f low small before. elim before [
          | inl lower ↦
              find_device-none r b d f small low
                (on_bus.passed b (omega arith) (omega (arith, bus, lower)))
          | inr (same, inl lower) ↦ find_function-none r b d f small (
              ap (λ k. find_function r k d) (same ∙ bus)
              ∙ on_device.passed d (omega arith) (omega (arith, device, lower)))
          | inr (same, inr (same', lower)) ↦
              (λ i. card_at r ((same ∙ bus) i) ((same' ∙ device) i) f)
              ∙ placed-none on_bus.at on_device.at f _
                  (on_function.passed f (omega arith) (omega (arith, function, lower)))
        ];
      })

-- If a card is found, it is one that the code knows, and no place that the search visits before it
-- has such a card; if none is found, there is none at any of the 65536 places.
pub find_card_lem :
    (r : Registers)
    → ((p : Place) → find_card r ≡ some p → IsFirst r p)
      × (find_card r ≡ none → (b d f : ℕ) → b < 256 → d < 32 → f < 8 → card_at r b d f ≡ none)
unfolding find_card
find_card_lem r = (
  find_card-some r,
  λ e b d f in_bus in_device in_function.
      find_device-none r b d f in_function in_device
        (first_some-none (find_device r) 256 0 e b (omega arith) (omega arith)),
)
