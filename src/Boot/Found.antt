-- ===== src/Boot/Found.antt =====
-- The region of memory that is chosen.
use korby_os.Base.{
  ℕ, ◌+◌, ◌*◌, ◌^◌, ◌≤◌, ◌<◌, ◌≡◌, ◌⊎◌, inl, inr, refl, sym, ap, subst, true, ◌&&◌, List, [], ◌∷◌,
  ◌++◌, if_yes, if_no, u64, ltb, All, Bool-cases, arith,
}
use korby_os.Boot.{Descriptor, Region, page_size, allocation_bytes, consider, choose_memory}

-- A descriptor of memory below 2^64, from its start to its end.
pub record IsSane (d : Descriptor) : Type 0 where
  pub fits : d.start + d.pages * page_size < 2 ^ 64

abbrev pub bytes_of : Descriptor → ℕ
bytes_of d = d.pages * page_size

-- The region of a descriptor, with the table of allocations from its last bytes down.
pub record Covers (r : Region) (d : Descriptor) : Type 0 where
  pub free : d.free ≡ true
  pub size : r.size ≡ bytes_of d
  pub start : r.start ≡ d.start
  pub table : r.table + allocation_bytes ≡ d.start + bytes_of d

-- What is chosen: the free descriptor of the most bytes, the first of them, or nothing new.
pub record Chosen (map : List Descriptor) (before r : Region) : Type 0 where
  pub most : All (λ d. d.free ≡ true → bytes_of d ≤ r.size) map
  pub least : before.size ≤ r.size
  pub which :
      (r ≡ before)
      ⊎ ((front : List Descriptor) × (d : Descriptor) × (back : List Descriptor) × (map
            ≡ front ++ d ∷ back)
          × Covers r d
          × (before.size < r.size)
          × All (λ e. e.free ≡ true → bytes_of e < r.size) front)

-- The larger of what was there and a descriptor.
consider-cases :
    (d : Descriptor) (r : Region)
    → IsSane d
    → ((consider d r ≡ r) × (d.free ≡ true → bytes_of d ≤ r.size))
      ⊎ (Covers (consider d r) d × (r.size < bytes_of d))
unfolding consider
consider-cases d r sane =
    (let fits = sane.fits in
      let exact : u64 (d.pages * page_size) ≡ bytes_of d = omega (arith, fits) in
      let larger = d.free && ltb r.size (u64 (d.pages * page_size)) in
      elim (Bool-cases larger) [
        | inl yes' ↦
            (let free : d.free ≡ true = ground (arith, yes') in
              let less : r.size < bytes_of d = ground (arith, yes', exact) in
              inr (
                subst (λ q. Covers q d) (sym (if_yes _ r yes'))
                    (record {
                      free = free;
                      size = exact;
                      start = refl;
                      table = omega (arith, fits, exact, less);
                    }),
                less,
              ))
        | inr no' ↦ inl (if_no _ r no', λ free. ground (arith, no', free, exact))
      ])

-- A descriptor that was kept out, and then the rest.
kept_out :
    (d : Descriptor) (map : List Descriptor) (before r : Region)
    → (d.free ≡ true → bytes_of d ≤ before.size)
    → Chosen map before r
    → Chosen (d ∷ map) before r
kept_out d map before r small c =
    (let least = c.least in
      record {
        most = ((λ free. let below = small free in omega (arith, below, least)), c.most);
        least = least;
        which = elim c.which [
          | inl same ↦ inl same
          | inr (front, e, back, split, covers, grown, lower) ↦ inr (
            d ∷ front,
            e,
            back,
            ap (λ l. d ∷ l) split,
            covers,
            grown,
            ((λ free. let below = small free in omega (arith, below, grown)), lower),
          )
        ];
      })

taken_over :
    (d : Descriptor) (map : List Descriptor) (before next r : Region)
    → Covers next d
    → before.size < bytes_of d
    → Chosen map next r
    → Chosen (d ∷ map) before r
taken_over d map before next r covers more c =
    (let least = c.least in
      let size = covers.size in
      record {
        most = ((λ _. omega (arith, least, size)), c.most);
        least = omega (arith, least, size, more);
        which = elim c.which [
          | inl same ↦ inr (
            [],
            d,
            map,
            refl,
            subst (λ q. Covers q d) (sym same) covers,
            omega (arith, more, least, size),
            _,
          )
          | inr (front, e, back, split, covers', grown, lower) ↦ inr (
            d ∷ front,
            e,
            back,
            ap (λ l. d ∷ l) split,
            covers',
            omega (arith, grown, size, more),
            ((λ _. omega (arith, size, grown)), lower),
          )
        ];
      })

-- On a memory map of descriptors below 2^64 the loop chooses the first of the free descriptors with the
-- most bytes, if one has more than there were before, and otherwise leaves all as it was; the table of
-- allocations then begins with the last 24 bytes of the descriptor.
pub choose_memory-Chosen :
    (map : List Descriptor) (before : Region)
    → All IsSane map
    → Chosen map before (choose_memory map before)
unfolding choose_memory
choose_memory-Chosen [] before sane = record { most = _; least = omega arith; which = inl refl }
choose_memory-Chosen (d ∷ map) before sane =
    (let rest = choose_memory-Chosen map (consider d before) sane.1 in
      elim (consider-cases d before sane.0) [
        | inl (same, small) ↦
            kept_out d map before _ small
              (subst (λ q. Chosen map q (choose_memory map (consider d before))) same rest)
        | inr (covers, more) ↦ taken_over d map before (consider d before) _ covers more rest
      ])
