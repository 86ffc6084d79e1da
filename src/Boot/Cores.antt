-- ===== src/Boot/Cores.antt =====
-- The processors that the APIC table names.
use mathlib.Core.List.{append_assoc, append-nil}
use korby_os.Base.{
  bind-some, ℕ, zero, suc, ◌+◌, ◌≤◌, ◌<◌, ◌≡◌, refl, sym, ap, ap₂, ◌∙◌, Bool, true, false, not,
  ◌&&◌, Option, none, some, List, [], ◌∷◌, ◌++◌, ◌==◌, if◌then◌else◌, if_yes, ltb, length,
  length-set, replicate, set, take, take-set, get_or, arith, ◌>>=◌,
}
use korby_os.Boot.{is_core, count_cores, save_core, save_cores, find_cores}

-- A record of the table: its kind and the bytes behind the length.
pub record Entry : Type 0 where
  pub kind : ℕ
  pub body : List ℕ

abbrev pub size_of : Entry → ℕ
size_of e = 2 + length e.body

-- The record lies at an offset; a processor's has its number in the second byte of the body.
pub record At (table : ℕ → ℕ) (i : ℕ) (e : Entry) : Type 0 where
  pub kind : table i ≡ e.kind
  pub size : table (i + 1) ≡ size_of e
  pub number : table (i + 3) ≡ get_or e.body 1 0

-- The records follow one another up to the table's size.
pub data Laid (table : ℕ → ℕ) (size : ℕ) : ℕ → List Entry → Type 0 where
  end : {i : ℕ} → i ≡ size → Laid table size i []
  next :
      {i : ℕ} {e : Entry} {es : List Entry}
      → At table i e
      → Laid table size (i + size_of e) es
      → Laid table size i (e ∷ es)

-- The numbers of the processors other than one, in order.
unfoldable pub others : ℕ → List Entry → List ℕ
others bsp [] = []
others bsp (e ∷ es) =
    let rest = others bsp es in
    if e.kind == 0 && not (get_or e.body 1 0 == bsp) then get_or e.body 1 0 ∷ rest else rest

counted :
    (b : Bool) (count n : ℕ) (rest : List ℕ)
    → (if b then count + 1 else count) + length rest ≡ count + length (if b then n ∷ rest else rest)
counted true count n rest = omega arith
counted false count n rest = refl

length-replicate : (n pool : ℕ) → length (replicate n pool) ≡ n
length-replicate zero pool = refl
length-replicate (suc n) pool = ap suc (length-replicate n pool)

take_all : (xs : List ℕ) (n : ℕ) → length xs ≡ n → take n xs ≡ xs
take_all [] zero e = refl
take_all [] (suc n) e = refl
take_all (x ∷ xs) zero e = absurd (omega (arith, e))
take_all (x ∷ xs) (suc n) e = ap (λ l. x ∷ l) (take_all xs n (omega (arith, e)))

-- A core's number is written, or nothing is.
abbrev written : ℕ → List ℕ → Bool → ℕ → Option (List ℕ)
written cpu cpus b id = elim b [ true ↦ save_core cpu id cpus | false ↦ some cpus ]

-- One round, where the rest of the loop adds the rest of the numbers.
written-rest :
    (b : Bool) (cpu id : ℕ) (cpus rest : List ℕ) (loop : ℕ → List ℕ → Option (List ℕ))
    → ((c : ℕ) (l : List ℕ) → length l ≡ c + length rest → loop c l ≡ some (take c l ++ rest))
    → length cpus ≡ cpu + length (if b then id ∷ rest else rest)
    → (written cpu cpus b id >>= loop (if b then cpu + 1 else cpu))
      ≡ some (take cpu cpus ++ (if b then id ∷ rest else rest))
unfolding save_core
written-rest true cpu id cpus rest loop goes room =
    (let inside : cpu < length cpus = omega (arith, room) in
      ap (λ o. o >>= loop (cpu + 1))
        (if_yes {b = ltb cpu (length cpus)} (some (set cpus cpu id)) none (ground (arith, inside)))
      ∙ (goes (cpu + 1) (set cpus cpu id) (omega (arith, length-set cpus cpu id, room))
          ∙ ap some (
              ap (λ n. take n (set cpus cpu id) ++ rest)
                (let next : cpu + 1 ≡ suc cpu = omega arith in next)
              ∙ (ap (λ l. l ++ rest) (take-set cpu id cpus inside)
                  ∙ append_assoc (take cpu cpus) (id ∷ []) rest))))
written-rest false cpu id cpus rest loop goes room = goes cpu cpus room

module _ (table : ℕ → ℕ) (size bsp : ℕ) where
  Laid-within : (i : ℕ) (es : List Entry) → Laid table size i es → i + length es ≤ size
  Laid-within i _ (end e) = omega (arith, e)
  Laid-within i _ (next {e = e} {es} at rest) =
      (let below = Laid-within (i + size_of e) es rest in omega (arith, below))

  is_core-At :
      (i : ℕ) (e : Entry)
      → At table i e
      → is_core table bsp i ≡ (e.kind == 0 && not (get_or e.body 1 0 == bsp))
  is_core-At i e at = ap₂ (λ k n. (k == 0) && not (n == bsp)) at.kind at.number

  count_cores-others :
      (fuel i count : ℕ) (es : List Entry)
      → Laid table size i es
      → length es < fuel
      → count_cores fuel table size bsp i count ≡ some (count + length (others bsp es))
  unfolding count_cores others
  count_cores-others zero i count es laid enough = absurd (omega (arith, enough))
  count_cores-others (suc fuel) i count _ (end e) enough =
      ap
        (λ b. elim b as (λ _. Option ℕ) [
          | true ↦ some count
          | false ↦
              count_cores fuel table size bsp (i + table (i + 1))
                (if is_core table bsp i then count + 1 else count)
        ])
        (let last : (i == size) ≡ true = ground (arith, e) in last)
      ∙ ap some (omega arith)
  count_cores-others (suc fuel) i count _ (next {e = e} {es} at rest) enough =
      let core = e.kind == 0 && not (get_or e.body 1 0 == bsp) in
      let inside : (i == size) ≡ false =
        (let within = Laid-within (i + size_of e) es rest in ground (arith, within)) in
      ap
        (λ b. elim b as (λ _. Option ℕ) [
          | true ↦ some count
          | false ↦
              count_cores fuel table size bsp (i + table (i + 1))
                (if is_core table bsp i then count + 1 else count)
        ])
        inside
      ∙ (ap₂ (λ n b. count_cores fuel table size bsp (i + n) (if b then count + 1 else count))
            at.size (is_core-At i e at)
          ∙ (count_cores-others fuel (i + size_of e) (if core then count + 1 else count) es rest
                (omega (arith, enough))
              ∙ ap some (counted core count (get_or e.body 1 0) (others bsp es))))

  save_cores-others :
      (fuel i cpu : ℕ) (cpus : List ℕ) (es : List Entry)
      → Laid table size i es
      → length es < fuel
      → length cpus ≡ cpu + length (others bsp es)
      → save_cores fuel table size bsp i cpu cpus ≡ some (take cpu cpus ++ others bsp es)
  unfolding save_cores others save_core
  save_cores-others zero i cpu cpus es laid enough room = absurd (omega (arith, enough))
  save_cores-others (suc fuel) i cpu cpus _ (end e) enough room =
      ap
        (λ b. elim b as (λ _. Option (List ℕ)) [
          | true ↦ some cpus
          | false ↦
              written cpu cpus (is_core table bsp i) (table (i + 3))
              >>= save_cores fuel table size bsp (i + table (i + 1))
                  (if is_core table bsp i then cpu + 1 else cpu)
        ])
        (let last : (i == size) ≡ true = ground (arith, e) in last)
      ∙ ap some (sym (take_all cpus cpu (omega (arith, room))) ∙ sym (append-nil (take cpu cpus)))
  save_cores-others (suc fuel) i cpu cpus _ (next {e = e} {es} at rest) enough room =
      let core = e.kind == 0 && not (get_or e.body 1 0 == bsp) in
      let id = get_or e.body 1 0 in
      let inside : (i == size) ≡ false =
        (let within = Laid-within (i + size_of e) es rest in ground (arith, within)) in
      ap
        (λ b. elim b as (λ _. Option (List ℕ)) [
          | true ↦ some cpus
          | false ↦
              written cpu cpus (is_core table bsp i) (table (i + 3))
              >>= save_cores fuel table size bsp (i + table (i + 1))
                  (if is_core table bsp i then cpu + 1 else cpu)
        ])
        inside
      ∙ (ap₂
            (λ n b.
              written cpu cpus b (table (i + 3))
              >>= save_cores fuel table size bsp (i + n) (if b then cpu + 1 else cpu))
            at.size (is_core-At i e at)
          ∙ (ap
                (λ n.
                  written cpu cpus core n
                  >>= save_cores fuel table size bsp (i + size_of e)
                      (if core then cpu + 1 else cpu))
                at.number
              ∙ written-rest core cpu id cpus (others bsp es)
                  (save_cores fuel table size bsp (i + size_of e))
                  (λ c l.
                    save_cores-others fuel (i + size_of e) c l es rest (omega (arith, enough)))
                  room))

  -- An APIC table of whole records behind its header, with fuel for a round more than there are
  -- records: the first walk counts the processors other than the running one, and the second stores
  -- their numbers, in the table's order, in as many bytes as were counted.
  pub find_cores-others :
      (fuel pool : ℕ) (es : List Entry)
      → Laid table size 44 es
      → length es < fuel
      → find_cores fuel table size bsp pool ≡ some (length (others bsp es), others bsp es)
  unfolding find_cores
  find_cores-others fuel pool es laid enough =
      let count = length (others bsp es) in
      bind-some _ (count_cores-others fuel 44 0 es laid enough ∙ ap some (omega arith)) (
        bind-some _
          (save_cores-others fuel 44 0 (replicate count pool) es laid enough
            (length-replicate count pool ∙ omega arith))
          refl)
