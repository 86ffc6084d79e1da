-- ===== src/Programs/Handlers.antt =====
-- The table of system call handlers.
use korby_os.Base.{
  ℕ, zero, suc, ◌+◌, ◌≡◌, ◌≢◌, refl, ap, sym, ◌∙◌, true, false, some, List, [], ◌∷◌, ◌++◌, ◌==◌,
  arith, Bool-cases, inl, inr, get_elem?, set, has, All, ==_iff,
}
use korby_os.Text.{Text, EfiText, IsText}
use korby_os.Programs.{
  Syscall, SyscallTable, free_id, register_syscall_handler, get_registered_syscall, drop_ids,
  has_id, unregister_syscall_handler,
}

-- The lowest free entry of an array of handlers.
pub record IsFree (handlers : List ℕ) (index : ℕ) : Type 0 where
  pub free : get_elem? handlers index ≡ some 0
  pub restored : (h : ℕ) → set (set handlers index h) index 0 ≡ handlers
  pub stored : (h : ℕ) → get_elem? (set handlers index h) index ≡ some h
  pub others :
      (h other : ℕ)
      → other ≢ index
      → get_elem? (set handlers index h) other ≡ get_elem? handlers other

others_later :
    (h new index : ℕ) (hs : List ℕ) (other : ℕ)
    → IsFree hs index
    → other ≢ suc index
    → get_elem? (set (h ∷ hs) (suc index) new) other ≡ get_elem? (h ∷ hs) other
others_later h new index hs zero f ne = refl
others_later h new index hs (suc o) f ne = f.others new o (ground (arith, ne))

IsFree-later : (h index : ℕ) (hs : List ℕ) → IsFree hs index → IsFree (h ∷ hs) (suc index)
IsFree-later h index hs f = record {
  free = f.free;
  restored = λ new. ap (λ l. h ∷ l) (f.restored new);
  stored = f.stored;
  others = λ new other ne. others_later h new index hs other f ne;
}

others_first :
    (new : ℕ) (hs : List ℕ) (other : ℕ)
    → other ≢ 0
    → get_elem? (new ∷ hs) other ≡ get_elem? (0 ∷ hs) other
others_first new hs zero ne = absurd (ne refl)
others_first new hs (suc o) ne = refl

pub free_id-IsFree :
    (base : ℕ) (hs : List ℕ)
    → has 0 hs ≡ true
    → (index : ℕ) × (free_id base hs ≡ some (base + index)) × IsFree hs index
unfolding free_id
free_id-IsFree base [] some_free = absurd (ground arith)
free_id-IsFree base (zero ∷ hs) some_free = (
  0,
  ap some (omega arith),
  record {
    free = refl;
    restored = λ new. refl;
    stored = λ new. refl;
    others = λ new other ne. others_first new hs other ne;
  },
)
free_id-IsFree base (suc h ∷ hs) some_free =
    let (index, found, f) = free_id-IsFree (base + 1) hs (ground arith) in
    let miss : (suc h == 0) ≡ false = ground arith in
    let same : (base + 1) + index ≡ base + suc index = omega arith in
    (suc index, rw (miss, found) (ap some same), IsFree-later (suc h) index hs f)

-- No entry has the name, and no entry has the id.
abbrev pub NameIsNew : Text → List Syscall → Type 0
NameIsNew name ids = All (λ s. IsText s.name × (s.name ≢ name)) ids

drop_ids-snoc :
    (id : ℕ) (name : Text) (ids : List Syscall)
    → has_id id ids ≡ false
    → drop_ids id (ids ++ record { name = name; id = id } ∷ []) ≡ ids
unfolding drop_ids has_id
drop_ids-snoc id name [] unseen = let hit : (id == id) ≡ true = ground arith in rw hit
drop_ids-snoc id name (s ∷ ids) unseen =
    let miss : (s.id == id) ≡ false = ground arith in
    rw (miss, drop_ids-snoc id name ids (ground arith))

has_id-snoc :
    (id : ℕ) (name : Text) (ids : List Syscall)
    → has_id id (ids ++ record { name = name; id = id } ∷ []) ≡ true
unfolding has_id
has_id-snoc id name [] = ground arith
has_id-snoc id name (s ∷ ids) = ground (arith, has_id-snoc id name ids)

module _ (efi : EfiText) where
  get_registered_syscall-snoc :
      (name : Text) (id : ℕ) (ids : List Syscall)
      → IsText name
      → NameIsNew name ids
      → get_registered_syscall efi name (ids ++ record { name = name; id = id } ∷ []) ≡ id
  unfolding get_registered_syscall
  get_registered_syscall-snoc name id [] t new =
      let hit : (efi.str_cmp name name == 0) ≡ true =
        (==_iff (efi.str_cmp name name) 0).1 ((efi.str_cmp_lem name name t t).1 refl) in
      rw hit
  get_registered_syscall-snoc name id (s ∷ ids) t new =
      elim (Bool-cases (efi.str_cmp name s.name == 0)) [
        | inl hit ↦ absurd (
            new.0.1 (
              sym (
                (efi.str_cmp_lem name s.name t new.0.0).0
                  ((==_iff (efi.str_cmp name s.name) 0).0 hit))))
        | inr miss ↦ rw miss (get_registered_syscall-snoc name id ids t new.1)
      ]

  -- What registering a handler under a name has led to.
  pub record Registered (name : Text) (handler id : ℕ) (s s' : SyscallTable) : Type 0 where
    pub lowest : IsFree s.handlers id
    pub stored : get_elem? s'.handlers id ≡ some handler
    pub found : get_registered_syscall efi name s'.ids ≡ id
    pub others : (other : ℕ) → other ≢ id → get_elem? s'.handlers other ≡ get_elem? s.handlers other

  -- While one of the handlers is NULL, `registerSyscallHandler` ends with the index of such an
  -- entry, which it fills, leaving the others; and `getRegisteredSyscall` then gives the index
  -- for the name, if no earlier entry had that name.
  pub register_syscall_handler-Registered :
      (name : Text) (handler : ℕ) (s : SyscallTable)
      → has 0 s.handlers ≡ true
      → IsText name
      → NameIsNew name s.ids
      → (id : ℕ) × (s' : SyscallTable) × (register_syscall_handler name handler s ≡ some (id, s'))
        × Registered name handler id s s'
  unfolding register_syscall_handler
  register_syscall_handler-Registered name handler s room t new =
      let (id, found, f) = free_id-IsFree 0 s.handlers room in
      let at : free_id 0 s.handlers ≡ some id = found ∙ ap some (omega arith) in
      (
        id,
        _,
        rw at,
        record {
          lowest = f;
          stored = f.stored handler;
          found = get_registered_syscall-snoc name id s.ids t new;
          others = f.others handler;
        },
      )

-- While one of the handlers is NULL, and the entry that is given has no name left from before,
-- `unregisterSyscallHandler` undoes `registerSyscallHandler`.
pub register_syscall_handler-unregister_syscall_handler :
    (name : Text) (handler : ℕ) (s : SyscallTable)
    → has 0 s.handlers ≡ true
    → ((id : ℕ) → get_elem? s.handlers id ≡ some 0 → has_id id s.ids ≡ false)
    → (id : ℕ) × (s' : SyscallTable) × (register_syscall_handler name handler s ≡ some (id, s'))
      × (unregister_syscall_handler id s' ≡ s)
unfolding register_syscall_handler unregister_syscall_handler
register_syscall_handler-unregister_syscall_handler name handler s room clean =
    let (id, found, f) = free_id-IsFree 0 s.handlers room in
    let at : free_id 0 s.handlers ≡ some id = found ∙ ap some (omega arith) in
    let unseen : has_id id s.ids ≡ false = clean id f.free in
    (
      id,
      record {
        handlers = set s.handlers id handler;
        ids = s.ids ++ record { name = name; id = id } ∷ [];
      },
      rw at,
      rw (has_id-snoc id name s.ids, f.restored handler, drop_ids-snoc id name s.ids unseen),
    )
