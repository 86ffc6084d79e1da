-- ===== src/Syscalls/Registered.antt =====
-- Handlers that a program registers, and the calls that reach them.
use korby_os.Base.{
  ℕ, zero, suc, ◌<◌, ◌≤◌, ◌≡◌, ◌≢◌, refl, sym, ap, subst, ◌∙◌, true, some, List, [], ◌∷◌, ◌++◌,
  arith, has, get_or, get_elem?, replicate, drop, length, ltb, Bool-cases, inl, inr,
}
use korby_os.Text.{Text, EfiText, IsText}
use korby_os.Programs.{SyscallTable, register_syscall_handler, get_registered_syscall}
use korby_os.Programs.Handlers.{NameIsNew, register_syscall_handler-Registered}
use korby_os.Syscalls.{
  SystemCall, Registers, Target, handler, kernel_calls, pick, syscall_handle, fill_handlers,
}

-- The entries for the kernel's own codes are taken.
abbrev pub Reserved : List ℕ → Type 0
Reserved handlers = (i : ℕ) → i < 30 → get_elem? handlers i ≢ some 0

ones : (n i : ℕ) (rest : List ℕ) → i < n → get_elem? (replicate n 1 ++ rest) i ≡ some 1
ones zero i rest h = absurd (omega arith)
ones (suc n) zero rest h = refl
ones (suc n) (suc i) rest h = ones n i rest (omega arith)

-- `start` reserves them, whatever the table holds.
pub fill_handlers-Reserved : (handlers : List ℕ) → Reserved (fill_handlers handlers)
unfolding fill_handlers
fill_handlers-Reserved handlers i h e = ground (arith, ones 30 i (drop 30 handlers) h)

get_or_of_get_elem? : (l : List ℕ) (i a : ℕ) → get_elem? l i ≡ some a → get_or l i 0 ≡ a
get_or_of_get_elem? [] i a e = cc
get_or_of_get_elem? (x ∷ l) zero a e = cc
get_or_of_get_elem? (x ∷ l) (suc i) a e = get_or_of_get_elem? l i a e

pick_default :
    (code : ℕ) (cases : List SystemCall) (d : Target) → length cases ≤ code → pick code cases d ≡ d
unfolding pick
pick_default code [] d h = refl
pick_default zero (c ∷ cases) d h = absurd (omega arith)
pick_default (suc code) (c ∷ cases) d h = pick_default code cases d (omega arith)

-- A code from 30 on runs the handler in the table.
syscall_handle_default :
    (handlers : List ℕ) (r : Registers) (h : ℕ)
    → 30 ≤ r.rdi
    → get_elem? handlers r.rdi ≡ some h
    → syscall_handle handlers r ≡ handler h (r.rsi ∷ r.rdx ∷ r.rcx ∷ r.r8 ∷ r.r9 ∷ [])
unfolding syscall_handle kernel_calls
syscall_handle_default handlers r h above e =
    let args : List ℕ = r.rsi ∷ r.rdx ∷ r.rcx ∷ r.r8 ∷ r.r9 ∷ [] in
    pick_default r.rdi (kernel_calls r) (handler (get_or handlers r.rdi 0) args) (omega arith)
    ∙ ap (λ a. handler a args) (get_or_of_get_elem? handlers r.rdi h e)

-- While the kernel's entries are reserved and another one is NULL, registering a handler under a
-- new name keeps them reserved, and a system call with the code that `getRegisteredSyscall` gives
-- for the name runs that handler, with the five arguments in their registers.
pub register_syscall_handler-syscall_handle :
    (efi : EfiText) (name : Text) (h : ℕ) (s : SyscallTable)
    → Reserved s.handlers
    → has 0 s.handlers ≡ true
    → IsText name
    → NameIsNew name s.ids
    → h ≢ 0
    → (id : ℕ) × (s' : SyscallTable) × (register_syscall_handler name h s ≡ some (id, s'))
      × Reserved s'.handlers
      × ((r : Registers)
          → r.rdi ≡ get_registered_syscall efi name s'.ids
          → syscall_handle s'.handlers r ≡ handler h (r.rsi ∷ r.rdx ∷ r.rcx ∷ r.r8 ∷ r.r9 ∷ []))
register_syscall_handler-syscall_handle efi name h s reserved room t new nonzero =
    let (id, s', runs, known) = register_syscall_handler-Registered efi name h s room t new in
    let above : 30 ≤ id = elim (Bool-cases (ltb id 30)) [
      | inl low ↦ absurd (reserved id (ground arith) known.lowest.free)
      | inr high ↦ ground arith
    ] in
    (
      id,
      s',
      runs,
      λ i low e. reserved i low (sym (known.others i (omega arith)) ∙ e),
      λ r at.
          let code : r.rdi ≡ id = at ∙ known.found in
          syscall_handle_default s'.handlers r h (omega arith)
            (subst (λ i. get_elem? s'.handlers i ≡ some h) (sym code) known.stored),
    )
