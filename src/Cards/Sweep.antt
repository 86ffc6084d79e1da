-- ===== src/Cards/Sweep.antt =====
-- The rtl8169's handler: one sweep over the ring queues every frame and hands every descriptor back.
use mathlib.Core.List.{append_assoc, append-nil}
use korby_os.Base.{
  bind-some, ℕ, zero, suc, ◌+◌, ◌/◌, ◌%◌, ◌≤◌, ◌<◌, ◌≡◌, ◌⊎◌, refl, sym, ap, ap₂, subst, ◌∙◌, true,
  false, ◌&&◌, some, List, [], ◌∷◌, ◌++◌, ◌==◌, if◌then◌else◌, length, Bool-cases, inl, inr, if_yes,
  if_no, if_both, arith, ◌>>=◌,
}
use korby_os.Cards.{
  Ram, Rtl8169Rx, Rtl8169Receiver, update, address_of, read_bytes, rtl8169_take, rtl8169_take_all,
  rtl8169,
}
use korby_os.Input.{Queue}
use korby_os.Cards.Receive.{take_frame-some, length-read_bytes}
use korby_os.Input.Queues.{waiting, Room}

-- The frame that a descriptor holds, and the frames of the descriptors from `i` on that the card has
-- handed over.
abbrev pub frame_of : Ram → Rtl8169Rx → List ℕ
frame_of ram d = read_bytes ram (address_of d.lower d.upper) d.size

abbrev pub pending : ℕ → ℕ → (ℕ → Rtl8169Rx) → Ram → List (List ℕ)
pending zero i rx ram = []
pending (suc rest) i rx ram =
    if (rx i).done
    then pending rest (suc i) rx ram
    else frame_of ram (rx i) ∷ pending rest (suc i) rx ram

pending-update :
    (rest k i : ℕ) (rx : ℕ → Rtl8169Rx) (d : Rtl8169Rx) (ram : Ram)
    → i < k
    → pending rest k (update rx i d) ram ≡ pending rest k rx ram
pending-update zero k i rx d ram before = refl
pending-update (suc rest) k i rx d ram before =
    (let there : update rx i d k ≡ rx k = if_no {b = k == i} d (rx k) (ground arith) in
      ap₂ (λ (e : Rtl8169Rx) (l : List (List ℕ)). if e.done then l else frame_of ram e ∷ l) there
        (pending-update rest (suc k) i rx d ram (omega arith)))

-- Frames fit in the queue's entries.
abbrev pub Short : Rtl8169Receiver → Type 0
Short s = (j : ℕ) → (s.rx j).done ≡ false → (s.rx j).size ≤ 2048

-- What a sweep of the descriptors from `i` to `i + rest` leaves.
pub record Swept (rest i : ℕ) (s t : Rtl8169Receiver) : Type 0 where
  pub queue : waiting t.packets ≡ waiting s.packets ++ pending rest i s.rx s.ram
  pub handed_back : (j : ℕ) → i ≤ j → j < i + rest → (t.rx j).done ≡ true
  pub others : (j : ℕ) → (j < i) ⊎ (i + rest ≤ j) → t.rx j ≡ s.rx j

abbrev taken : Queue (List ℕ) → ℕ → Rtl8169Receiver → Rtl8169Receiver
taken packets i s = record s {
  packets = packets;
  rx = update s.rx i (record (s.rx i) { size = 2048; vlan = 0; done = true });
}

take_new :
    (n i : ℕ) (s : Rtl8169Receiver)
    → (s.rx i).done ≡ false
    → (s.rx i).size ≤ 2048
    → Room (suc n) s.packets
    → (q : Queue (List ℕ)) × (rtl8169_take i s ≡ some (taken q i s))
      × Room n q
      × (waiting q ≡ waiting s.packets ++ frame_of s.ram (s.rx i) ∷ [])
unfolding rtl8169_take
take_new n i s new short room =
    (let frame = frame_of s.ram (s.rx i) in
      let size = length-read_bytes s.ram (address_of (s.rx i).lower (s.rx i).upper) (s.rx i).size in
      let (q, runs, room', grown) =
        take_frame-some n frame s.packets room (omega (arith, size, short)) in
      (
        q,
        if_no {b = (s.rx i).done} (some s) _ new
            ∙ ap (λ o. o >>= λ packets. some (taken packets i s)) runs,
        room',
        grown,
      ))

take_old : (i : ℕ) (s : Rtl8169Receiver) → (s.rx i).done ≡ true → rtl8169_take i s ≡ some s
unfolding rtl8169_take
take_old i s old = if_yes {b = (s.rx i).done} (some s) _ old

taken-Short : (q : Queue (List ℕ)) (i : ℕ) (s : Rtl8169Receiver) → Short s → Short (taken q i s)
taken-Short q i s short j =
    if_both (λ (d : Rtl8169Rx). d.done ≡ false → d.size ≤ 2048) (j == i) (λ _ _. omega arith)
      (λ _. short j)

-- A descriptor that is handed back, and the sweep of those behind it.
widened :
    (rest i : ℕ) (u t : Rtl8169Receiver) (j : ℕ)
    → Swept rest (suc i) u t
    → (u.rx i).done ≡ true
    → i ≤ j
    → j < i + suc rest
    → (t.rx j).done ≡ true
widened rest i u t j swept first low high = elim (Bool-cases (j == i)) [
  | inl here ↦
      (let same : i ≡ j = ground arith in
        ap (λ k. (t.rx k).done) (sym same)
        ∙ (ap (λ d. d.done) (swept.others i (inl (omega arith))) ∙ first))
  | inr there ↦ swept.handed_back j (ground (arith, low)) (omega (arith, high))
]

pub rtl8169_take_all-Swept :
    (rest i : ℕ) (s : Rtl8169Receiver)
    → Short s
    → Room (length (pending rest i s.rx s.ram)) s.packets
    → (t : Rtl8169Receiver) × (rtl8169_take_all rest i s ≡ some t) × Swept rest i s t
unfolding rtl8169_take_all
rtl8169_take_all-Swept zero i s short room = (
  s,
  refl,
  record {
    queue = sym (append-nil (waiting s.packets));
    handed_back = λ j low high. absurd (omega (arith, low, high));
    others = λ j _. refl;
  },
)
rtl8169_take_all-Swept (suc rest) i s short room = elim (Bool-cases (s.rx i).done) [
  | inl old ↦
      (let none_here : pending (suc rest) i s.rx s.ram ≡ pending rest (suc i) s.rx s.ram =
          if_yes {b = (s.rx i).done} _ _ old in
        let (t, runs, swept) =
          rtl8169_take_all-Swept rest (suc i) s short
            (subst (λ l. Room (length l) s.packets) none_here room) in
        (
          t,
          bind-some _ (take_old i s old) runs,
          record {
            queue = swept.queue ∙ ap (λ l. waiting s.packets ++ l) (sym none_here);
            handed_back = λ j low high. widened rest i s t j swept old low high;
            others = λ j out. swept.others j (ground arith);
          },
        ))
  | inr new ↦
      (let more = pending rest (suc i) s.rx s.ram in
        let frame = frame_of s.ram (s.rx i) in
        let here : pending (suc rest) i s.rx s.ram ≡ frame ∷ more =
          if_no {b = (s.rx i).done} more _ new in
        let (q, takes, room', grown) =
          take_new (length more) i s new (short i new)
            (subst (λ l. Room (length l) s.packets) here room) in
        let u = taken q i s in
        let same : pending rest (suc i) u.rx u.ram ≡ more =
          pending-update rest (suc i) i s.rx _ s.ram (omega arith) in
        let first : (u.rx i).done ≡ true =
          if_both (λ (d : Rtl8169Rx). d.done ≡ true) (i == i) (λ _. refl)
            (λ other. absurd (ground (arith, other))) in
        let (t, runs, swept) =
          rtl8169_take_all-Swept rest (suc i) u (taken-Short q i s short)
            (subst (λ l. Room (length l) q) (sym same) room') in
        (
          t,
          bind-some _ takes runs,
          record {
            queue =
                swept.queue
                ∙ (ap₂ (λ l m. l ++ m) grown same
                    ∙ (append_assoc (waiting s.packets) (frame ∷ []) more
                        ∙ ap (λ l. waiting s.packets ++ l) (sym here)));
            handed_back = λ j low high. widened rest i u t j swept first low high;
            others = λ j out.
                swept.others j (ground arith) ∙ if_no {b = j == i} _ (s.rx j) (ground arith);
          },
        ))
]

-- The marks of a frame in the cause: that it came whole, and that the ring ran full.
abbrev pub HasFrames : ℕ → Type 0
HasFrames cause = (cause % 2 ≡ 1) ⊎ (cause / 0x10 % 2 ≡ 1)

HasFrames-tests :
    (cause : ℕ)
    → HasFrames cause
    → ((cause == 0) ≡ false) × (((cause % 2 == 0) && (cause / 0x10 % 2 == 0)) ≡ false)
HasFrames-tests cause (inl odd) = (ground arith, ground arith)
HasFrames-tests cause (inr full) = (ground arith, ground arith)

-- If the frames that the card has handed over are short enough for the queue's entries, and the queue
-- has room for all of them, an interrupt for a frame queues them, whole and in the order of the
-- ring's indexes, hands every descriptor back to the card, and acknowledges the cause that it read.
pub rtl8169-Swept :
    (cause : ℕ) (s : Rtl8169Receiver)
    → HasFrames cause
    → Short s
    → Room (length (pending 256 0 s.rx s.ram)) s.packets
    → (t : Rtl8169Receiver) × (rtl8169 cause s ≡ some (t, some cause)) × Swept 256 0 s t
unfolding rtl8169
rtl8169-Swept cause s marked short room =
    (let tests = HasFrames-tests cause marked in
      let (t, runs, swept) = rtl8169_take_all-Swept 256 0 s short room in
      (
        t,
        if_no {b = cause == 0} _ _ tests.0
            ∙ ap (λ o. o >>= λ t. some (t, some cause))
                (if_no {b = (cause % 2 == 0) && (cause / 0x10 % 2 == 0)} (some s) _ tests.1 ∙ runs),
        swept,
      ))
