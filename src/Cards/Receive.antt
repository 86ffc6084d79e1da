-- ===== src/Cards/Receive.antt =====
-- Frames that the cards have written: the handlers queue them whole and in order.
use mathlib.Core.List.{append_assoc, append-nil}
use korby_os.Base.{
  bind-some, ℕ, zero, suc, ◌+◌, ◌/◌, ◌%◌, ◌^◌, ◌≤◌, ◌≡◌, refl, sym, ap, subst, ◌∙◌, Bool, false,
  ◌||◌, Option, none, some, List, [], ◌∷◌, ◌++◌, ◌==◌, leb, if◌then◌else◌, length, All, if_yes,
  if_no, if_both, Bool-cases, inl, inr, arith, ◌>>=◌,
}
use korby_os.Cards.{
  Ram, E1000Rx, E1000Receiver, update, address_of, next_index, read_bytes, take_frame,
  e1000_receive, e1000,
}
use korby_os.Input.{Queue}
use korby_os.Input.Queues.{waiting, Room, push-waiting}

pub length-read_bytes : (ram : Ram) (a n : ℕ) → length (read_bytes ram a n) ≡ n
unfolding read_bytes
length-read_bytes ram a zero = refl
length-read_bytes ram a (suc n) = ap suc (length-read_bytes ram (a + 1) n)

pub take_frame-some :
    (n : ℕ) (frame : List ℕ) (q : Queue (List ℕ))
    → Room (suc n) q
    → length frame ≤ 2048
    → (q' : Queue (List ℕ)) × (take_frame frame q ≡ some q')
      × Room n q'
      × (waiting q' ≡ waiting q ++ frame ∷ [])
unfolding take_frame
take_frame-some n frame q room short =
    (let (q', pushes, room', grown) = push-waiting n frame q room in
      (q', if_yes {b = leb (length frame) 2048} _ none (ground arith) ∙ pushes, room', grown))

-- A frame as the card leaves it, with the marks of an error or none.
pub record Frame : Type 0 where
  pub bad : Bool
  pub bytes : List ℕ

pub record Arrived (j : ℕ) (f : Frame) (s : E1000Receiver) : Type 0 where
  pub marks : (((s.rx j).error || (s.rx j).ipv4_error) || (s.rx j).tcp_udp_error) ≡ f.bad
  pub short : length f.bytes ≤ 2048
  pub contents : read_bytes s.ram (address_of (s.rx j).lower (s.rx j).upper) (s.rx j).size ≡ f.bytes

-- The frames stand in the descriptors behind `tail`, round the ring.
abbrev pub AllArrived : ℕ → List Frame → E1000Receiver → Type 0
AllArrived tail [] s = Unit
AllArrived tail (f ∷ frames) s =
    Arrived (next_index tail) f s × AllArrived (next_index tail) frames s

abbrev pub good_bytes : List Frame → List (List ℕ)
good_bytes [] = []
good_bytes (f ∷ frames) = if f.bad then good_bytes frames else f.bytes ∷ good_bytes frames

-- Handing a descriptor back leaves what is read of it and of the others.
handed_back :
    {A : Type 0} (F : E1000Rx → A) (rx : ℕ → E1000Rx) (i j : ℕ)
    → ((d : E1000Rx) → F (record d { done = false }) ≡ F d)
    → F (update rx i (record (rx i) { done = false }) j) ≡ F (rx j)
handed_back F rx i j same =
    if_both (λ (d : E1000Rx). F d ≡ F (rx j)) (j == i)
      (λ here. let at : i ≡ j = ground arith in same (rx i) ∙ ap (λ k. F (rx k)) at) (λ _. refl)

abbrev received : Queue (List ℕ) → E1000Receiver → E1000Receiver
received packets s =
    (let tail = next_index s.tail in
      record s {
        packets = packets;
        rx = update s.rx tail (record (s.rx tail) { done = false });
        tail = tail;
      })

received-Arrived :
    (packets : Queue (List ℕ)) (s : E1000Receiver) (j : ℕ) (g : Frame)
    → Arrived j g s
    → Arrived j g (received packets s)
received-Arrived packets s j g a = record {
  marks =
      handed_back (λ d. (d.error || d.ipv4_error) || d.tcp_udp_error) s.rx (next_index s.tail) j
        (λ d. refl)
      ∙ a.marks;
  short = a.short;
  contents =
      handed_back (λ d. read_bytes s.ram (address_of d.lower d.upper) d.size) s.rx
        (next_index s.tail) j (λ d. refl)
      ∙ a.contents;
}

-- What a handler does with the next frame.
record Received (n : ℕ) (f : Frame) (s t : E1000Receiver) : Type 0 where
  pub tail : t.tail ≡ next_index s.tail
  pub room : Room n t.packets
  pub queue :
      (frames : List Frame)
      → waiting t.packets ++ good_bytes frames ≡ waiting s.packets ++ good_bytes (f ∷ frames)
  pub kept : (j : ℕ) (g : Frame) → Arrived j g s → Arrived j g t

receive-Received :
    (n : ℕ) (f : Frame) (s : E1000Receiver)
    → Room (suc n) s.packets
    → Arrived (next_index s.tail) f s
    → (t : E1000Receiver) × (e1000_receive s ≡ some t) × Received n f s t
unfolding e1000_receive
receive-Received n f s room arrived = elim (Bool-cases f.bad) [
  | inl bad ↦ (
    received s.packets s,
    ap finish (if_yes _ _ (arrived.marks ∙ bad)),
    record {
      tail = refl;
      room = record { entries = room.entries; room = (let fits = room.room in omega arith) };
      queue = λ frames.
          ap (λ l. waiting s.packets ++ l)
            (sym (if_yes (good_bytes frames) (f.bytes ∷ good_bytes frames) bad));
      kept = received-Arrived s.packets s;
    },
  )
  | inr good ↦
      (let (q, runs, room', grown) = take_frame-some n f.bytes s.packets room arrived.short in
        (
          received q s,
          ap finish (
              if_no _ _ (arrived.marks ∙ good)
              ∙ (ap (λ bytes. take_frame bytes s.packets) arrived.contents ∙ runs)),
          record {
            tail = refl;
            room = room';
            queue = λ frames.
                ap (λ l. l ++ good_bytes frames) grown
                ∙ (append_assoc (waiting s.packets) (f.bytes ∷ []) (good_bytes frames)
                    ∙ ap (λ l. waiting s.packets ++ l)
                        (sym (if_no (good_bytes frames) (f.bytes ∷ good_bytes frames) good)));
            kept = received-Arrived q s;
          },
        ))
]
  where
    finish : Option (Queue (List ℕ)) → Option E1000Receiver
    finish o = o >>= λ packets. some (received packets s)

-- A run of interrupts.
unfoldable pub e1000_all : List ℕ → E1000Receiver → Option E1000Receiver
e1000_all [] s = some s
e1000_all (cause ∷ causes) s = e1000 cause s >>= λ r. e1000_all causes r.0

-- The cause register's mark for a frame.
abbrev pub HasFrame : ℕ → Type 0
HasFrame cause = cause / 0x80 % 2 ≡ 1

e1000-HasFrame :
    (cause : ℕ) (s t : E1000Receiver)
    → HasFrame cause
    → e1000_receive s ≡ some t
    → e1000 cause s ≡ some (t, some (cause % 2 ^ 20))
unfolding e1000
e1000-HasFrame cause s t marked runs =
    if_no {b = cause % 2 ^ 20 == 0} _ _ (ground arith)
    ∙ ap (λ o. o >>= λ t. some (t, some (cause % 2 ^ 20)))
        (if_yes {b = cause / 0x80 % 2 == 1} _ (some s) (ground arith) ∙ runs)

keep_all :
    (tail : ℕ) (frames : List Frame) (s t : E1000Receiver)
    → ((j : ℕ) (g : Frame) → Arrived j g s → Arrived j g t)
    → AllArrived tail frames s
    → AllArrived tail frames t
keep_all tail [] s t kept all = _
keep_all tail (f ∷ frames) s t kept all =
    (kept (next_index tail) f all.0, keep_all (next_index tail) frames s t kept all.1)

-- An interrupt for each frame that the card has written: while the queue has room, the frames without
-- the marks of an error stand in it behind those that were there, whole and in order.
pub e1000_all-waiting :
    (causes : List ℕ) (frames : List Frame) (s : E1000Receiver)
    → All HasFrame causes
    → length causes ≡ length frames
    → Room (length frames) s.packets
    → AllArrived s.tail frames s
    → (t : E1000Receiver) × (e1000_all causes s ≡ some t)
      × (waiting t.packets ≡ waiting s.packets ++ good_bytes frames)
unfolding e1000_all
e1000_all-waiting [] [] s marked match room arrived =
    (s, refl, sym (append-nil (waiting s.packets)))
e1000_all-waiting [] (f ∷ frames) s marked match room arrived = absurd (omega (arith, match))
e1000_all-waiting (c ∷ causes) [] s marked match room arrived = absurd (omega (arith, match))
e1000_all-waiting (c ∷ causes) (f ∷ frames) s marked match room arrived =
    (let (t, runs, r) = receive-Received (length frames) f s room arrived.0 in
      let (u, runs', queue) =
        e1000_all-waiting causes frames t marked.1 (omega (arith, match)) r.room (
          subst (λ k. AllArrived k frames t) (sym r.tail)
            (keep_all (next_index s.tail) frames s t r.kept arrived.1)) in
      (u, bind-some _ (e1000-HasFrame c s t marked.0 runs) runs', queue ∙ r.queue frames))
