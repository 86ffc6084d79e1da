-- ===== src/Boot/Modes.antt =====
-- The resolution that is chosen.
use korby_os.Base.{
  ℕ, ◌+◌, ◌-◌, ◌^◌, ◌<◌, ◌≡◌, ◌∙◌, ap, Bool, true, false, not, ◌&&◌, ◌||◌, Option, some, List, [],
  ◌∷◌, ◌==◌, if_both, u32, Bool-cases, inl, inr, ◌≢◌, arith,
}
use korby_os.Boot.{Key, move_selection, choose_mode}

-- The enter key is among the keys.
abbrev pub has_enter : List Key → Bool
has_enter [] = false
has_enter (k ∷ keys) = (k.character == b'\r') || has_enter keys

move_selection-below :
    (modes scan selected : ℕ)
    → selected < modes
    → modes < 2 ^ 32
    → move_selection modes scan selected < modes
unfolding move_selection
move_selection-below modes scan selected below small =
    if_both (λ (n : ℕ). n < modes) (scan == 1 && not (selected == 0))
      (λ up.
        omega
          (arith, below, small, (let some_above : 0 < selected = ground (arith, up) in some_above)))
      (λ _.
        if_both (λ (n : ℕ). n < modes) (scan == 2 && not (selected == u32 (modes + 2 ^ 32 - 1)))
          (λ down.
            (let last : modes - 1 ≡ u32 (modes + 2 ^ 32 - 1) = omega (arith, below, small) in
              let other : selected ≢ modes - 1 = ground (arith, down, last) in
              omega (arith, below, small, other)))
          (λ _. below))

-- Of fewer than 2^32 resolutions, one of which is selected, the keys choose one of them, if the enter
-- key is among them.
pub choose_mode-below :
    (modes selected : ℕ) (keys : List Key)
    → selected < modes
    → modes < 2 ^ 32
    → has_enter keys ≡ true
    → (mode : ℕ) × (choose_mode modes selected keys ≡ some mode) × (mode < modes)
unfolding choose_mode
choose_mode-below modes selected [] below small enter = absurd (cc)
choose_mode-below modes selected (k ∷ keys) below small enter =
    (let next = choose_mode modes (move_selection modes k.scan_code selected) keys in
      elim (Bool-cases (k.character == b'\r')) [
        | inl here ↦ (
          selected,
          ap (λ b. elim b as (λ _. Option ℕ) [ true ↦ some selected | false ↦ next ]) here,
          below,
        )
        | inr other ↦
            (let (mode, chosen, inside) =
                choose_mode-below modes (move_selection modes k.scan_code selected) keys
                  (move_selection-below modes k.scan_code selected below small) small
                  (ground (arith, other, enter)) in
              (
                mode,
                ap (λ b. elim b as (λ _. Option ℕ) [ true ↦ some selected | false ↦ next ]) other
                    ∙ chosen,
                inside,
              ))
      ])
