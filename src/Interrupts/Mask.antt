-- ===== src/Interrupts/Mask.antt =====
-- `int_up` and `int_down` of int/int.c on the mask of the controller.
use silicio.Interrupts.{Pic, int_up, int_down}
use silicio.Base.{ℕ, refl, inl, inr, Bool, not, arith, ltb, Bool-cases, neg, ◌+◌, ◌-◌, ◌<◌, ◌≡◌}
use silicio.Base.{◌∙◌, ◌∷◌, ◌&&◌, ◌||◌, ◌==◌, if◌then◌else◌}
use silicio.Base.Bytes.{bit_at, set_bit, clear_bit}

-- The interrupt is one of the eight of the first controller.
abbrev pub is_hard : ℕ → Bool
is_hard n = ltb 15 n && ltb n 24

-- With a mask of eight bits, for every number, `int_up` and `int_down` return 0 for the numbers
-- from 16 to 23 and -1 for the others; `int_up` clears the bit of the number in the mask and
-- `int_down` sets it, and no other bit changes; the new mask goes to port 0x21, and for another
-- number nothing is sent.
pub int_mask :
    (n : ℕ) (s : Pic)
    → s.t_int < 256
    → ((int_up n s).0 ≡ (if is_hard n then 0 else neg 1))
      × ((int_down n s).0 ≡ (if is_hard n then 0 else neg 1))
      × ((j : ℕ) → j < 8 → bit_at (int_up n s).1.t_int j ≡ (not (n == 16 + j) && bit_at s.t_int j))
      × ((j : ℕ) → j < 8 → bit_at (int_down n s).1.t_int j ≡ (n == 16 + j || bit_at s.t_int j))
      × ((int_up n s).1.out ≡ (if is_hard n then (0x21, (int_up n s).1.t_int) ∷ s.out else s.out))
      × ((int_down n s).1.out
          ≡ (if is_hard n then (0x21, (int_down n s).1.t_int) ∷ s.out else s.out))
unfolding int_up int_down
int_mask n s byte = elim (Bool-cases (is_hard n)) [
  | inl z ↦
      let same : (j : ℕ) → (j == n - 16) ≡ (n == 16 + j) = λ j. ground arith in
      rw z (
        refl,
        refl,
        λ j hj. clear_bit s.t_int (n - 16) byte (ground arith) j hj ∙ rw (same j) refl,
        λ j hj. set_bit s.t_int (n - 16) byte (ground arith) j hj ∙ rw (same j) refl,
        refl,
        refl,
      )
  | inr z ↦ rw z (refl, refl, λ j hj. ground arith, λ j hj. ground arith, refl, refl)
]
