-- ===== src/Base/Bytes.antt =====
-- The bits of a byte under a mask `1 << k` held in a signed `char`: test, set and clear.
use Prim.Native.Nat.{ℕ, ◌/◌, ◌%◌, ◌^◌, ◌<◌, bit_and, bit_or}
use mathlib.Core.Path.{◌≡◌, refl}
use mathlib.Core.Bool.{Bool, true, false, not, ◌&&◌, ◌||◌}
use native.Mathlib.Omega.{arith}
use silicio.Base.Tests.{◌==◌}
use silicio.Base.Word.{u8, sext8, bit_not}
use silicio.Base.Bits.{all_below, all_below_sound}

-- Bit `k` of a byte.
unfoldable pub bit_at : ℕ → ℕ → Bool
bit_at x k = x / 2 ^ k % 2 == 1

bool_eq : Bool → Bool → Bool
bool_eq true b = b
bool_eq false b = not b

bool_eq_sound : (a b : Bool) → bool_eq a b ≡ true → a ≡ b
unfolding bool_eq
bool_eq_sound true b h = ground arith
bool_eq_sound false b h = ground arith

-- The three byte operations, checked at every byte and every two bits.
test_ok : ℕ → ℕ → Bool
test_ok x k = bool_eq (bit_and x (sext8 (2 ^ k)) == 0) (not (bit_at x k))

set_ok : ℕ → ℕ → ℕ → Bool
set_ok x k j = bool_eq (bit_at (u8 (bit_or x (sext8 (2 ^ k)))) j) (j == k || bit_at x j)

clear_ok : ℕ → ℕ → ℕ → Bool
clear_ok x k j =
    bool_eq (bit_at (u8 (bit_and x (bit_not (sext8 (2 ^ k))))) j) (not (j == k) && bit_at x j)

test_table : all_below 256 (λ x. all_below 8 (test_ok x)) ≡ true
unfolding all_below test_ok bool_eq bit_at
test_table = refl

set_table : all_below 256 (λ x. all_below 8 (λ k. all_below 8 (set_ok x k))) ≡ true
unfolding all_below set_ok bool_eq bit_at
set_table = refl

clear_table : all_below 256 (λ x. all_below 8 (λ k. all_below 8 (clear_ok x k))) ≡ true
unfolding all_below clear_ok bool_eq bit_at
clear_table = refl

-- The same two with the mask `1 << k` of an `int`.
set_int_ok : ℕ → ℕ → ℕ → Bool
set_int_ok x k j = bool_eq (bit_at (u8 (bit_or x (2 ^ k))) j) (j == k || bit_at x j)

clear_int_ok : ℕ → ℕ → ℕ → Bool
clear_int_ok x k j =
    bool_eq (bit_at (u8 (bit_and x (bit_not (2 ^ k)))) j) (not (j == k) && bit_at x j)

set_int_table : all_below 256 (λ x. all_below 8 (λ k. all_below 8 (set_int_ok x k))) ≡ true
unfolding all_below set_int_ok bool_eq bit_at
set_int_table = refl

clear_int_table : all_below 256 (λ x. all_below 8 (λ k. all_below 8 (clear_int_ok x k))) ≡ true
unfolding all_below clear_int_ok bool_eq bit_at
clear_int_table = refl

-- A fact of the table at one byte and two bits.
table_at :
    (ok : ℕ → ℕ → ℕ → Bool) (x k j : ℕ)
    → all_below 256 (λ x. all_below 8 (λ k. all_below 8 (ok x k))) ≡ true
    → x < 256
    → k < 8
    → j < 8
    → ok x k j ≡ true
table_at ok x k j table hx hk hj =
    all_below_sound 8 (ok x k) j
      (all_below_sound 8 (λ k. all_below 8 (ok x k)) k
        (all_below_sound 256 (λ x. all_below 8 (λ k. all_below 8 (ok x k))) x table hx) hk)
      hj

module _ (x k : ℕ) (hx : x < 256) (hk : k < 8) where
  pub test_bit : (bit_and x (sext8 (2 ^ k)) == 0) ≡ not (bit_at x k)
  unfolding test_ok
  test_bit = bool_eq_sound _ _ (
      all_below_sound 8 (test_ok x) k
        (all_below_sound 256 (λ x. all_below 8 (test_ok x)) x test_table hx) hk)

  pub set_bit : (j : ℕ) → j < 8 → bit_at (u8 (bit_or x (sext8 (2 ^ k)))) j ≡ (j == k || bit_at x j)
  unfolding set_ok
  set_bit j hj = bool_eq_sound _ _ (
      all_below_sound 8 (set_ok x k) j
        (all_below_sound 8 (λ k. all_below 8 (set_ok x k)) k
          (all_below_sound 256 (λ x. all_below 8 (λ k. all_below 8 (set_ok x k))) x set_table hx)
          hk)
        hj)

  pub clear_bit :
      (j : ℕ)
      → j < 8
      → bit_at (u8 (bit_and x (bit_not (sext8 (2 ^ k))))) j ≡ (not (j == k) && bit_at x j)
  unfolding clear_ok
  clear_bit j hj = bool_eq_sound _ _ (
      all_below_sound 8 (clear_ok x k) j
        (all_below_sound 8 (λ k. all_below 8 (clear_ok x k)) k
          (all_below_sound 256 (λ x. all_below 8 (λ k. all_below 8 (clear_ok x k))) x clear_table
            hx)
          hk)
        hj)

  pub set_int_bit : (j : ℕ) → j < 8 → bit_at (u8 (bit_or x (2 ^ k))) j ≡ (j == k || bit_at x j)
  unfolding set_int_ok
  set_int_bit j hj = bool_eq_sound _ _ (table_at set_int_ok x k j set_int_table hx hk hj)

  pub clear_int_bit :
      (j : ℕ) → j < 8 → bit_at (u8 (bit_and x (bit_not (2 ^ k)))) j ≡ (not (j == k) && bit_at x j)
  unfolding clear_int_ok
  clear_int_bit j hj = bool_eq_sound _ _ (table_at clear_int_ok x k j clear_int_table hx hk hj)
