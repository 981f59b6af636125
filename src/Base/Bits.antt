-- ===== src/Base/Bits.antt =====
-- Laws of the bit operations at variables: masks as remainders and multiples.
use Prim.Native.Nat.{
  ℕ, zero, suc, ◌+◌, ◌-◌, ◌*◌, ◌/◌, ◌%◌, ◌^◌, ◌≤◌, ◌<◌, min, max, digits, bitwise,
}
use Prim.Native.Nat.{bit_and, bit_or, bit_and-bitwise, bit_or-bitwise}
use mathlib.Core.Path.{◌≡◌, refl, ap}
use mathlib.Core.Bool.{Bool, true, false, ◌&&◌}
use mathlib.Core.Logic.{inl, inr}
use silicio.Base.Tests.{Bool-cases}
use native.Mathlib.Nat.{pow-suc, one-le-pow}
use native.Mathlib.Omega.{arith}

-- Over a small range a property holds if every value passes the test.
unfoldable pub all_below : ℕ → (ℕ → Bool) → Bool
all_below zero p = true
all_below (suc n) p = p n && all_below n p

pub all_below_sound : (n : ℕ) (p : ℕ → Bool) (x : ℕ) → all_below n p ≡ true → x < n → p x ≡ true
unfolding all_below
all_below_sound zero p x h below = absurd (omega arith)
all_below_sound (suc n) p x h below = ground (arith, all_below_sound n p x)

-- If it fails, a value fails it.
pub all_below-false :
    (n : ℕ) (p : ℕ → Bool) → all_below n p ≡ false → (k : ℕ) × (k < n) × (p k ≡ false)
unfolding all_below
all_below-false zero p h = absurd (ground arith)
all_below-false (suc n) p h = elim (Bool-cases (p n)) [
  | inl z ↦ let (k, l, e) = all_below-false n p (ground arith) in (k, omega arith, e)
  | inr z ↦ (n, omega arith, z)
]

-- The native operations go down the binary digits of the first operand. Its size is fuel enough,
-- and more fuel changes nothing.
module _ (z : ℕ → ℕ) (f : ℕ → ℕ → ℕ) where
  digits_enough : (n m a b : ℕ) → a ≤ n → a ≤ m → digits z f n a b ≡ digits z f m a b
  digits_enough zero zero a b p q = refl
  digits_enough zero (suc m) zero b p q = refl
  digits_enough zero (suc m) (suc a) b p q = absurd (omega arith)
  digits_enough (suc n) zero zero b p q = refl
  digits_enough (suc n) zero (suc a) b p q = absurd (omega arith)
  digits_enough (suc n) (suc m) zero b p q = refl
  digits_enough (suc n) (suc m) (suc a) b p q =
      rw (digits_enough n m (suc a / 2) (b / 2) (omega arith) (omega arith))

  bitwise_digit :
      (a b : ℕ)
      → bitwise z f (suc a) b ≡ bitwise z f (suc a / 2) (b / 2) * 2 + f (suc a % 2) (b % 2)
  bitwise_digit a b =
      omega (arith, digits_enough a (suc a / 2) (suc a / 2) (b / 2) (omega arith) (omega arith))

pub bit_and_digit : (a b : ℕ) → bit_and a b ≡ bit_and (a / 2) (b / 2) * 2 + min (a % 2) (b % 2)
bit_and_digit zero b = simp bit_and-bitwise (omega arith)
bit_and_digit (suc a) b = simp bit_and-bitwise (bitwise_digit (λ y. 0) min a b)

pub bit_or_digit : (a b : ℕ) → bit_or a b ≡ bit_or (a / 2) (b / 2) * 2 + max (a % 2) (b % 2)
bit_or_digit zero b = simp bit_or-bitwise (omega arith)
bit_or_digit (suc a) b = simp bit_or-bitwise (bitwise_digit (λ y. y) max a b)

bit_and-zero_below : (n a : ℕ) → a < n → bit_and a 0 ≡ 0
bit_and-zero_below zero a h = absurd (omega arith)
bit_and-zero_below (suc n) zero h = refl
bit_and-zero_below (suc n) (suc a) h =
    omega (arith, bit_and_digit (suc a) 0, bit_and-zero_below n (suc a / 2) (omega arith))

pub bit_and-zero : (a : ℕ) → bit_and a 0 ≡ 0
bit_and-zero a = bit_and-zero_below (suc a) a (omega arith)

bit_or-zero_below : (n a : ℕ) → a < n → bit_or a 0 ≡ a
bit_or-zero_below zero a h = absurd (omega arith)
bit_or-zero_below (suc n) zero h = refl
bit_or-zero_below (suc n) (suc a) h =
    omega (arith, bit_or_digit (suc a) 0, bit_or-zero_below n (suc a / 2) (omega arith))

pub bit_or-zero : (a : ℕ) → bit_or a 0 ≡ a
bit_or-zero a = bit_or-zero_below (suc a) a (omega arith)

-- A mask of three ones, as the flags of a page table entry.
pub bit_and_seven : (a : ℕ) → bit_and a 7 ≡ a % 8
bit_and_seven a = omega (
  arith,
  bit_and_digit a 7,
  bit_and_digit (a / 2) 3,
  bit_and_digit (a / 2 / 2) 1,
  bit_and-zero (a / 2 / 2 / 2),
)

pub bit_or_seven : (a : ℕ) → bit_or a 7 ≡ a / 8 * 8 + 7
bit_or_seven a = omega (
  arith,
  bit_or_digit a 7,
  bit_or_digit (a / 2) 3,
  bit_or_digit (a / 2 / 2) 1,
  bit_or-zero (a / 2 / 2 / 2),
)

twice_product : (q k : ℕ) → q * 2 ^ suc k ≡ 2 * (q * 2 ^ k)
twice_product q k = omega (arith, ap (λ (t : ℕ). q * t) (pow-suc 2 k))

-- A mask of `k` ones keeps the part below `2 ^ k`.
pub bit_and_low : (k q r : ℕ) → r < 2 ^ k → bit_and (q * 2 ^ k + r) (2 ^ k - 1) ≡ r
bit_and_low zero q r fits = rw bit_and-zero (omega arith)
bit_and_low (suc k) q r fits = ground (
  arith,
  bit_and_digit (q * 2 ^ suc k + r) (2 ^ suc k - 1),
  twice_product q k,
  pow-suc 2 k,
  one-le-pow k 2,
  bit_and_low k q (r / 2) (omega (arith, pow-suc 2 k)),
)

-- Zeros at the foot of a mask clear the part below `2 ^ k`.
pub bit_and_high :
    (k q m r : ℕ) → r < 2 ^ k → bit_and (q * 2 ^ k + r) (m * 2 ^ k) ≡ bit_and q m * 2 ^ k
bit_and_high zero q m r fits = ground arith
bit_and_high (suc k) q m r fits = ground (
  arith,
  bit_and_digit (q * 2 ^ suc k + r) (m * 2 ^ suc k),
  twice_product q k,
  twice_product m k,
  twice_product (bit_and q m) k,
  pow-suc 2 k,
  bit_and_high k q m (r / 2) (omega (arith, pow-suc 2 k)),
)

pub bit_and_ones : (k a : ℕ) → bit_and a (2 ^ k - 1) ≡ a % 2 ^ k
bit_and_ones k a = ground (arith, one-le-pow k 2, bit_and_low k (a / 2 ^ k) (a % 2 ^ k))

-- The masks that the kernel writes.
pub bit_and_0x3ff : (a : ℕ) → bit_and a 0x3ff ≡ a % 2 ^ 10
bit_and_0x3ff a = bit_and_ones 10 a

pub bit_and_0xfff : (a : ℕ) → bit_and a 0xfff ≡ a % 2 ^ 12
bit_and_0xfff a = bit_and_ones 12 a

pub bit_and_0xff : (a : ℕ) → bit_and a 0xff ≡ a % 2 ^ 8
bit_and_0xff a = bit_and_ones 8 a

pub bit_and_0xffff : (a : ℕ) → bit_and a 0xffff ≡ a % 2 ^ 16
bit_and_0xffff a = bit_and_ones 16 a

-- `x & 0xfffff000` is the address of the page that `x` lies in.
pub bit_and_page : (a : ℕ) → a < 2 ^ 32 → bit_and a 0xffff_f000 ≡ a / 4096 * 4096
bit_and_page a h = omega (
  arith,
  ap (λ (t : ℕ). bit_and t 0xffff_f000) (div-mod a),
  bit_and_high 12 (a / 4096) 0xfffff (a % 4096) (omega arith),
  bit_and_ones 20 (a / 4096),
)
  where
    div-mod : (a : ℕ) → a ≡ a / 4096 * 2 ^ 12 + a % 4096
    div-mod a = omega arith
