-- ===== src/Base/Word.antt =====
-- Fixed widths: casts, the sign extension of `char` and the wrap of 32-bit arithmetic.
-- `unsigned long` and `int` have 32 bits; an `int` is kept as its bit pattern.
use Prim.Native.Nat.{ℕ, ◌+◌, ◌-◌, ◌*◌, ◌%◌, ◌^◌, bit_xor}
use silicio.Base.Tests.{ltb, if◌then◌else◌}

abbrev pub u8 : ℕ → ℕ
u8 n = n % 2 ^ 8

abbrev pub u16 : ℕ → ℕ
u16 n = n % 2 ^ 16

abbrev pub u32 : ℕ → ℕ
u32 n = n % 2 ^ 32

abbrev pub sub32 : ℕ → ℕ → ℕ
sub32 a b = (a + 2 ^ 32 - b) % 2 ^ 32

-- A `char` is signed: promoted to `int`, its bit 7 fills the upper bits.
abbrev pub sext8 : ℕ → ℕ
sext8 b = if ltb (u8 b) 128 then u8 b else u8 b + (2 ^ 32 - 2 ^ 8)

-- `~x` on 32 bits
abbrev pub bit_not : ℕ → ℕ
bit_not x = bit_xor x 0xffff_ffff

-- The two's complement pattern of `-k`, as the error codes are returned.
abbrev pub neg : ℕ → ℕ
neg k = (2 ^ 32 - k) % 2 ^ 32

-- The 16 and 32 bits that the processor, little end first, reads at `o`.
unfoldable pub le16 : (ℕ → ℕ) → ℕ → ℕ
le16 b o = b o + b (o + 1) * 2 ^ 8

unfoldable pub le32 : (ℕ → ℕ) → ℕ → ℕ
unfolding le16
le32 b o = le16 b o + le16 b (o + 2) * 2 ^ 16
