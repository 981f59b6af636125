-- ===== src/Console/Numeral.antt =====
-- `itoa` of stdio/stdio.c: the digits of a number.
pub mod Digits
pub mod Turn
pub mod RoundTrip
mod Tests
use silicio.Strings.{Chars}
use silicio.Base.{ℕ, zero, suc, Bool, ltb, leb, update, sub32, ◌+◌, ◌-◌, ◌/◌, ◌%◌, ◌^◌, ◌&&◌}
use silicio.Base.{◌==◌, if◌then◌else◌}

-- The formats 'd' and 'x'.
abbrev pub decimal : ℕ
decimal = 0x64

abbrev pub hexadecimal : ℕ
hexadecimal = 0x78

-- `resto` as a character: '0' to '9' and 'a' to 'f'.
unfoldable pub digit : ℕ → ℕ
digit resto = if ltb resto 10 then resto + 0x30 else resto + 0x61 - 10

-- The `do` loop, which writes the digits from the last one on, with the rounds that are left: the
-- number of characters and the array `a`.
unfoldable pub digit_loop : ℕ → (divisor ud i : ℕ) → Chars → ℕ × Chars
digit_loop zero divisor ud i a = (i, a)
digit_loop (suc left) divisor ud i a =
    let a1 = update a i (digit (ud % divisor)) in
    let rest = digit_loop left divisor (ud / divisor) (i + 1) a1 in
    if ud / divisor == 0 then (i + 1, a1) else rest

-- The last loop, from `a[i - 1]` back to `a[0]`, and the null.
unfoldable pub copy_back : (i : ℕ) → Chars → (p : ℕ) → Chars → Chars
copy_back zero a p buf = update buf p 0
copy_back (suc i) a p buf = copy_back i a (p + 1) (update buf p (a i))

-- `base == 'd' && d < 0`
abbrev pub is_minus : (base d : ℕ) → Bool
is_minus base d = base == decimal && leb (2 ^ 31) d

abbrev pub divisor_of : (base d : ℕ) → ℕ
divisor_of base d = if is_minus base d then 10 else if base == hexadecimal then 16 else 10

-- `a` is the array of 20 before the call, which has no value. 32 bits have ten digits at most.
unfoldable pub itoa : (a buf : Chars) (base d : ℕ) → Chars
itoa a buf base d =
    let ud = if is_minus base d then sub32 0 d else d in
    let r = digit_loop 10 (divisor_of base d) ud 0 a in
    if is_minus base d
    then copy_back (r.0 + 1) (update r.1 r.0 0x2d) 0 buf
    else copy_back r.0 r.1 0 buf
