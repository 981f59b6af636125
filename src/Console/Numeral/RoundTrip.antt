-- ===== src/Console/Numeral/RoundTrip.antt =====
-- What `itoa` of stdio/stdio.c writes is read back as the number.
use native.Mathlib.Decide.{ℕ_discrete}
use silicio.Strings.{Chars}
use silicio.Strings.Laws.{IsString}
use silicio.Console.Numeral.{decimal, hexadecimal, is_minus, digit_loop, copy_back, itoa}
use silicio.Console.Numeral.Digits.{read_down, Written, IsBase, digit_loop-Written}
use silicio.Console.Numeral.Turn.{read_digits, copy_back-Turned, read_digits-read_down}
use silicio.Base.{ℕ, refl, ap, inl, inr, arith, Bool-cases, update, update_self, update_ne, sub32}
use silicio.Base.{◌+◌, ◌-◌, ◌^◌, ◌≤◌, ◌<◌, ◌≡◌, ◌∙◌, ◌&&◌, ◌==◌, if◌then◌else◌}

-- With the sign, for the format 'd'; the result is a word of 32 bits.
unfoldable pub read_number : (base : ℕ) → Chars → ℕ
read_number base s =
    let b = if base == hexadecimal then 16 else 10 in
    if base == decimal && s 0 == 0x2d
    then sub32 0 (read_digits 20 b 1 0 s)
    else read_digits 20 b 0 0 s

-- The numeral of a number without a sign.
record Numeral (b d n : ℕ) (s : Chars) (p : ℕ) : Type 0 where
  chars : (j : ℕ) → j < n → 0x30 ≤ s (p + j)
  ends : s (p + n) ≡ 0
  value : read_digits 20 b p 0 s ≡ d

turned-Numeral :
    (b d n p : ℕ) (a a0 s : Chars)
    → Written b 0 d 10 a0 (n, a)
    → ((j : ℕ) → j < n → s (p + j) ≡ a (n - 1 - j))
    → s (p + n) ≡ 0
    → Numeral b d n s p
unfolding read_down
turned-Numeral b d n p a a0 s w turned ends = record {
  chars = λ j l. omega (arith, turned j l, w.high (n - 1 - j) (omega arith) (omega arith));
  ends = ends;
  value =
      read_digits-read_down 20 n b p 0 a s (omega (arith, w.fits)) turned ends
        (λ j l. w.high j (omega arith) l)
      ∙ w.value;
}

unsigned_lem :
    (a buf : Chars) (b d : ℕ)
    → IsBase b
    → d < 2 ^ 32
    → let r = digit_loop 10 b d 0 a in
      (0 < r.0) × (r.0 ≤ 10) × Numeral b d r.0 (copy_back r.0 r.1 0 buf) 0
unsigned_lem a buf b d hb h =
    let w = digit_loop-Written 10 b d 0 a hb (omega arith) (omega arith) in
    let r = digit_loop 10 b d 0 a in
    let t = copy_back-Turned r.0 r.1 0 buf in
    (
      w.more,
      omega (arith, w.fits),
      turned-Numeral b d r.0 0 r.1 a (copy_back r.0 r.1 0 buf) w t.chars t.ends,
    )

Numeral-IsString : (b d n : ℕ) (s : Chars) → Numeral b d n s 0 → IsString s n
Numeral-IsString b d n s h = record {
  chars =
      λ i l e. let low : 0x30 ≤ s i = omega (arith, h.chars i l, ap s (zero_add i)) in omega arith;
  ends = ap s (omega arith) ∙ h.ends;
}
  where
    zero_add : (i : ℕ) → 0 + i ≡ i
    zero_add i = omega arith

-- The numeral of the base, read with its sign.
abbrev pub base_of : ℕ → ℕ
base_of base = if base == hexadecimal then 16 else 10

base_of-IsBase : (base : ℕ) → IsBase (base_of base)
base_of-IsBase base = ground arith

module _ (base d n : ℕ) (s : Chars) where
  read_plain : 0 < n → Numeral (base_of base) d n s 0 → read_number base s ≡ d
  unfolding read_number
  read_plain pos num =
      let first : 0x30 ≤ s 0 = omega (arith, num.chars 0 pos, ap s zero_and) in
      ground (arith, num.value)
    where
      zero_and : 0 + 0 ≡ 0
      zero_and = omega arith

  read_minus : base ≡ decimal → s 0 ≡ 0x2d → Numeral 10 d n s 1 → read_number base s ≡ sub32 0 d
  unfolding read_number
  read_minus e first num = ground (arith, num.value)

-- The array with the sign behind the digits, turned round.
minus-Numeral :
    (a buf : Chars) (ud : ℕ)
    → ud < 2 ^ 32
    → let r = digit_loop 10 10 ud 0 a in
      let s = copy_back (r.0 + 1) (update r.1 r.0 0x2d) 0 buf in
      (r.0 ≤ 10) × (s 0 ≡ 0x2d) × Numeral 10 ud r.0 s 1
minus-Numeral a buf ud h =
    let r : ℕ × Chars = digit_loop 10 10 ud 0 a in
    let w : Written 10 0 ud 10 a r =
      digit_loop-Written 10 10 ud 0 a (inl refl) (omega arith) (omega arith) in
    let a2 : Chars = update r.1 r.0 0x2d in
    let t = copy_back-Turned (r.0 + 1) a2 0 buf in
    let s : Chars = copy_back (r.0 + 1) a2 0 buf in
    (
      omega (arith, w.fits),
      ap s (omega arith) ∙ t.chars 0 (omega arith) ∙ ap a2 (omega arith) ∙ update_self r.1 r.0 0x2d,
      turned-Numeral 10 ud r.0 1 r.1 a s w
          (λ j l.
            ap s (omega arith)
            ∙ t.chars (1 + j) (omega arith)
            ∙ ap a2 (omega arith)
            ∙ update_ne r.1 0x2d (omega arith))
          (ap s (omega arith) ∙ t.ends),
    )

minus-IsString : (d n : ℕ) (s : Chars) → s 0 ≡ 0x2d → Numeral 10 d n s 1 → IsString s (n + 1)
minus-IsString d n s first h = record {
  chars = λ i l e. elim (ℕ_discrete i 0) [
    | yes z ↦ let z2 : s i ≡ s 0 = ap s z in absurd (omega (arith, z2, first, e))
    | no ne ↦
        let z2 : s (1 + (i - 1)) ≡ s i = ap s (omega arith) in
        absurd (omega (arith, h.chars (i - 1) (omega arith), z2, e))
  ];
  ends = ap s (omega arith) ∙ h.ends;
}

-- For a word of 32 bits and every format letter, `itoa` leaves a string of 1 to 11 characters,
-- and reading it back, as a decimal number with a sign for the letter d, in base 16 for x and as
-- a decimal number for the others, gives the word.
pub read_number-itoa :
    (a buf : Chars) (base d : ℕ)
    → d < 2 ^ 32
    → (n : ℕ) × IsString (itoa a buf base d) n
      × (0 < n)
      × (n ≤ 11)
      × (read_number base (itoa a buf base d) ≡ d)
unfolding itoa
read_number-itoa a buf base d h = elim (Bool-cases (is_minus base d)) [
  | inl z ↦
      let ud : ℕ = sub32 0 d in
      let r : ℕ × Chars = digit_loop 10 10 ud 0 a in
      let s : Chars = copy_back (r.0 + 1) (update r.1 r.0 0x2d) 0 buf in
      let e : itoa a buf base d ≡ s = rw z refl in
      let (fits, first, num) = minus-Numeral a buf ud (omega arith) in
      let is_d : base ≡ decimal = ground arith in
      let large : 2 ^ 31 ≤ d = ground arith in
      let value : read_number base s ≡ d = read_minus base ud r.0 s is_d first num ∙ omega arith in
      rw e (r.0 + 1, minus-IsString ud r.0 s first num, omega arith, omega (arith, fits), value)
  | inr z ↦
      let b : ℕ = base_of base in
      let r : ℕ × Chars = digit_loop 10 b d 0 a in
      let s : Chars = copy_back r.0 r.1 0 buf in
      let e : itoa a buf base d ≡ s = rw z refl in
      let (pos, fits, num) = unsigned_lem a buf b d (base_of-IsBase base) h in
      rw e (
        r.0,
        Numeral-IsString b d r.0 s num,
        pos,
        omega (arith, fits),
        read_plain base d r.0 s pos num,
      )
]
