-- ===== src/Console/Numeral/Digits.antt =====
-- The digits that `itoa` of stdio/stdio.c writes, read back.
use native.Mathlib.Decide.{ℕ_discrete}
use native.Mathlib.Nat.{pow-suc}
use silicio.Strings.{Chars}
use silicio.Console.Numeral.{digit, digit_loop}
use silicio.Base.{ℕ, zero, suc, refl, ap, inl, inr, false, arith, ltb, Bool-cases, update}
use silicio.Base.{update_self, update_ne, ◌+◌, ◌-◌, ◌*◌, ◌/◌, ◌%◌, ◌^◌, ◌≤◌, ◌<◌, ◌≡◌, ◌⊎◌, ◌∙◌}
use silicio.Base.{◌==◌, if◌then◌else◌}

-- The value of a digit.
unfoldable pub digit_value : ℕ → ℕ
digit_value c = if ltb c 0x3a then c - 0x30 else c - 0x61 + 10

pub digit_value-digit : (r : ℕ) → r < 16 → digit_value (digit r) ≡ r
unfolding digit_value digit
digit_value-digit r h = ground arith

pub digit-low : (r : ℕ) → 0x30 ≤ digit r
unfolding digit
digit-low r = ground arith

-- The number that the cells from `a[i - 1]` down to `a[0]` add to the digits read before.
unfoldable pub read_down : (b : ℕ) → Chars → ℕ → ℕ → ℕ
read_down b a zero acc = acc
read_down b a (suc i) acc = read_down b a i (acc * b + digit_value (a i))

-- What the loop has written from `lo` on: `n` characters in all, digits above the null and '-',
-- which, read back, give `ud` above the cells below `lo`.
pub record Written (b lo ud room : ℕ) (a : Chars) (r : ℕ × Chars) : Type 0 where
  pub more : lo < r.0
  pub fits : r.0 ≤ lo + room
  pub kept : (j : ℕ) → j < lo → r.1 j ≡ a j
  pub high : (j : ℕ) → lo ≤ j → j < r.0 → 0x30 ≤ r.1 j
  pub value : read_down b r.1 r.0 0 ≡ read_down b r.1 lo ud

-- The two bases of `itoa`.
abbrev pub IsBase : ℕ → Type 0
IsBase b = (b ≡ 10) ⊎ (b ≡ 16)

divided : (b ud left : ℕ) → IsBase b → ud < 10 ^ suc left → ud / b < 10 ^ left
divided b ud left (inl e) h = rw e (omega (arith, pow-suc 10 left))
divided b ud left (inr e) h = rw e (omega (arith, pow-suc 10 left))

last_digit : (b ud : ℕ) → IsBase b → ud / b * b + digit_value (digit (ud % b)) ≡ ud
last_digit b ud (inl e) = rw e (omega (arith, digit_value-digit (ud % 10) (omega arith)))
last_digit b ud (inr e) = rw e (omega (arith, digit_value-digit (ud % 16) (omega arith)))

positive : (left b ud : ℕ) → IsBase b → ud < 10 ^ suc left → (ud / b == 0) ≡ false → 0 < left
positive zero b ud (inl e) h z =
    let q : ud / 10 ≡ 0 = omega (arith, pow-suc 10 0) in
    let q2 : ud / b ≡ 0 = rw e q in absurd (ground arith)
positive zero b ud (inr e) h z =
    let q : ud / 16 ≡ 0 = omega (arith, pow-suc 10 0) in
    let q2 : ud / b ≡ 0 = rw e q in absurd (ground arith)
positive (suc left) b ud hb h z = omega arith

read_down_next :
    (b i acc v : ℕ) (a : Chars)
    → a i ≡ v
    → read_down b a (i + 1) acc ≡ read_down b a i (acc * b + digit_value v)
unfolding read_down
read_down_next b i acc v a e =
    let next : i + 1 ≡ suc i = omega arith in
    ap (λ t. read_down b a t acc) next ∙ ap (λ t. read_down b a i (acc * b + digit_value t)) e

pub digit_loop-Written :
    (left b ud i : ℕ) (a : Chars)
    → IsBase b
    → ud < 10 ^ left
    → 0 < left
    → Written b i ud left a (digit_loop left b ud i a)
unfolding digit_loop
digit_loop-Written zero b ud i a hb h pos = absurd (omega arith)
digit_loop-Written (suc left) b ud i a hb h pos =
    let v = digit (ud % b) in
    let a1 : Chars = update a i v in
    let here : a1 i ≡ v = update_self a i v in
    let back : (x : ℕ) → x ≡ ud / b → x * b + digit_value v ≡ ud =
      λ x e. ap (λ t. t * b + digit_value v) e ∙ last_digit b ud hb in
    elim (Bool-cases (ud / b == 0)) [
      | inl z ↦
          let none_left : 0 ≡ ud / b = ground arith in
          rw (z, digit_loop)
            (record {
              more = omega arith;
              fits = omega arith;
              kept = λ j l. update_ne a v (omega arith);
              high = λ j lo hi. ground (arith, here, digit-low (ud % b));
              value = read_down_next b i 0 v a1 here ∙ ap (read_down b a1 i) (back 0 none_left);
            })
      | inr z ↦
          let r : ℕ × Chars = digit_loop left b (ud / b) (i + 1) a1 in
          let w : Written b (i + 1) (ud / b) left a1 r =
            digit_loop-Written left b (ud / b) (i + 1) a1 hb (divided b ud left hb h)
              (positive left b ud hb h z) in
          let same : r.1 i ≡ v = w.kept i (omega arith) ∙ here in
          rw (z, digit_loop)
            (record {
              more = omega (arith, w.more);
              fits = omega (arith, w.fits);
              kept = λ j l. w.kept j (omega arith) ∙ update_ne a v (omega arith);
              high = λ j lo hi. elim (ℕ_discrete j i) [
                | yes e ↦ rw (e, same) (digit-low (ud % b))
                | no ne ↦ w.high j (omega arith) hi
              ];
              value =
                  w.value
                  ∙ read_down_next b i (ud / b) v r.1 same
                  ∙ ap (read_down b r.1 i) (back (ud / b) refl);
            })
    ]
