-- ===== src/Console/Numeral/Turn.antt =====
-- The last loop of `itoa` of stdio/stdio.c, which turns the digits round, and their reader.
use native.Mathlib.Decide.{ℕ_discrete}
use silicio.Strings.{Chars}
use silicio.Console.Numeral.{copy_back}
use silicio.Console.Numeral.Digits.{digit_value, read_down}
use silicio.Base.{ℕ, zero, suc, refl, ap, true, false, arith, update, update_self, update_ne, ◌+◌}
use silicio.Base.{◌-◌, ◌*◌, ◌≤◌, ◌<◌, ◌≡◌, ◌∙◌, ◌==◌}

-- A reader of numerals, up to the null or for `left` characters.
unfoldable pub read_digits : (left b i acc : ℕ) → Chars → ℕ
read_digits zero b i acc s = acc
read_digits (suc left) b i acc s = elim (s i == 0) [
  | true ↦ acc
  | false ↦ read_digits left b (i + 1) (acc * b + digit_value (s i)) s
]

-- The copy is the array turned round, and a null.
pub record Turned (i : ℕ) (a : Chars) (p : ℕ) (buf out : Chars) : Type 0 where
  pub chars : (j : ℕ) → j < i → out (p + j) ≡ a (i - 1 - j)
  pub ends : out (p + i) ≡ 0
  pub before : (j : ℕ) → j < p → out j ≡ buf j

pub copy_back-Turned :
    (i : ℕ) (a : Chars) (p : ℕ) (buf : Chars) → Turned i a p buf (copy_back i a p buf)
unfolding copy_back
copy_back-Turned zero a p buf = record {
  chars = λ j l. absurd (omega arith);
  ends = ground arith;
  before = λ j l. ground arith;
}
copy_back-Turned (suc i) a p buf =
    let out : Chars = copy_back i a (p + 1) (update buf p (a i)) in
    let w : Turned i a (p + 1) (update buf p (a i)) out =
      copy_back-Turned i a (p + 1) (update buf p (a i)) in
    record {
      chars = λ j l. elim (ℕ_discrete j 0) [
        | yes e ↦
            ap out (omega arith)
            ∙ w.before p (omega arith)
            ∙ update_self buf p (a i)
            ∙ ap a (omega arith)
        | no ne ↦ ap out (omega arith) ∙ w.chars (j - 1) (omega arith) ∙ ap a (omega arith)
      ];
      ends = ap out (omega arith) ∙ w.ends;
      before = λ j l. w.before j (omega arith) ∙ update_ne buf (a i) (omega arith);
    }

-- Reading the copy is reading the array downwards.
pub read_digits-read_down :
    (left i b p acc : ℕ) (a s : Chars)
    → i < left
    → ((j : ℕ) → j < i → s (p + j) ≡ a (i - 1 - j))
    → s (p + i) ≡ 0
    → ((j : ℕ) → j < i → 0x30 ≤ a j)
    → read_digits left b p acc s ≡ read_down b a i acc
unfolding read_digits read_down
read_digits-read_down zero i b p acc a s l turned ends high = absurd (omega arith)
read_digits-read_down (suc left) zero b p acc a s l turned ends high =
    let e : s p ≡ 0 = ap s (omega arith) ∙ ends in
    let z : (s p == 0) ≡ true = ground arith in rw (z, read_digits) refl
read_digits-read_down (suc left) (suc i) b p acc a s l turned ends high =
    let here : s p ≡ a i = ap s (omega arith) ∙ turned 0 (omega arith) ∙ ap a (omega arith) in
    let z : (s p == 0) ≡ false = ground (arith, high i) in
    rw (z, read_digits)
      (ap (λ t. read_digits left b (p + 1) (acc * b + digit_value t) s) here
        ∙ read_digits-read_down left i b (p + 1) (acc * b + digit_value (a i)) a s (omega arith)
            (λ j h. ap s (omega arith) ∙ turned (1 + j) (omega arith) ∙ ap a (omega arith))
            (ap s (omega arith) ∙ ends) (λ j h. high j (omega arith)))
