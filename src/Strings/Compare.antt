-- ===== src/Strings/Compare.antt =====
-- `strcmp` of stdio/stdio.c against a comparison of two strings.
use silicio.Strings.{Chars, strcmp}
use silicio.Strings.Laws.{IsString, len_limit, strcmp-same, strcmp-length, strcmp-junk}
use silicio.Base.{ℕ, inl, inr, Bool, not, arith, Bool-cases, ◌<◌, ◌≡◌, ◌≢◌, ◌⊎◌, ◌||◌, ◌==◌}
use silicio.Base.{if◌then◌else◌}
use silicio.Base.Bits.{all_below, all_below_sound, all_below-false}

-- The two arrays agree below `n`.
pub agree : ℕ → Chars → Chars → Bool
agree n p q = all_below n (λ i. p i == q i)

module _ (junk n m : ℕ) (buf str : Chars) (hb : IsString buf n) (hs : IsString str m)
    (ln : n < len_limit) (lm : m < len_limit) where
  -- For two strings shorter than 2 ^ 32 - 1, `strcmp` returns 1 where the first is empty or the
  -- lengths differ; of two strings of one length, not empty, it returns 0 where they agree, and
  -- what the place of its variable `ret` held where they do not.
  pub strcmp_lem :
      strcmp junk buf str
      ≡ (if n == 0 || not (n == m) then 1 else if agree n buf str then 0 else junk)
  unfolding agree
  strcmp_lem = elim (Bool-cases (n == 0 || not (n == m))) [
    | inl z ↦
        let h : (n ≡ 0) ⊎ (n ≢ m) = ground arith in
        rw z (strcmp-length junk n m buf str hb hs ln lm h)
    | inr z ↦
        let pos : 0 < n = ground arith in
        let same : n ≡ m = ground arith in
        elim (Bool-cases (all_below n (λ i. buf i == str i))) [
          | inl a ↦
              rw (z, a)
                (strcmp-same junk n m buf str hb hs ln lm pos same
                  (λ i l. let e = all_below_sound n (λ i. buf i == str i) i a l in ground arith))
          | inr a ↦
              let (k, l, e) = all_below-false n (λ i. buf i == str i) a in
              rw (z, a) (strcmp-junk junk n m buf str hb hs ln lm k pos same l (λ d. ground arith))
        ]
  ]
