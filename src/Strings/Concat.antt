-- ===== src/Strings/Concat.antt =====
-- `strcat` of stdio/stdio.c on arrays that hold a string.
use silicio.Strings.{Chars, max_string, strcat}
use silicio.Strings.Laws.{IsString, strlen_lem, strcpy_lem}
use silicio.Base.{ℕ, arith, ltb, ◌+◌, ◌-◌, ◌≤◌, ◌≡◌, if◌then◌else◌}

module _ (n m : ℕ) (base agr : Chars) (hb : IsString base n) (ha : IsString agr m)
    (fits : n + m ≤ max_string) where
  -- For a string of `n` characters in `base` and one of `m` in `agr`, at most 1024 together,
  -- `strcat` returns 0, and the array then holds the first, the second behind it, and past the two
  -- what it held before.
  pub strcat_lem :
      ((strcat base agr).0 ≡ 0)
      × ((j : ℕ)
          → (strcat base agr).1 j
            ≡ (if ltb j n then base j else if ltb j (n + m) then agr (j - n) else base j))
  unfolding strcat
  strcat_lem =
      rw (strlen_lem n base hb (omega arith), strlen_lem m agr ha (omega arith))
        (
          ground arith,
          λ j. ground (arith, (strcpy_lem m agr (λ i. base (n + i)) ha (omega arith)).1 (j - n)),
        )

  -- Where `base` is empty past its string, the result is a string.
  pub strcat-IsString : ((j : ℕ) → n ≤ j → base j ≡ 0) → IsString (strcat base agr).1 (n + m)
  strcat-IsString blank = record {
    chars = λ i h. ground (arith, strcat_lem.1 i, hb.chars i, ha.chars (i - n));
    ends = ground (arith, strcat_lem.1 (n + m), blank (n + m));
  }
