-- ===== src/Strings/Laws.antt =====
-- What the string functions of stdio/stdio.c do on arrays that hold a string.
use native.Mathlib.Decide.{ℕ_discrete}
use silicio.Strings.{Chars, max_string, len_loop, strlen, cmp_loop, strcmp, copy_loop, strcpy}
use silicio.Base.{ℕ, zero, suc, inl, inr, true, false, not, arith, ltb, leb, Bool-cases, update}
use silicio.Base.{◌+◌, ◌≤◌, ◌<◌, ◌≡◌, ◌≢◌, ◌⊎◌, ◌&&◌, ◌==◌, if◌then◌else◌}

-- The array holds a string of `n` characters, and a null after them.
pub record IsString (str : Chars) (n : ℕ) : Type 0 where
  pub chars : (i : ℕ) → i < n → str i ≢ 0
  pub ends : str n ≡ 0

-- The two arrays agree below `n`.
abbrev pub SameBelow : ℕ → Chars → Chars → Type 0
SameBelow n p q = (i : ℕ) → i < n → p i ≡ q i

-- The longest string that `strlen` measures.
abbrev pub len_limit : ℕ
len_limit = 0xffff_ffff

len_loop_lem :
    (left cont n : ℕ) (str : Chars)
    → IsString str n
    → cont ≤ n
    → n ≤ cont + left
    → len_loop left cont str ≡ n
unfolding len_loop
len_loop_lem zero cont n str h lo hi = omega arith
len_loop_lem (suc left) cont n str h lo hi = elim (ℕ_discrete cont n) [
  | yes e ↦ let z : (str cont == 0) ≡ true = rw e (ground (arith, h.ends)) in rw (z, len_loop) e
  | no ne ↦
      let z : (str cont == 0) ≡ false = ground (arith, h.chars cont (omega arith)) in
      rw (z, len_loop) (len_loop_lem left (cont + 1) n str h (omega arith) (omega arith))
]

-- For a string of `n` characters and a null, with `n` below 2 ^ 32 - 1, `strlen` returns `n`.
pub strlen_lem : (n : ℕ) (str : Chars) → IsString str n → n < len_limit → strlen str ≡ n
unfolding strlen
strlen_lem n str h l =
    rw (len_loop_lem len_limit 0 n str h (omega arith) (omega arith)) (ground arith)

cmp_loop-same :
    (left i n : ℕ) (buf str : Chars)
    → IsString buf n
    → SameBelow n buf str
    → i ≤ n
    → n < i + left
    → cmp_loop left i buf str ≡ n
unfolding cmp_loop
cmp_loop-same zero i n buf str h e lo hi = absurd (omega arith)
cmp_loop-same (suc left) i n buf str h e lo hi = elim (ℕ_discrete i n) [
  | yes d ↦ let z : (buf i == 0) ≡ true = rw d (ground (arith, h.ends)) in rw (z, cmp_loop) d
  | no ne ↦
      let z : (not (buf i == 0) && (buf i == str i)) ≡ true =
        ground (arith, h.chars i (omega arith), e i (omega arith)) in
      rw (z, cmp_loop) (cmp_loop-same left (i + 1) n buf str h e (omega arith) (omega arith))
]

-- The loop stops at the first difference.
cmp_loop-differ :
    (left i k : ℕ) (buf str : Chars)
    → (buf k == str k) ≡ false
    → i ≤ k
    → cmp_loop left i buf str ≤ k
unfolding cmp_loop
cmp_loop-differ zero i k buf str ne le = le
cmp_loop-differ (suc left) i k buf str ne le = elim (ℕ_discrete i k) [
  | yes e ↦
      let z : (not (buf i == 0) && (buf i == str i)) ≡ false = rw e (ground arith) in
      rw (z, cmp_loop) le
  | no d ↦ elim (Bool-cases (not (buf i == 0) && (buf i == str i))) [
    | inl z ↦ rw (z, cmp_loop) (cmp_loop-differ left (i + 1) k buf str ne (omega arith))
    | inr z ↦ rw (z, cmp_loop) le
  ]
]

module _ (junk n m : ℕ) (buf str : Chars) (hb : IsString buf n) (hs : IsString str m)
    (ln : n < len_limit) (lm : m < len_limit) where
  -- For two strings shorter than 2 ^ 32 - 1 with the same characters, not empty, `strcmp` returns
  -- 0.
  pub strcmp-same : 0 < n → n ≡ m → SameBelow n buf str → strcmp junk buf str ≡ 0
  unfolding strcmp
  strcmp-same pos e same =
      rw
        (
          strlen_lem n buf hb ln,
          strlen_lem m str hs lm,
          cmp_loop-same (n + 1) 0 n buf str hb same (omega arith) (omega arith),
        )
        (ground arith)

  -- For two strings shorter than 2 ^ 32 - 1, the first empty or the lengths different, `strcmp`
  -- returns 1.
  pub strcmp-length : (n ≡ 0) ⊎ (n ≢ m) → strcmp junk buf str ≡ 1
  unfolding strcmp
  strcmp-length e = rw (strlen_lem n buf hb ln, strlen_lem m str hs lm) (ground arith)

  -- For two strings of one length from 1 to 2 ^ 32 - 2 that differ in a character, `strcmp`
  -- returns what the place of its variable `ret` held.
  pub strcmp-junk : (k : ℕ) → 0 < n → n ≡ m → k < n → buf k ≢ str k → strcmp junk buf str ≡ junk
  unfolding strcmp
  strcmp-junk k pos e lk ne =
      rw (strlen_lem n buf hb ln, strlen_lem m str hs lm)
        (ground (arith, cmp_loop-differ (n + 1) 0 k buf str (ground arith) (omega arith)))

copy_loop-at :
    (left i : ℕ) (origen destino : Chars) (j : ℕ)
    → copy_loop left i origen destino j
      ≡ (if leb i j && ltb j (i + left) then origen j else destino j)
unfolding copy_loop
copy_loop-at zero i origen destino j = ground arith
copy_loop-at (suc left) i origen destino j =
    ground (arith, copy_loop-at left (i + 1) origen (update destino i (origen i)) j)

-- For a source of `n` characters and a null, with `n` at most 1024, `strcpy` returns `n` and
-- writes the `n` characters and no null: every cell past them keeps what it held.
pub strcpy_lem :
    (n : ℕ) (origen destino : Chars)
    → IsString origen n
    → n ≤ max_string
    → ((strcpy origen destino).0 ≡ n)
      × ((j : ℕ) → (strcpy origen destino).1 j ≡ (if ltb j n then origen j else destino j))
unfolding strcpy
strcpy_lem n origen destino h l =
    rw (strlen_lem n origen h (omega arith))
      (ground arith, λ j. ground (arith, copy_loop-at n 0 origen destino j))
