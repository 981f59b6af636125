-- ===== src/Kernel/Calls/Registry/Find.antt =====
-- `sys_open` of exec/exec.c: what it finds by a name.
use native.Mathlib.Decide.{ℕ_discrete}
use silicio.Strings.{Chars, from, strcmp}
use silicio.Strings.Laws.{IsString, SameBelow, len_limit, strlen_lem, strcmp-same, strcmp-length}
use silicio.Kernel.{Kernel, Drv, max_drivers}
use silicio.Kernel.Calls.{check}
use silicio.Kernel.Calls.Registry.{find_name, string_arg, sys_open}
use silicio.Kernel.Calls.Registry.Enter.{CanRegister, sys_reg_lem}
use silicio.Kernel.Calls.Registry.{dev_prefix, sys_reg}
use silicio.Base.{ℕ, zero, suc, refl, sym, ap, inl, inr, true, false, some, arith, ltb, ltb→lt}
use silicio.Base.{Bool-cases, u32, ◌+◌, ◌-◌, ◌≤◌, ◌<◌, ◌≡◌, ◌≢◌, ◌∙◌, ◌==◌}

-- The entries from `lo` to `i` hold strings of other lengths than `n`, or none.
unfoldable pub OtherLengths : (lo i n : ℕ) → (ℕ → Drv) → Type 0
OtherLengths lo i n r_drv =
    (j : ℕ) → lo ≤ j → j < i → (m : ℕ) × IsString (r_drv j).arch m × (m < len_limit) × (m ≢ n)

find_name_lem :
    (left lo i n : ℕ) (junk : ℕ → ℕ) (name : Chars) (r_drv : ℕ → Drv)
    → IsString name n
    → 0 < n
    → n < len_limit
    → IsString (r_drv i).arch n
    → SameBelow n (r_drv i).arch name
    → OtherLengths lo i n r_drv
    → lo ≤ i
    → i < lo + left
    → find_name left lo junk name r_drv ≡ i
unfolding find_name OtherLengths
find_name_lem zero lo i n junk name r_drv hn pos lim ha same others le hi = absurd (omega arith)
find_name_lem (suc left) lo i n junk name r_drv hn pos lim ha same others le hi =
    elim (ℕ_discrete lo i) [
      | yes e ↦
          let z : (strcmp (junk i) (r_drv i).arch name == 0) ≡ true =
            ground
              (arith, strcmp-same (junk i) n n (r_drv i).arch name ha hn lim lim pos refl same) in
          let z2 : (strcmp (junk lo) (r_drv lo).arch name == 0) ≡ true =
            ap (λ t. strcmp (junk t) (r_drv t).arch name == 0) e ∙ z in
          rw (z2, find_name) e
      | no ne ↦
          let (m, hm, lm, d) = others lo (omega arith) (omega arith) in
          let z : (strcmp (junk lo) (r_drv lo).arch name == 0) ≡ false =
            ground (arith, strcmp-length (junk lo) m n (r_drv lo).arch name hm hn lm lim (inr d)) in
          rw (z, find_name)
            (find_name_lem left (lo + 1) i n junk name r_drv hn pos lim ha same
              (λ j a b. others j (omega arith) b) (omega arith) (omega arith))
    ]

-- A string of `n` characters of the running task at `addr`, at the physical address `p`.
pub record IsArg (addr p n : ℕ) (k : Kernel) : Type 0 where
  pub first : check addr k ≡ some p
  pub valid : p ≢ 0
  pub chars : IsString (from k.bytes p) n
  pub some_chars : 0 < n
  pub limit : n < len_limit
  pub last : (e : ℕ) × (check (u32 (addr + n)) k ≡ some e) × (e ≢ 0)

string_arg_lem :
    (addr bad p n : ℕ) (k : Kernel) → IsArg addr p n k → string_arg addr bad k ≡ some (0, p)
unfolding string_arg
string_arg_lem addr bad p n k h =
    let (e, le, ne) = h.last in
    let len = strlen_lem n (from k.bytes p) h.chars h.limit in
    rw (h.first, len, le) (ground (arith, h.valid, h.some_chars))

-- Where the task passes two strings of its own, the first is what the entry `i` from 3 on holds,
-- and the entries from 3 to `i` hold strings of other lengths, `sys_open` returns `i`, whatever
-- was in the place of the variable of `strcmp`.
pub sys_open_lem :
    (junk : ℕ → ℕ) (ebx ecx p n p2 n2 i : ℕ) (k : Kernel)
    → IsArg ebx p n k
    → IsArg ecx p2 n2 k
    → IsString (k.r_drv i).arch n
    → SameBelow n (k.r_drv i).arch (from k.bytes p)
    → OtherLengths 3 i n k.r_drv
    → 3 ≤ i
    → i < max_drivers
    → sys_open junk ebx ecx k ≡ some i
unfolding sys_open
sys_open_lem junk ebx ecx p n p2 n2 i k h h2 ha same others lo hi =
    rw
      (
        string_arg_lem ebx 1 p n k h,
        string_arg_lem ecx 4 p2 n2 k h2,
        find_name_lem 7 3 i n junk (from k.bytes p) k.r_drv h.chars h.some_chars h.limit ha same
            others lo (omega arith),
      )
      (ground arith)

-- Where a task may register (`CanRegister`) with a string of `n` characters, and later, in `k2`,
-- its entry `i` still has the name it was given, the entries from 3 to `i` hold strings of other
-- lengths, and the running task passes "/dev/" with that string behind it and a second string,
-- both its own: `sys_reg` returns `i`, and `sys_open` finds the driver at `i`, whatever the place
-- of `ret` of `strcmp` held.
pub registered_opened :
    (junk : ℕ → ℕ) (i q a n b ebx ebx2 ecx p p2 n2 : ℕ) (k k2 : Kernel)
    → CanRegister i q a n b ebx k
    → ((k' : Kernel) → sys_reg ebx k ≡ some (i, k') → (k2.r_drv i).arch ≡ (k'.r_drv i).arch)
    → OtherLengths 3 i (5 + n) k2.r_drv
    → IsArg ebx2 p (5 + n) k2
    → IsArg ecx p2 n2 k2
    → SameBelow 5 (from k2.bytes p) dev_prefix
    → ((j : ℕ) → j < n → from k2.bytes p (5 + j) ≡ from k.bytes a j)
    → (k' : Kernel) × (sys_reg ebx k ≡ some (i, k')) × (sys_open junk ebx2 ecx k2 ≡ some i)
registered_opened junk i q a n b ebx ebx2 ecx p p2 n2 k k2 h kept others arg arg2 prefix rest =
    let (k', done, named, _, _, _, _) = sys_reg_lem i q a n b ebx k h in
    let at : (j : ℕ) → (k2.r_drv i).arch j ≡ (k'.r_drv i).arch j =
      λ j. ap (λ (c : Chars). c j) (kept k' done) in
    let is_string : IsString (k2.r_drv i).arch (5 + n) = record {
      chars = λ j l e. named.is_string.chars j l (sym (at j) ∙ e);
      ends = at (5 + n) ∙ named.is_string.ends;
    } in
    let same : SameBelow (5 + n) (k2.r_drv i).arch (from k2.bytes p) = λ j l.
      elim (Bool-cases (ltb j 5)) [
        | inl lo ↦ at j ∙ named.prefix j (ltb→lt j 5 lo) ∙ sym (prefix j (ltb→lt j 5 lo))
        | inr hi ↦
            let back : 5 + (j - 5) ≡ j = ground arith in
            at j
            ∙ ap (λ t. (k'.r_drv i).arch t) (sym back)
            ∙ named.rest (j - 5) (omega (arith, back))
            ∙ sym (rest (j - 5) (omega (arith, back)))
            ∙ ap (λ t. from k2.bytes p t) back
      ] in
    (
      k',
      done,
      sys_open_lem junk ebx2 ecx p (5 + n) p2 n2 i k2 arg arg2 is_string same others h.from_three
          h.index,
    )
