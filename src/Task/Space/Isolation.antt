-- ===== src/Task/Space/Isolation.antt =====
-- `check_addr` over the tables that `exec` builds: which addresses a task may hand to the kernel,
-- and what they stand for.
use native.Mathlib.Decide.{dec_lt, ℕ_discrete}
use silicio.Mm.Paging.{Words, walk}
use silicio.Task.Space.{v_user, v_stack, check_word}
use silicio.Task.Space.Build.{IsSpace, Placed}
use silicio.Base.{ℕ, bit_and, ap, inl, inr, Option, none, some, arith, ltb, leb, ◌+◌, ◌-◌, ◌*◌}
use silicio.Base.{◌/◌, ◌%◌, ◌^◌, ◌≤◌, ◌<◌, ◌≡◌, ◌∙◌, ◌&&◌, ◌==◌, if◌then◌else◌}
use silicio.Base.Bits.{bit_and_seven, bit_and_0x3ff, bit_and_0xfff, bit_and_page}

-- The page of the task behind the virtual page `v`: one of its own, its stack's, or none.
abbrev pub page_of : (pag : ℕ) → (ℕ → ℕ) → (stack v : ℕ) → Option ℕ
page_of pag pag_mem stack v =
    if leb v_user v && ltb v (v_user + pag)
    then some (pag_mem (v - v_user))
    else if v == v_stack
    then some stack
    else none

-- The physical address of `addr` in the given page, 0 in none.
abbrev pub in_page : Option ℕ → ℕ → ℕ
in_page none addr = 0
in_page (some p) addr = p * 4096 + addr % 4096

module _ (pag : ℕ) (pag_mem : ℕ → ℕ) (dir tab stack d : ℕ) (w : Words)
    (s : IsSpace pag pag_mem dir tab stack d w) (pl : Placed dir tab stack d) (few : pag ≤ 14)
    (small : (k : ℕ) → k < pag → pag_mem k < 2 ^ 20) where
  cr3_page : bit_and (dir * 4096) 0xffff_f000 ≡ dir * 4096
  cr3_page = omega (arith, bit_and_page (dir * 4096) (omega (arith, pl.dir_in)), pl.dir_in)

  -- Below 4 MB the walk goes through the task's own table.
  walk_low :
      (addr : ℕ) → addr < 2 ^ 22 → walk w (dir * 4096) addr ≡ w (tab * 4096 + 4 * (addr / 4096))
  unfolding walk
  walk_low addr h =
      let e0 : w (dir * 4096 + addr / 2 ^ 22 * 4) ≡ tab * 4096 + 7 = ap w (omega arith) ∙ s.first in
      let e1 : bit_and (tab * 4096 + 7) 0xffff_f000 ≡ tab * 4096 =
        omega (arith, bit_and_page (tab * 4096 + 7) (omega (arith, pl.tab_in)), pl.tab_in) in
      let e2 : bit_and (addr / 2 ^ 12) 0x3ff ≡ addr / 4096 =
        omega (arith, bit_and_0x3ff (addr / 2 ^ 12)) in
      rw (cr3_page, e0, e1, e2) (ap w (omega arith))

  -- From 4 MB on it goes through the kernel's tables.
  walk_high :
      (addr : ℕ) → 2 ^ 22 ≤ addr → addr < 2 ^ 32 → walk w (dir * 4096) addr ≡ addr / 4096 * 4096 + 1
  unfolding walk
  walk_high addr lo hi =
      let i = addr / 2 ^ 22 in
      let e0 : w (dir * 4096 + i * 4) ≡ (d + 1 + i) * 4096 + 1 =
        ap w (omega arith) ∙ s.shared i (omega arith) (omega arith) in
      let e1 : bit_and ((d + 1 + i) * 4096 + 1) 0xffff_f000 ≡ (d + 1 + i) * 4096 = omega (
        arith,
        bit_and_page ((d + 1 + i) * 4096 + 1) (omega (arith, pl.kernel_in)),
        pl.kernel_in,
      ) in
      let e2 : bit_and (addr / 2 ^ 12) 0x3ff ≡ addr / 4096 % 1024 = bit_and_0x3ff (addr / 2 ^ 12) in
      rw (cr3_page, e0, e1, e2) (ap w (omega arith) ∙ s.kernel (addr / 4096) (omega arith))

  -- An entry without the three flags is refused, one with them gives its page.
  check_word-kernel :
      (addr p : ℕ) → walk w (dir * 4096) addr ≡ p * 4096 + 1 → check_word w (dir * 4096) addr ≡ 0
  unfolding check_word
  check_word-kernel addr p e =
      let flags : bit_and (p * 4096 + 1) 7 ≡ 1 = omega (arith, bit_and_seven (p * 4096 + 1)) in
      rw (e, flags)

  check_word-user :
      (addr p : ℕ)
      → p < 2 ^ 20
      → walk w (dir * 4096) addr ≡ p * 4096 + 7
      → check_word w (dir * 4096) addr ≡ p * 4096 + addr % 4096
  unfolding check_word
  check_word-user addr p h e =
      let flags : bit_and (p * 4096 + 7) 7 ≡ 7 = omega (arith, bit_and_seven (p * 4096 + 7)) in
      let page : bit_and (p * 4096 + 7) 0xffff_f000 ≡ p * 4096 =
        omega (arith, bit_and_page (p * 4096 + 7) (omega arith)) in
      let offset : bit_and addr 0xfff ≡ addr % 4096 = bit_and_0xfff addr in
      rw (e, flags, page, offset) (omega arith)

  check_word-low :
      (addr : ℕ)
      → addr < 2 ^ 22
      → check_word w (dir * 4096) addr ≡ in_page (page_of pag pag_mem stack (addr / 4096)) addr
  check_word-low addr h = elim (dec_lt (addr / 4096) v_user) [
    | yes l ↦
        let none' : page_of pag pag_mem stack (addr / 4096) ≡ none = ground arith in
        rw none' (
          check_word-kernel addr (addr / 4096)
            (walk_low addr h ∙ s.rest (addr / 4096) (omega arith) (inl l)))
    | no l ↦ elim (dec_lt (addr / 4096) (v_user + pag)) [
      | yes l' ↦
          let k = addr / 4096 - v_user in
          let own : page_of pag pag_mem stack (addr / 4096) ≡ some (pag_mem k) = ground arith in
          rw own (
            check_word-user addr (pag_mem k) (small k (omega arith))
              (walk_low addr h ∙ ap w (omega arith) ∙ s.pages k (omega arith)))
      | no l' ↦ elim (ℕ_discrete (addr / 4096) v_stack) [
        | yes e ↦
            let own : page_of pag pag_mem stack (addr / 4096) ≡ some stack = ground arith in
            rw own (
              check_word-user addr stack pl.stack_in (walk_low addr h ∙ ap w (omega arith) ∙ s.top))
        | no ne ↦
            let none' : page_of pag pag_mem stack (addr / 4096) ≡ none = ground arith in
            rw none' (
              check_word-kernel addr (addr / 4096)
                (walk_low addr h ∙ s.rest (addr / 4096) (omega arith) (inr (omega arith))))
      ]
    ]
  ]

  -- In an address space of `IsSpace` whose tables lie outside the kernel tables, with at most 14
  -- pages, all below 2 ^ 20: for every address below 2 ^ 32, `check_word` (the body of
  -- `check_addr`) gives the physical address in the task's own page or in its stack page where
  -- the address lies in one of these, and 0 for every other address.
  pub check_word-IsSpace :
      (addr : ℕ)
      → addr < 2 ^ 32
      → check_word w (dir * 4096) addr ≡ in_page (page_of pag pag_mem stack (addr / 4096)) addr
  check_word-IsSpace addr h = elim (dec_lt addr (2 ^ 22)) [
    | yes l ↦ check_word-low addr l
    | no l ↦
        let none' : page_of pag pag_mem stack (addr / 4096) ≡ none = ground arith in
        rw none' (check_word-kernel addr (addr / 4096) (walk_high addr (omega arith) h))
  ]
