-- ===== src/Kernel/Calls/Memory/Shared.antt =====
-- What `sys_mem` of exec/exec.c opens, and to whom.
use native.Mathlib.Decide.{ℕ_discrete}
use silicio.Mm.Bitmap.{used, IsMap, Marks, set_mem_lem}
use silicio.Mm.Paging.{Words, walk}
use silicio.Task.Space.{check_word}
use silicio.Task.Space.Build.{IsSpace, Placed}
use silicio.Kernel.{Kernel}
use silicio.Kernel.Calls.Memory.{open_page, give_page, sys_mem}
use silicio.Base.{ℕ, bit_and, bit_or, sym, ap, true, false, some, arith, update, update_self}
use silicio.Base.{update_ne, u32, ◌+◌, ◌*◌, ◌/◌, ◌%◌, ◌^◌, ◌≤◌, ◌<◌, ◌≡◌, ◌≢◌, ◌⊎◌, ◌∙◌, ◌==◌}
use silicio.Base.{if◌then◌else◌}
use silicio.Base.Bits.{bit_and_seven, bit_or_seven, bit_and_0x3ff, bit_and_0xfff, bit_and_page}

-- A task's directory over the kernel's tables at `d`, which the tasks share.
pub record IsShared (dir d : ℕ) (w : Words) : Type 0 where
  pub outside : (dir < d) ⊎ (d + 1025 ≤ dir)
  pub dir_in : dir < 2 ^ 20
  pub kernel_in : d + 1025 ≤ 2 ^ 20
  pub entry : (k : ℕ) → 1 ≤ k → k < 1024 → w (dir * 4096 + 4 * k) ≡ (d + 1 + k) * 4096 + 1
  pub table : (k : ℕ) → k < 2 ^ 20 → w ((d + 1) * 4096 + 4 * k) ≡ k * 4096 + 1

-- The spaces that `exec` builds are of this kind.
pub IsSpace-IsShared :
    {pag dir tab stack d : ℕ} {pag_mem : ℕ → ℕ} {w : Words}
    → IsSpace pag pag_mem dir tab stack d w
    → Placed dir tab stack d
    → IsShared dir d w
IsSpace-IsShared s pl = record {
  outside = pl.dir_out;
  dir_in = pl.dir_in;
  kernel_in = pl.kernel_in;
  entry = s.shared;
  table = s.kernel;
}

module _ (dir d p : ℕ) (w : Words) (s : IsShared dir d w) (lo : 1024 ≤ p) (hi : p < 2 ^ 20) where
  abbrev entry : ℕ
  entry = dir * 4096 + 4 * (p / 1024)

  abbrev table : ℕ
  table = (d + 1 + p / 1024) * 4096

  abbrev at : ℕ
  at = table + 4 * (p % 1024)

  abbrev opened : Words
  opened = update (update w entry (table + 7)) at (p * 4096 + 7)

  -- The stores, with the table at `sel` and the entry `low` in it.
  abbrev stores : ℕ → ℕ → Words
  stores sel low =
      let w1 = update w entry (u32 (bit_or (w entry) 7)) in
      if bit_and sel 7 == 7
      then w
      else update w1 (sel + 4 * low) (u32 (bit_or (w1 (sel + 4 * low)) 7))

  open_page-eq : open_page (dir * 4096) p w ≡ opened
  unfolding open_page
  open_page-eq =
      let e0 : w entry ≡ table + 1 = s.entry (p / 1024) (omega arith) (omega arith) in
      let e1 : bit_and (table + 1) 0xffff_f000 ≡ table =
        omega (arith, bit_and_page (table + 1) (omega (arith, s.kernel_in)), s.kernel_in) in
      let e2 : bit_and table 7 ≡ 0 = omega (arith, bit_and_seven table) in
      let e3 : bit_and p 0x3ff ≡ p % 1024 = bit_and_0x3ff p in
      let e4 : u32 (bit_or (table + 1) 7) ≡ table + 7 =
        omega (arith, bit_or_seven (table + 1), s.kernel_in) in
      let ne : entry ≢ at = λ e. absurd (omega (arith, s.outside)) in
      let e5 : update w entry (table + 7) at ≡ p * 4096 + 1 =
        update_ne w (table + 7) ne ∙ ap w (omega arith) ∙ s.table p hi in
      let e6 : u32 (bit_or (p * 4096 + 1) 7) ≡ p * 4096 + 7 =
        omega (arith, bit_or_seven (p * 4096 + 1)) in
      ap (λ sel. stores sel (bit_and p 0x3ff)) (ap (λ x. bit_and x 0xffff_f000) e0 ∙ e1)
      ∙ ap (stores table) e3
      ∙ rw e2 (
          ap (λ v. update (update w entry v) at (u32 (bit_or (update w entry v at) 7)))
            (ap (λ x. u32 (bit_or x 7)) e0 ∙ e4))
      ∙ ap (update (update w entry (table + 7)) at) (ap (λ x. u32 (bit_or x 7)) e5 ∙ e6)

  -- The walk of an address of the page, from any directory over the same tables.
  walk-opened :
      (dir2 addr : ℕ)
      → IsShared dir2 d w
      → addr / 4096 ≡ p
      → walk opened (dir2 * 4096) addr ≡ p * 4096 + 7
  unfolding walk
  walk-opened dir2 addr s2 here =
      let e0 : w (dir2 * 4096 + 4 * (p / 1024)) ≡ table + 1 =
        s2.entry (p / 1024) (omega arith) (omega arith) in
      let c : bit_and (dir2 * 4096) 0xffff_f000 ≡ dir2 * 4096 =
        omega (arith, bit_and_page (dir2 * 4096) (omega (arith, s2.dir_in)), s2.dir_in) in
      let e1 : bit_and (table + 1) 0xffff_f000 ≡ table =
        omega (arith, bit_and_page (table + 1) (omega (arith, s.kernel_in)), s.kernel_in) in
      let e2 : bit_and (table + 7) 0xffff_f000 ≡ table =
        omega (arith, bit_and_page (table + 7) (omega (arith, s.kernel_in)), s.kernel_in) in
      let i : addr / 2 ^ 22 ≡ p / 1024 = omega arith in
      let at2 : table + bit_and (addr / 2 ^ 12) 0x3ff * 4 ≡ at =
        omega (arith, bit_and_0x3ff (addr / 2 ^ 12)) in
      let ne : at ≢ dir2 * 4096 + 4 * (p / 1024) = λ e. absurd (omega (arith, s2.outside)) in
      let named : bit_and (opened (dir2 * 4096 + addr / 2 ^ 22 * 4)) 0xffff_f000 ≡ table =
        ap (λ a. bit_and (opened a) 0xffff_f000) (omega arith)
        ∙ ap (λ x. bit_and x 0xffff_f000) (update_ne (update w entry (table + 7)) (p * 4096 + 7) ne)
        ∙ elim (ℕ_discrete entry (dir2 * 4096 + 4 * (p / 1024))) [
          | yes same ↦
              ap (λ a. bit_and (update w entry (table + 7) a) 0xffff_f000) (sym same)
              ∙ ap (λ x. bit_and x 0xffff_f000) (update_self w entry (table + 7))
              ∙ e2
          | no other ↦ ap (λ x. bit_and x 0xffff_f000) (update_ne w (table + 7) other ∙ e0) ∙ e1
        ] in
      ap
        (λ c. opened (
          bit_and (opened (c + addr / 2 ^ 22 * 4)) 0xffff_f000 + bit_and (addr / 2 ^ 12) 0x3ff * 4))
        c
      ∙ ap (λ t. opened (t + bit_and (addr / 2 ^ 12) 0x3ff * 4)) named
      ∙ ap opened at2
      ∙ update_self (update w entry (table + 7)) at (p * 4096 + 7)

  -- So `check_addr` grants it.
  check_word-opened :
      (dir2 addr : ℕ)
      → IsShared dir2 d w
      → addr / 4096 ≡ p
      → check_word (open_page (dir * 4096) p w) (dir2 * 4096) addr ≡ addr
  unfolding check_word
  check_word-opened dir2 addr s2 here =
      let flags : bit_and (p * 4096 + 7) 7 ≡ 7 = omega (arith, bit_and_seven (p * 4096 + 7)) in
      let page : bit_and (p * 4096 + 7) 0xffff_f000 ≡ p * 4096 =
        omega (arith, bit_and_page (p * 4096 + 7) (omega arith)) in
      let offset : bit_and addr 0xfff ≡ addr % 4096 = bit_and_0xfff addr in
      rw (open_page-eq, walk-opened dir2 addr s2 here, flags, page, offset) (omega arith)

-- For a page from 1024 on and below 2 ^ 20 that is free in a map of bytes, asked for by a task
-- whose directory, like the directory of a second task, stands over the kernel tables at `d`,
-- `sys_mem` returns the page; only that page becomes taken; and `check_word` then gives an
-- address of the page at itself through the directory of the task, and through that of the second
-- task as well.
pub sys_mem_lem :
    (k : Kernel) (p t dir dir2 d addr : ℕ)
    → IsMap k.mm
    → used k.mm p ≡ false
    → 1024 ≤ p
    → p < 2 ^ 20
    → (k.r_tareas k.t_indice).task_tss ≡ some t
    → (k.tss_p t).cr3 ≡ dir * 4096
    → IsShared dir d k.words
    → IsShared dir2 d k.words
    → addr / 4096 ≡ p
    → (k' : Kernel) × (sys_mem p k ≡ some (p, k'))
      × Marks k.mm p true k'.mm
      × (check_word k'.words (dir * 4096) addr ≡ addr)
      × (check_word k'.words (dir2 * 4096) addr ≡ addr)
unfolding sys_mem give_page
sys_mem_lem k p t dir dir2 d addr is_map free lo hi task cr3 s s2 here =
    let (m, eq, marks) = set_mem_lem p k.mm is_map hi in
    let c : bit_and (dir * 4096) 0xffff_f000 ≡ dir * 4096 =
      omega (arith, bit_and_page (dir * 4096) (omega (arith, s.dir_in)), s.dir_in) in
    let some_page : (p == 0) ≡ false = ground arith in
    (
      record k { mm = m; words = open_page (dir * 4096) p k.words },
      rw (some_page, eq, free, task, cr3, c, some_page),
      marks,
      check_word-opened dir d p k.words s lo hi dir addr s here,
      check_word-opened dir d p k.words s lo hi dir2 addr s2 here,
    )
