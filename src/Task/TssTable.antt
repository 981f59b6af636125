-- ===== src/Task/TssTable.antt =====
-- The table of `tss` of exec/exec.c: `clear_tss`, `set_tss`, and what they promise.
use native.Mathlib.Decide.{ℕ_discrete}
use silicio.Task.{Tss, max_task, max_pag_driver, max_pag_virtual, tss_port, iobp_offset}
use silicio.Base.{ℕ, zero, suc, refl, inl, inr, true, false, Option, none, some, arith, ltb}
use silicio.Base.{update, ◌+◌, ◌≤◌, ◌<◌, ◌≡◌, ◌≢◌, ◌⊎◌, ◌==◌, if◌then◌else◌}

-- The loops write the arrays below their bounds.
unfoldable pub clear_tss : Tss → Tss
clear_tss t = record {
  b_link = 0;
  n = 0;
  esp0 = 0;
  ss0 = 0;
  n0 = 0;
  esp1 = 0;
  ss1 = 0;
  n1 = 0;
  esp2 = 0;
  ss2 = 0;
  n2 = 0;
  cr3 = 0;
  eip = 0;
  eflag = 0;
  eax = 0;
  ecx = 0;
  edx = 0;
  ebx = 0;
  esp = 0;
  ebp = 0;
  esi = 0;
  edi = 0;
  es = 0;
  n3 = 0;
  cs = 0;
  n4 = 0;
  ss = 0;
  n5 = 0;
  ds = 0;
  n6 = 0;
  fs = 0;
  n7 = 0;
  gs = 0;
  n8 = 0;
  ldt = 0;
  n9 = 0;
  n10 = 0;
  bit_map = 0;
  pag_mem = λ i. if ltb i max_pag_driver then 0 else t.pag_mem i;
  pag_virtual = λ i. if ltb i max_pag_virtual then 0 else t.pag_virtual i;
  pag_stack = 0;
  iobp = λ i. if ltb i tss_port then 0xFF else t.iobp i;
  fin = 0xff;
}

-- The `for` of `set_tss`: the index where it ends and the entry that it found.
pub find_tss : ℕ → ℕ → (ℕ → Tss) → ℕ × Option ℕ
find_tss zero i n = (i, none)
find_tss (suc left) i n = elim ((n i).cs == 0) [
  | true ↦ (i + 1, some i)
  | false ↦ find_tss left (i + 1) n
]

-- The fields that `set_tss` writes into the entry.
unfoldable pub fill_tss : (tarea code seg esp eflag esp0 data0 : ℕ) → Tss → Tss
fill_tss tarea code seg esp eflag esp0 data0 t = record t {
  n = 0;
  n0 = 0;
  n1 = 0;
  n2 = 0;
  n3 = 0;
  n4 = 0;
  n5 = 0;
  n6 = 0;
  n7 = 0;
  n8 = 0;
  n9 = 0;
  n10 = 0;
  eip = tarea;
  cs = code;
  ds = seg;
  es = seg;
  fs = seg;
  gs = seg;
  ss = seg;
  ss0 = data0;
  ss1 = data0;
  ss2 = data0;
  esp = esp;
  esp0 = esp0;
  esp1 = esp0;
  esp2 = esp0;
  ldt = 0x18;
  eflag = eflag;
  bit_map = iobp_offset;
  fin = 0xff;
}

-- The null pointer is returned where the loop ended at the end of the table, also if it found the
-- last entry there.
pub set_tss : (tarea code seg esp eflag esp0 data0 : ℕ) → (ℕ → Tss) → Option ℕ × (ℕ → Tss)
set_tss tarea code seg esp eflag esp0 data0 n =
    let (i, t) = find_tss max_task 0 n in
    if i == max_task then (none, n) else elim t [
      | none ↦ (none, n)
      | some k ↦ (some k, update n k (fill_tss tarea code seg esp eflag esp0 data0 (n k)))
    ]

-- The entry `k` is the first free one.
pub record IsFirstTss (n : ℕ → Tss) (k : ℕ) : Type 0 where
  pub free : (n k).cs ≡ 0
  pub before : (j : ℕ) → j < k → (n j).cs ≢ 0

find_tss-first :
    (left i k : ℕ) (n : ℕ → Tss)
    → IsFirstTss n k
    → i ≤ k
    → k < i + left
    → find_tss left i n ≡ (k + 1, some k)
unfolding find_tss
find_tss-first zero i k n h lo hi = absurd (omega arith)
find_tss-first (suc left) i k n h lo hi = elim (ℕ_discrete i k) [
  | yes e ↦ let z : ((n i).cs == 0) ≡ true = rw e (ground (arith, h.free)) in rw (z, find_tss, e)
  | no ne ↦
      let z : ((n i).cs == 0) ≡ false = ground (arith, h.before i) in
      rw (z, find_tss) (find_tss-first left (i + 1) k n h (omega arith) (omega arith))
]

find_tss-none :
    (left i hi : ℕ) (n : ℕ → Tss)
    → i + left ≡ hi
    → ((j : ℕ) → j < hi → (n j).cs ≢ 0)
    → find_tss left i n ≡ (hi, none)
unfolding find_tss
find_tss-none zero i hi n e full = let same : i ≡ hi = omega arith in rw same
find_tss-none (suc left) i hi n e full =
    let z : ((n i).cs == 0) ≡ false = ground (arith, full i) in
    rw (z, find_tss) (find_tss-none left (i + 1) hi n (omega arith) full)

module _ (tarea code seg esp eflag esp0 data0 : ℕ) (n : ℕ → Tss) where
  -- Where the first free entry of the `tss` table is `k`, below 99, `set_tss` returns it, filled
  -- as the arguments say, and changes no other.
  pub set_tss_lem :
      (k : ℕ)
      → IsFirstTss n k
      → k < 99
      → set_tss tarea code seg esp eflag esp0 data0 n
        ≡ (some k, update n k (fill_tss tarea code seg esp eflag esp0 data0 (n k)))
  unfolding set_tss
  set_tss_lem k h l =
      let test : (k + 1 == max_task) ≡ false = ground arith in
      rw (find_tss-first max_task 0 k n h (omega arith) (omega arith), test)

  -- Where the entries below 99 are taken, `set_tss` returns the null pointer and changes nothing,
  -- whether entry 99 is free or not.
  pub set_tss-full :
      ((j : ℕ) → j < 99 → (n j).cs ≢ 0) → set_tss tarea code seg esp eflag esp0 data0 n ≡ (none, n)
  unfolding set_tss
  set_tss-full full = elim (ℕ_discrete (n 99).cs 0) [
    | yes e ↦ rw (
        find_tss-first max_task 0 99 n (record { free = e; before = full }) (omega arith)
          (omega arith))
    | no ne ↦ rw (
        find_tss-none max_task 0 100 n refl
          λ j h. elim (ℕ_discrete j 99) [ yes e' ↦ rw e' ne | no l ↦ full j (omega arith) ])
  ]

-- The first entry that is free, among those below `hi`.
first_tss :
    (hi : ℕ) (n : ℕ → Tss)
    → ((k : ℕ) × (k < hi) × IsFirstTss n k) ⊎ ((j : ℕ) → j < hi → (n j).cs ≢ 0)
first_tss zero n = inr (λ j h. absurd (omega arith))
first_tss (suc hi) n = elim (first_tss hi n) [
  | inl p ↦ let (k, l, h) = p in inl (k, omega arith, h)
  | inr full ↦ elim (ℕ_discrete (n hi).cs 0) [
    | yes e ↦ inl (hi, omega arith, record { free = e; before = full })
    | no ne ↦ inr (λ j l. elim (ℕ_discrete j hi) [ yes e ↦ rw e ne | no d ↦ full j (omega arith) ])
  ]
]

-- For every table of `tss`: the first free entry is `k`, below 99, and `set_tss` returns it,
-- filled as the arguments say, and changes no other; or the entries below 99 are taken, and
-- `set_tss` returns the null pointer and changes nothing, whether entry 99 is free or not.
pub set_tss-cases :
    (tarea code seg esp eflag esp0 data0 : ℕ) (n : ℕ → Tss)
    → ((k : ℕ) × (k < 99)
        × IsFirstTss n k
        × (set_tss tarea code seg esp eflag esp0 data0 n
            ≡ (some k, update n k (fill_tss tarea code seg esp eflag esp0 data0 (n k)))))
      ⊎ (((j : ℕ) → j < 99 → (n j).cs ≢ 0)
          × (set_tss tarea code seg esp eflag esp0 data0 n ≡ (none, n)))
set_tss-cases tarea code seg esp eflag esp0 data0 n = elim (first_tss 99 n) [
  | inl p ↦
      let (k, l, h) = p in inl (k, l, h, set_tss_lem tarea code seg esp eflag esp0 data0 n k h l)
  | inr full ↦ inr (full, set_tss-full tarea code seg esp eflag esp0 data0 n full)
]
