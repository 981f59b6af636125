-- ===== src/Mm/Paging/Identity.antt =====
-- `ini_pag` maps every address of the 4 GB to itself, where the pages that it is given follow one
-- another.
use native.Mathlib.Decide.{ℕ_discrete}
use silicio.Mm.{Mm}
use silicio.Mm.Paging.{Words, store, request, fill_dir, fill_tables, Tables, ini_pag, walk}
use silicio.Mm.Paging.Run.{FreeRun, request_lem}
use silicio.Mm.Paging.Loops.{Maps, fill_dir-Maps, fill_tables-Maps}
use silicio.Base.{ℕ, bit_and, refl, ap, inl, some, arith, u32, ◌+◌, ◌*◌, ◌/◌, ◌%◌, ◌^◌, ◌≤◌, ◌<◌}
use silicio.Base.{◌≡◌, ◌∙◌}
use silicio.Base.Bits.{bit_and_0x3ff, bit_and_page}

-- A page at `d` holds the directory and the 1024 pages after it the tables.
pub record IsIdentity (w : Words) (d : ℕ) : Type 0 where
  pub dir : (k : ℕ) → k < 1024 → w (d * 4096 + 4 * k) ≡ (d + 1 + k) * 4096 + 1
  pub tab : (k : ℕ) → k < 2 ^ 20 → w ((d + 1) * 4096 + 4 * k) ≡ k * 4096 + 1

abbrev pub tables_at : ℕ → Tables
tables_at d = record { g_dir = d * 4096; g_tab = (d + 1) * 4096 }

ini_pag-eq :
    (m : Mm) (w : Words) (d : ℕ) {m1 m2 m3 : Mm} {w3 : Words}
    → d + 1025 ≤ 2 ^ 20
    → request m ≡ some (d, m1)
    → request m1 ≡ some (d + 1, m2)
    → fill_dir 1023 (d * 4096 + 4) m2 (store w (d * 4096) ((d + 1) * 4096 + 1)) ≡ some (m3, w3)
    → ini_pag m w ≡ some (tables_at d, m3, fill_tables 1024 0 ((d + 1) * 4096) w3)
unfolding ini_pag
ini_pag-eq m w d small e1 e2 e3 =
    let dir : u32 (d * 2 ^ 12) ≡ d * 4096 = omega arith in
    let tab : u32 ((d + 1) * 2 ^ 12) ≡ (d + 1) * 4096 = omega arith in rw (e1, e2, dir, tab, e3)

filled-IsIdentity :
    (w : Words) {w3 w4 : Words} {d : ℕ}
    → d + 1025 ≤ 2 ^ 20
    → Maps (d + 1) (d * 4096) 1 1024 (store w (d * 4096) ((d + 1) * 4096 + 1)) w3
    → Maps 0 ((d + 1) * 4096) 0 (2 ^ 20) w3 w4
    → IsIdentity w4 d
filled-IsIdentity w {w3} {w4} {d} small dir tab = record {
  dir = λ k l. tab.outside (d * 4096 + 4 * k) (inl (omega arith)) ∙ elim (ℕ_discrete k 0) [
    | yes e ↦ rw e (dir.outside (d * 4096 + 4 * 0) (inl (omega arith)) ∙ ground arith)
    | no ne ↦ dir.inside k (omega arith) l
  ];
  tab = λ k l. omega (arith, tab.inside k (omega arith) l);
}

-- Where the first free page is `d` and 1025 pages from it on are free and in the search range,
-- `ini_pag` returns; the directory is at page `d` and its entries name the 1024 pages behind it
-- in order, and the tables on them hold each page of the 4 GB at its own place, present and for
-- the kernel.
pub ini_pag-IsIdentity :
    (m : Mm) (w : Words) (d : ℕ)
    → FreeRun m d 1025
    → (m' : Mm) × (w' : Words) × (ini_pag m w ≡ some (tables_at d, m', w')) × IsIdentity w' d
ini_pag-IsIdentity m w d r =
    let (m1, e1, marks1, run1) = request_lem {n = 1024} r in
    let (m2, e2, marks2, run2) = request_lem {n = 1023} run1 in
    let small : d + 1025 ≤ 2 ^ 20 = omega (arith, r.fits, r.ready.max_hi) in
    let (m3, w3, e3, dir) =
      fill_dir-Maps 1023 (d + 1 + 1) (d + 1) 1 (d * 4096) (d * 4096 + 4) 1024 m2
        (store w (d * 4096) ((d + 1) * 4096 + 1)) run2 (omega arith) (omega arith) refl
        (omega arith) in
    let tab = fill_tables-Maps 1024 0 ((d + 1) * 4096) ((d + 1) * 4096) w3 refl (omega arith) in
    (m3, _, ini_pag-eq m w d small e1 e2 e3, filled-IsIdentity w small dir tab)

-- Through tables of `IsIdentity` at a page `d` with `d + 1025` at most 2 ^ 20, the walk of an
-- address below 2 ^ 32 finds the entry of the address's own page, present and closed to user
-- code.
pub walk-IsIdentity :
    (w : Words) (d addr : ℕ)
    → IsIdentity w d
    → d + 1025 ≤ 2 ^ 20
    → addr < 2 ^ 32
    → walk w (d * 4096) addr ≡ addr / 4096 * 4096 + 1
unfolding walk
walk-IsIdentity w d addr h small word =
    let e1 : bit_and (d * 4096) 0xffff_f000 ≡ d * 4096 =
      omega (arith, bit_and_page (d * 4096) (omega arith)) in
    let i = addr / 2 ^ 22 in
    let e2 : w (d * 4096 + i * 4) ≡ (d + 1 + i) * 4096 + 1 =
      ap w (omega arith) ∙ h.dir i (omega arith) in
    let e3 : bit_and ((d + 1 + i) * 4096 + 1) 0xffff_f000 ≡ (d + 1 + i) * 4096 =
      omega (arith, bit_and_page ((d + 1 + i) * 4096 + 1) (omega arith)) in
    let e4 : bit_and (addr / 2 ^ 12) 0x3ff ≡ addr / 4096 % 1024 = bit_and_0x3ff (addr / 2 ^ 12) in
    let e5 : w ((d + 1 + i) * 4096 + addr / 4096 % 1024 * 4) ≡ addr / 4096 * 4096 + 1 =
      ap w (omega arith) ∙ h.tab (addr / 4096) (omega arith) in
    rw (e1, e2, e3, e4, e5)

-- Where the first free page is `d` and 1025 pages from it on are free and in the search range,
-- `ini_pag` returns; the directory is at page `d` and its entries name the 1024 pages behind it
-- in order, and the tables on them hold each page of the 4 GB at its own place; the walk of every
-- address below 2 ^ 32 through them finds the entry of its own page, present and closed to user
-- code.
pub ini_pag-walk :
    (m : Mm) (w : Words) (d : ℕ)
    → FreeRun m d 1025
    → (m' : Mm) × (w' : Words) × (ini_pag m w ≡ some (tables_at d, m', w'))
      × IsIdentity w' d
      × ((addr : ℕ) → addr < 2 ^ 32 → walk w' (d * 4096) addr ≡ addr / 4096 * 4096 + 1)
ini_pag-walk m w d r =
    let (m', w', e, h) = ini_pag-IsIdentity m w d r in
    let small : d + 1025 ≤ 2 ^ 20 = omega (arith, r.fits, r.ready.max_hi) in
    (m', w', e, h, λ addr word. walk-IsIdentity w' d addr h small word)
