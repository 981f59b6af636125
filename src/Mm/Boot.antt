-- ===== src/Mm/Boot.antt =====
-- `ini_map` and `ini_mm` of mm/mm.c: which pages are taken when the allocator starts.
use native.Mathlib.Decide.{dec_lt}
use silicio.Mm.{Mm, map_len, pag_len, set_mem, unset_mem}
use silicio.Base.{ℕ, zero, suc, refl, ap, inl, Bool, true, false, Option, some, map, arith, ltb}
use silicio.Base.{leb, ◌+◌, ◌-◌, ◌/◌, ◌%◌, ◌^◌, ◌≤◌, ◌<◌, ◌≡◌, ◌⊎◌, ◌∙◌, ◌&&◌, ◌||◌}
use silicio.Base.{if◌then◌else◌, ◌>>=◌}
use silicio.Base.Bytes.{bit_at}
use silicio.Mm.Bitmap.{used, IsMap, Marks, set_mem_lem, unset_mem_lem}
use silicio.Mm.Testmem.{Ram, testmem, Agrees, testmem_lem}
use silicio.Base.{ℕ, zero, suc, refl, ap, inl, Bool, true, false, Option, some, map, arith, ltb}
use silicio.Base.{leb, ◌+◌, ◌-◌, ◌/◌, ◌%◌, ◌^◌, ◌≤◌, ◌<◌, ◌≡◌, ◌⊎◌, ◌∙◌, ◌&&◌, ◌||◌}
use silicio.Base.{if◌then◌else◌, ◌>>=◌}

-- Both branches of the loop store 0.
pub ini_map : ℕ → (ℕ → ℕ) → ℕ → ℕ
ini_map tope map i = if ltb i map_len then (if ltb i (tope / 8) then 0 else 0) else map i

-- `left` calls of `set_mem` from page `p` up.
pub set_range : ℕ → ℕ → Mm → Option Mm
set_range zero p m = some m
set_range (suc left) p m = do (_, m') ← set_mem p m; set_range left (p + 1) m'

-- The eight calls of `unset_mem`, `pag_video++` between them.
pub unset_range : ℕ → ℕ → Mm → Option Mm
unset_range zero p m = some m
unset_range (suc left) p m = do (_, m') ← unset_mem p m; unset_range left (p + 1) m'

-- The three loops of `ini_mm` after the map is cleared.
pub mark_boot : ℕ → Mm → Option Mm
mark_boot kernel_fin m = do
  m1 ← set_range 256 0 m
  m2 ← unset_range 8 (0xFC000 / pag_len) m1
  let pag_kernel = 0x100000 / pag_len
  let left = kernel_fin / pag_len + 1 - pag_kernel
  m3 ← set_range left pag_kernel m2
  set_range (m3.mem_off - (pag_kernel + left)) (pag_kernel + left) m3

module _ (ram : Ram) where
  open ram use {State}

  pub ini_mm : ℕ → Mm → State → Option (ℕ × Mm × State)
  ini_mm kernel_fin m s = do
    (size, s') ← testmem ram kernel_fin s
    m' ← mark_boot kernel_fin (record m { mem_max = size; mem_map = ini_map size m.mem_map })
    some (size, m', s')

-- `m'` is `m` with the pages from `lo` below `hi` all taken (or given back) and no other change.
pub record Fills (m : Mm) (lo hi : ℕ) (v : Bool) (m' : Mm) : Type 0 where
  pub is_map : IsMap m'
  pub inside : (q : ℕ) → lo ≤ q → q < hi → used m' q ≡ v
  pub outside : (q : ℕ) → (q < lo) ⊎ (hi ≤ q) → used m' q ≡ used m q
  pub max_same : m'.mem_max ≡ m.mem_max
  pub off_same : m'.mem_off ≡ m.mem_off

pub Fills-nil : (m : Mm) (p hi : ℕ) (v : Bool) → IsMap m → p ≡ hi → Fills m p hi v m
Fills-nil m p hi v h e = record {
  is_map = h;
  inside = λ q a b. absurd (omega arith);
  outside = λ q c. refl;
  max_same = refl;
  off_same = refl;
}

pub Fills-cons :
    {m m1 m2 : Mm} {p hi : ℕ} {v : Bool}
    → p < hi
    → Marks m p v m1
    → Fills m1 (p + 1) hi v m2
    → Fills m p hi v m2
Fills-cons {m} {m1} {m2} {p} {hi} {v} l k r = record {
  is_map = r.is_map;
  inside = λ q a b. elim (dec_lt p q) [
    | yes c ↦ r.inside q (omega arith) b
    | no c ↦ let e : q ≡ p = omega arith in rw e (r.outside p (inl (omega arith)) ∙ k.here)
  ];
  outside = λ q c. r.outside q (ground arith) ∙ k.others q (ground arith);
  max_same = r.max_same ∙ k.max_same;
  off_same = r.off_same ∙ k.off_same;
}

pub set_range_lem :
    (left p hi : ℕ) (m : Mm)
    → IsMap m
    → p + left ≡ hi
    → hi ≤ 2 ^ 20
    → (m' : Mm) × (set_range left p m ≡ some m') × Fills m p hi true m'
unfolding set_range
set_range_lem zero p hi m h e l = (m, refl, Fills-nil m p hi true h (omega arith))
set_range_lem (suc left) p hi m h e l =
    let (m1, eq, k) = set_mem_lem p m h (omega arith) in
    let (m2, eq', r) = set_range_lem left (p + 1) hi m1 k.is_map (omega arith) l in
    (m2, rw eq eq', Fills-cons (omega arith) k r)

pub unset_range_lem :
    (left p hi : ℕ) (m : Mm)
    → IsMap m
    → p + left ≡ hi
    → hi ≤ 2 ^ 20
    → (m' : Mm) × (unset_range left p m ≡ some m') × Fills m p hi false m'
unfolding unset_range
unset_range_lem zero p hi m h e l = (m, refl, Fills-nil m p hi false h (omega arith))
unset_range_lem (suc left) p hi m h e l =
    let (m1, eq, k) = unset_mem_lem p m h (omega arith) in
    let (m2, eq', r) = unset_range_lem left (p + 1) hi m1 k.is_map (omega arith) l in
    (m2, rw eq eq', Fills-cons (omega arith) k r)

-- The pages that are taken when `ini_mm` is done: the first megabyte less its last four pages,
-- the kernel and what lies between it and `mem_off`.
abbrev pub boot_used : (kernel_fin mem_off : ℕ) → ℕ → Bool
boot_used kernel_fin mem_off q =
    ltb q 252 || (leb 256 q && (leb q (kernel_fin / 4096) || ltb q mem_off))

boot_used_lem :
    {m m1 m2 m3 m4 : Mm} {last hi : ℕ} (kernel_fin : ℕ)
    → Fills m 0 256 true m1
    → Fills m1 252 260 false m2
    → Fills m2 256 last true m3
    → Fills m3 last hi true m4
    → last ≡ kernel_fin / 4096 + 1
    → 256 ≤ kernel_fin / 4096
    → hi ≡ last + (m.mem_off - last)
    → ((q : ℕ) → used m q ≡ false)
    → (q : ℕ) → used m4 q ≡ boot_used kernel_fin m.mem_off q
boot_used_lem kernel_fin f1 f2 f3 f4 e low h clear q = ground (
  arith,
  clear q,
  f1.inside q,
  f1.outside q,
  f2.inside q,
  f2.outside q,
  f3.inside q,
  f3.outside q,
  f4.inside q,
  f4.outside q,
)

mark_boot-eq :
    (kernel_fin : ℕ) (m : Mm) {m1 m2 m3 m4 : Mm}
    → set_range 256 0 m ≡ some m1
    → unset_range 8 252 m1 ≡ some m2
    → set_range (kernel_fin / 4096 + 1 - 256) 256 m2 ≡ some m3
    → set_range (m3.mem_off - (kernel_fin / 4096 + 1)) (kernel_fin / 4096 + 1) m3 ≡ some m4
    → 256 ≤ kernel_fin / 4096
    → mark_boot kernel_fin m ≡ some m4
unfolding mark_boot
mark_boot-eq kernel_fin m e1 e2 e3 e4 low =
    let start : 256 + (kernel_fin / 4096 + 1 - 256) ≡ kernel_fin / 4096 + 1 = omega arith in
    rw (e1, e2, e3, start) e4

pub mark_boot_lem :
    (kernel_fin : ℕ) (m : Mm)
    → IsMap m
    → ((q : ℕ) → used m q ≡ false)
    → 2 ^ 20 ≤ kernel_fin
    → kernel_fin < 2 ^ 32
    → m.mem_off ≤ 2 ^ 20
    → (m' : Mm) × (mark_boot kernel_fin m ≡ some m')
      × IsMap m'
      × (m'.mem_max ≡ m.mem_max)
      × (m'.mem_off ≡ m.mem_off)
      × ((q : ℕ) → used m' q ≡ boot_used kernel_fin m.mem_off q)
mark_boot_lem kernel_fin m h clear lo hi off =
    let last = kernel_fin / 4096 + 1 in
    let (m1, e1, f1) = set_range_lem 256 0 256 m h (omega arith) (omega arith) in
    let (m2, e2, f2) = unset_range_lem 8 252 260 m1 f1.is_map (omega arith) (omega arith) in
    let (m3, e3, f3) =
      set_range_lem (last - 256) 256 last m2 f2.is_map (omega arith) (omega arith) in
    let same : m3.mem_off ≡ m.mem_off = f3.off_same ∙ f2.off_same ∙ f1.off_same in
    let (m4, e4, f4) =
      set_range_lem (m3.mem_off - last) last (last + (m3.mem_off - last)) m3 f3.is_map refl
        (omega arith) in
    (
      m4,
      mark_boot-eq kernel_fin m e1 e2 e3 e4 (omega arith),
      f4.is_map,
      f4.max_same ∙ f3.max_same ∙ f2.max_same ∙ f1.max_same,
      f4.off_same ∙ same,
      boot_used_lem kernel_fin f1 f2 f3 f4 refl (omega arith) (ap (λ k. last + (k - last)) same)
          clear,
    )

bit_at-zero : (k : ℕ) → bit_at 0 k ≡ false
unfolding bit_at
bit_at-zero k = ground arith

-- For a kernel that ends at 1 MB or above and below the top of a memory of at most 4 GB - 1 MB,
-- with `mem_off` at most 2 ^ 20 and 0 in the model's cells behind the map, `ini_mm` returns the
-- number of pages of the memory and leaves its bytes as they were; `mem_off` stays, and a page is
-- taken exactly when it is below page 252, or from 256 on and at most the last page of the kernel
-- or below `mem_off`.
pub ini_mm_lem :
    (ram : Ram) (kernel_fin : ℕ) (m : Mm) (s : ram.State)
    → 2 ^ 20 ≤ kernel_fin
    → kernel_fin < ram.top
    → ram.top + 2 ^ 20 ≤ 2 ^ 32
    → m.mem_off ≤ 2 ^ 20
    → ((i : ℕ) → map_len ≤ i → m.mem_map i ≡ 0)
    → (m' : Mm) × (s' : ram.State) × (ini_mm ram kernel_fin m s ≡ some (ram.top / 4096, m', s'))
      × Agrees ram s s'
      × IsMap m'
      × (m'.mem_max ≡ ram.top / 4096)
      × (m'.mem_off ≡ m.mem_off)
      × ((q : ℕ) → used m' q ≡ boot_used kernel_fin m.mem_off q)
unfolding ini_mm ini_map
ini_mm_lem ram kernel_fin m s lo hi word off blank =
    let size = ram.top / 4096 in
    let (s', e, agrees) = testmem_lem ram kernel_fin s hi word in
    let zero_map : (i : ℕ) → ini_map size m.mem_map i ≡ 0 = λ i. ground (arith, blank i) in
    let start : Mm = record m { mem_max = size; mem_map = ini_map size m.mem_map } in
    let clear : (q : ℕ) → used start q ≡ false = λ q. rw (zero_map (q / 8)) (bit_at-zero (q % 8)) in
    let (m', e', is_map, max, same, taken) =
      mark_boot_lem kernel_fin start (λ i. rw (zero_map i) (omega arith)) clear lo (omega arith)
        off in
    (m', s', rw (e, e'), agrees, is_map, max, same, taken)
