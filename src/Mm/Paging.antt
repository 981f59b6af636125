-- ===== src/Mm/Paging.antt =====
-- `ini_pag` of mm/mm.c: the kernel's page directory and tables in physical memory.
pub mod Run
pub mod Loops
pub mod Identity
pub mod Total
use silicio.Mm.{Mm, pag_ok, set_mem, buscar_mem}
use silicio.Base.{ℕ, zero, suc, bit_and, Option, none, some, update, u32, ◌+◌, ◌-◌, ◌*◌, ◌/◌, ◌^◌}
use silicio.Base.{◌==◌, if◌then◌else◌, ◌>>=◌, ◌>>◌}

-- Physical memory by words: the 32-bit word at an address. The kernel's pointers are physical.
abbrev pub Words : Type 0
Words = ℕ → ℕ

-- `*p = v` and `*p`
abbrev pub store : Words → ℕ → ℕ → Words
store w a v = update w a (u32 v)

abbrev pub can_tab_pag : ℕ
can_tab_pag = 1024

abbrev pub tab_pag_len : ℕ
tab_pag_len = 1024

-- `p = buscar_mem(); set_mem(p);`. The code does not look at the result of `set_mem`. Where the page
-- was taken already, as page 0 is that `buscar_mem` returns for no page, it goes on and writes a
-- table over what lies there: `none`.
pub request : Mm → Option (ℕ × Mm)
request m = do
  p ← buscar_mem m
  (result, m') ← set_mem p m
  if result == pag_ok then some (p, m') else none

-- The pages of the tables after the first, entered in the directory from `aux_d` on.
pub fill_dir : ℕ → ℕ → Mm → Words → Option (Mm × Words)
fill_dir zero aux_d m w = some (m, w)
fill_dir (suc left) aux_d m w = do
  (p, m') ← request m
  fill_dir left (aux_d + 4) m' (store w aux_d (u32 (p * 2 ^ 12) + 1))

-- One table: `pag` runs to the end of the table, `aux_t` is advanced.
pub fill_row : ℕ → ℕ → ℕ → ℕ → Words → ℕ × Words
fill_row zero pag tab aux_t w = (aux_t, w)
fill_row (suc left) pag tab aux_t w =
    fill_row left (pag + 1) tab (aux_t + 4)
      (store w aux_t (u32 (pag * 2 ^ 12) + u32 (tab * 2 ^ 22 + 1)))

pub fill_tables : ℕ → ℕ → ℕ → Words → Words
fill_tables zero tab aux_t w = w
fill_tables (suc left) tab aux_t w =
    let (aux_t', w') = fill_row tab_pag_len 0 tab aux_t w in fill_tables left (tab + 1) aux_t' w'

-- `g_dir` and `g_tab`, the values of `pag_dir()` and `pag_tab()`.
pub record Tables : Type 0 where
  pub g_dir : ℕ
  pub g_tab : ℕ

pub ini_pag : Mm → Words → Option (Tables × Mm × Words)
ini_pag m w = do
  (d, m1) ← request m
  (t, m2) ← request m1
  let g_dir = u32 (d * 2 ^ 12)
  let g_tab = u32 (t * 2 ^ 12)
  (m3, w1) ← fill_dir (can_tab_pag - 1) (g_dir + 4) m2 (store w g_dir (g_tab + 1))
  some (record { g_dir = g_dir; g_tab = g_tab }, m3, fill_tables can_tab_pag 0 g_tab w1)

-- The table entry of an address, as `check_addr` reads it from a directory.
unfoldable pub walk : Words → ℕ → ℕ → ℕ
walk w cr3 addr =
    let dir = bit_and cr3 0xffff_f000 in
    let tabla = bit_and (w (dir + addr / 2 ^ 22 * 4)) 0xffff_f000 in
    w (tabla + bit_and (addr / 2 ^ 12) 0x3ff * 4)
