-- ===== src/Task/Space.antt =====
-- The address space of a task: its tables as `exec` of exec/exec.c builds them, and `check_addr`,
-- which the system calls use to reach the memory of their caller.
pub mod Build
pub mod Isolation
use silicio.Task.{Tss, Run}
use silicio.Mm.Paging.{Words, store, tab_pag_len, Tables, walk}
use silicio.Base.{ℕ, zero, suc, bit_and, Option, some, u32, ◌+◌, ◌*◌, ◌==◌, if◌then◌else◌, ◌>>=◌}
use silicio.Base.{◌>>◌}

abbrev pub v_user : ℕ
v_user = 0x300

abbrev pub v_stack : ℕ
v_stack = 0x3ff

abbrev pub dir_pag_len : ℕ
dir_pag_len = 1024

-- `dst[cont] = src[cont]` over words, from `cont` on.
pub copy_words : ℕ → ℕ → ℕ → ℕ → Words → Words
copy_words zero cont src dst w = w
copy_words (suc left) cont src dst w =
    copy_words left (cont + 1) src dst (store w (dst + 4 * cont) (w (src + 4 * cont)))

-- `p_dir[cont + V_USER] = (t->pag_mem[cont] * 4096) + 7`, from `cont` on.
pub map_pages : ℕ → ℕ → (ℕ → ℕ) → ℕ → Words → Words
map_pages zero cont pag_mem table w = w
map_pages (suc left) cont pag_mem table w =
    map_pages left (cont + 1) pag_mem table
      (store w (table + 4 * (cont + v_user)) (u32 (pag_mem cont * 4096) + 7))

-- The part of `exec` that writes the table and the directory of the task, which lie in the pages
-- `tab` and `dir`; `stack` is the page of its stack.
pub build_space : (pag : ℕ) → (ℕ → ℕ) → (dir tab stack : ℕ) → Tables → Words → Words
build_space pag pag_mem dir tab stack kernel w =
    let table = u32 (4096 * tab) in
    let w1 = copy_words tab_pag_len 0 kernel.g_tab table w in
    let w2 = map_pages pag 0 pag_mem table w1 in
    let w3 = store w2 (table + 4 * v_stack) (u32 (stack * 4096) + 7) in
    let p_dir = u32 (4096 * dir) in
    let w4 = copy_words dir_pag_len 0 kernel.g_dir p_dir w3 in store w4 p_dir (u32 (tab * 4096) + 7)

-- `check_addr` on the directory of a task: the physical address, or 0.
unfoldable pub check_word : Words → ℕ → ℕ → ℕ
check_word w cr3 addr =
    let acceso = walk w cr3 addr in
    if bit_and acceso 7 == 7 then u32 (bit_and acceso 0xffff_f000 + bit_and addr 0xfff) else 0

-- `none` is a task with no `tss`.
unfoldable pub check_addr : (ℕ → Tss) → Words → ℕ → Run → Option ℕ
check_addr tss_p w addr run_t = do t ← run_t.task_tss; some (check_word w (tss_p t).cr3 addr)
