-- ===== src/Kernel/Exec.antt =====
-- `exec`, `execd` and `execs` of exec/exec.c: how a task is started.
pub mod Started
pub mod Steps
pub mod Start
pub mod Enters
pub mod Returns
mod Tests
use silicio.Strings.{Chars, strcpy}
use silicio.Mm.{Mm, pag_len, set_mem}
use silicio.Mm.Paging.{request}
use silicio.Task.{Run, running, sleeping, max_pag_driver, tss_size}
use silicio.Task.Gdt.{set_desc_tss}
use silicio.Task.TssTable.{set_tss}
use silicio.Task.Space.{v_user, v_stack, build_space}
use silicio.Kernel.{Kernel, Layout, tarea_libre}
use silicio.Base.{ℕ, zero, suc, not, Option, some, leb, update, u16, u32, sub32, ◌+◌, ◌*◌, ◌/◌}
use silicio.Base.{◌%◌, ◌&&◌, ◌==◌, if◌then◌else◌, ◌>>=◌, ◌>>◌}

abbrev pub kernel_ds : ℕ
kernel_ds = 0x10

abbrev pub kernel_cs : ℕ
kernel_cs = 0x08

abbrev pub user_cs : ℕ
user_cs = 0x17

abbrev pub user_ds : ℕ
user_ds = 0x1f

-- `&tss_p[k]`
abbrev pub tss_addr : Layout → ℕ → ℕ
tss_addr l k = u32 (l.tss_base + tss_size * k)

-- The pages of `end - start` bytes.
unfoldable pub page_count : (start end : ℕ) → ℕ
page_count start end =
    let size = sub32 end start in if size % pag_len == 0 then size / pag_len else size / pag_len + 1

-- The loop that marks the pages of the program and notes them in the `tss`.
pub load_pages : ℕ → ℕ → ℕ → Mm → (ℕ → ℕ) → Option (Mm × (ℕ → ℕ))
load_pages zero cont first m pag_mem = some (m, pag_mem)
load_pages (suc left) cont first m pag_mem = do
  (_, m') ← set_mem (first + cont) m
  load_pages left (cont + 1) first m' (update pag_mem cont (first + cont))

-- The entry of `r_tareas`.
pub enter_task : (gate k status : ℕ) → Chars → Run → Run
enter_task gate k status name r = record r {
  task = u16 (8 * gate);
  task_tss = some k;
  name = (strcpy name r.name).1;
  status = status;
}

-- The guarded body that `exec` and `execd` share, but for their segments. `none` is a use of the
-- null pointer that `set_tss` returned, or of a page outside the map.
pub load_task : (code seg : ℕ) → Layout → (start pag id : ℕ) → Chars → Kernel → Option (ℕ × Kernel)
load_task code seg l start pag id name k = do
  let (entry, tss1) =
      set_tss (v_user * 4096) code seg (v_stack * 4096 + 0xfff) 0x200
        (u32 (l.int_pila + 200 * id + 199)) kernel_ds k.tss_p
  t ← entry
  (m1, pag_mem) ← load_pages pag 0 (start / pag_len) k.mm (tss1 t).pag_mem
  (dir, m2) ← request m1
  (tab, m3) ← request m2
  (stack, m4) ← request m3
  let (gate, gdt) = set_desc_tss (tss_addr l t) k.gdt
  some (
    id,
    record k {
      r_tareas = update k.r_tareas id (enter_task gate t running name (k.r_tareas id));
      gdt = gdt;
      mm = m4;
      words = build_space pag pag_mem dir tab stack k.tables k.words;
      tss_p = update tss1 t (record (tss1 t) {
        pag_mem = pag_mem;
        pag_virtual = update (update (tss1 t).pag_virtual 0 dir) 1 tab;
        pag_stack = stack;
        cr3 = u32 (4096 * dir);
      });
    },
  )

pub start_task : (code seg : ℕ) → Layout → (start end : ℕ) → Chars → Kernel → Option (ℕ × Kernel)
start_task code seg l start end name k =
    let id = tarea_libre k.r_tareas in
    let pag = page_count start end in
    if not (id == 0) && leb pag max_pag_driver
    then load_task code seg l start pag id name k
    else some (id, k)

pub exec : Layout → (start end : ℕ) → Chars → Kernel → Option (ℕ × Kernel)
exec = start_task user_cs user_ds

pub execd : Layout → (start end : ℕ) → Chars → Kernel → Option (ℕ × Kernel)
execd = start_task kernel_cs kernel_ds

-- A task of the kernel itself: its tables are the kernel's, and it does not run yet.
pub execs : Layout → (start pila : ℕ) → Chars → Kernel → Option (ℕ × Kernel)
execs l start pila name k = do
  let (entry, tss1) = set_tss start kernel_cs kernel_ds pila 0 pila kernel_ds k.tss_p
  t ← entry
  let (gate, gdt) = set_desc_tss (tss_addr l t) k.gdt
  let id = tarea_libre k.r_tareas
  let r = enter_task gate t sleeping name (k.r_tareas id)
  some (
    r.task,
    record k {
      r_tareas = update k.r_tareas id r;
      gdt = gdt;
      tss_p = update tss1 t (record (tss1 t) { cr3 = k.tables.g_dir });
    },
  )
