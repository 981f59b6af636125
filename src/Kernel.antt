-- ===== src/Kernel.antt =====
-- The state of the kernel that exec/exec.c works on: its own tables, the allocator and the page
-- tables of mm/mm.c, and the memory that the tasks share with it.
pub mod Exec
pub mod Calls
pub mod Schedule
pub mod Ports
pub mod Boot
pub mod Soft
pub mod Tests
use silicio.Strings.{Chars}
use silicio.Mm.{Mm}
use silicio.Mm.Paging.{Words, Tables}
use silicio.Task.{Tss, Run, max_task}
use silicio.Task.Gdt.{Gdt}
use silicio.Base.{ℕ, zero, suc, Bool, true, false, ◌+◌, ◌-◌, ◌==◌}

-- `sys_param` of include/syscall.h, the record that a task passes to a system call. Pointers are
-- addresses.
pub record SysParam : Type 0 where
  pub arch : ℕ
  pub call : ℕ
  pub size : ℕ
  pub count : ℕ
  pub ret : ℕ
  pub id_drv : ℕ
  pub id_ret : ℕ
  pub buf : ℕ

-- `drv`: a registered driver. `buf`, `buf_ret` and `sys` are physical addresses.
pub record Drv : Type 0 where
  pub arch : Chars
  pub id_drv : ℕ
  pub buf : ℕ
  pub buf_ret : ℕ
  pub size : ℕ
  pub id_ret : ℕ
  pub call : ℕ
  pub sys : ℕ

abbrev pub max_drivers : ℕ
max_drivers = 10

-- The unnamed `struct` of `r_int`.
pub record IntEntry : Type 0 where
  pub tarea : ℕ
  pub func : ℕ
  pub cr3 : ℕ

-- The globals of exec.c, those of mm.c, the GDT, and physical memory in three views: the words of
-- page tables, the bytes of buffers and the `sys_param` records, each by physical address. `own` says
-- which bytes are the kernel's: its code, the tables of this record, `mem_map` and the page tables.
pub record Kernel : Type 0 where
  pub r_tareas : ℕ → Run
  pub r_drv : ℕ → Drv
  pub tss_p : ℕ → Tss
  pub r_int : ℕ → IntEntry
  pub r_port : ℕ → ℕ
  pub r_pipe : ℕ → ℕ
  pub t_indice : ℕ
  pub gdt : Gdt
  pub mm : Mm
  pub words : Words
  pub tables : Tables
  pub bytes : ℕ → ℕ
  pub params : ℕ → SysParam
  pub own : ℕ → Bool

-- The addresses that the linker gives to `tss_p` and `int_pila`.
pub record Layout : Type 0 where
  pub tss_base : ℕ
  pub int_pila : ℕ

-- `tarea_libre` scans from entry 0, `driver_libre` from entry 1; both return 0 if they find none.
pub free_task : ℕ → ℕ → (ℕ → Run) → ℕ
free_task zero cont r_tareas = 0
free_task (suc left) cont r_tareas = elim ((r_tareas cont).task == 0) [
  | true ↦ cont
  | false ↦ free_task left (cont + 1) r_tareas
]

pub tarea_libre : (ℕ → Run) → ℕ
tarea_libre r_tareas = free_task max_task 0 r_tareas

pub driver_libre : (ℕ → Run) → ℕ
driver_libre r_tareas = free_task (max_task - 1) 1 r_tareas
