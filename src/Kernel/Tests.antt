-- ===== src/Kernel/Tests.antt =====
-- A kernel for the runs of exec/exec.c.
use silicio.Mm.{Mm}
use silicio.Mm.Paging.Identity.{tables_at}
use silicio.Mm.Tests.{empty, direct}
use silicio.Task.Tests.{blank_tss, new_gdt}
use silicio.Kernel.{Kernel, Layout}
use silicio.Base.{none, ltb, ◌==◌, if◌then◌else◌}

-- 16 MB, with the kernel's tables at page 1008 and the search behind them.
abbrev pub memory : Mm
memory = record empty { mem_off = 2058 }

abbrev pub layout : Layout
layout = record { tss_base = 0x11_0000; int_pila = 0x12_0000 }

-- Only the kernel itself has an entry.
abbrev pub booted : Kernel
booted = record {
  r_tareas = λ j. record {
    name = λ i. 0;
    task = if j == 0 then 0x20 else 0;
    task_tss = none;
    type = 0;
    status = 0;
  };
  r_drv = λ j. record {
    arch = λ i. 0;
    id_drv = 0;
    buf = 0;
    buf_ret = 0;
    size = 0;
    id_ret = 0;
    call = 0;
    sys = 0;
  };
  tss_p = λ j. blank_tss;
  r_int = λ j. record { tarea = 0; func = 0; cr3 = 0 };
  r_port = λ j. 0;
  r_pipe = λ j. 0;
  t_indice = 0;
  gdt = new_gdt;
  mm = memory;
  words = direct;
  tables = tables_at 1008;
  bytes = λ a. 0;
  own = λ a. ltb a 0x4000;
  params = λ a. record {
    arch = 0;
    call = 0;
    size = 0;
    count = 0;
    ret = 0;
    id_drv = 0;
    id_ret = 0;
    buf = 0;
  };
}
