-- ===== src/Kernel/Boot.antt =====
-- `ini_tss` of exec/exec.c: the tables before the first task.
pub mod Empty
pub mod First
mod Tests
use silicio.Task.{Tss, Run, max_task, tss_port}
use silicio.Task.TssTable.{clear_tss}
use silicio.Kernel.{Kernel, Drv, IntEntry, max_drivers}
use silicio.Base.{update, each}

-- The loops of `ini_tss`, in their order. The interrupts below 16 are the processor's and the
-- kernel has the clock, 16.
pub ini_tss : Kernel → Kernel
ini_tss k =
    let low = each 16 0 (λ i e. record e { tarea = 1 }) k.r_int in
    let ints = each 240 16 (λ i e. record e { tarea = 0 }) low in
    let clock = ints 16 in
    record k {
      tss_p = each max_task 0 (λ i t. clear_tss t) k.tss_p;
      r_tareas = each max_task 0 (λ i r. record r { task = 0 }) k.r_tareas;
      r_drv = each max_drivers 0 (λ i d. record d { id_drv = 0 }) k.r_drv;
      r_int = update ints 16 (record clock { tarea = 1 });
      r_port = each tss_port 0 (λ i p. 0xFF) k.r_port;
    }
