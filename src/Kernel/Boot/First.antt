-- ===== src/Kernel/Boot/First.antt =====
-- After `ini_tss` of exec/exec.c there is no task.
use silicio.Mm.Search.{IsReady}
use silicio.Task.{Tss, Run, max_task}
use silicio.Task.Gdt.{IsPrefix}
use silicio.Task.TssTable.{clear_tss}
use silicio.Kernel.{Kernel}
use silicio.Kernel.Exec.Enters.{HasTasks}
use silicio.Kernel.Boot.{ini_tss}
use silicio.Base.{refl, arith, each-at, ◌≡◌}

-- `ini_tss` writes the tables of exec.c only.
pub ini_tss-same :
    (k : Kernel)
    → ((ini_tss k).gdt ≡ k.gdt)
      × ((ini_tss k).mm ≡ k.mm)
      × ((ini_tss k).words ≡ k.words)
      × ((ini_tss k).bytes ≡ k.bytes)
unfolding ini_tss
ini_tss-same k = (refl, refl, refl, refl)

pub ini_tss-HasTasks :
    (k k' : Kernel)
    → k'.r_tareas ≡ (ini_tss k).r_tareas
    → k'.tss_p ≡ (ini_tss k).tss_p
    → IsPrefix k'.gdt 4
    → IsReady k'.mm
    → HasTasks k' 0
unfolding ini_tss clear_tss
ini_tss-HasTasks k k' tasks tss gdt ready = record {
  taken = λ j l. absurd (omega arith);
  free = λ j lo hi.
      let e = each-at max_task 0 (λ i (r : Run). record r { task = 0 }) k.r_tareas j in
      rw tasks (ground arith);
  tss_taken = λ j l. absurd (omega arith);
  tss_free = λ j lo hi.
      let e = each-at max_task 0 (λ i (t : Tss). clear_tss t) k.tss_p j in rw tss (ground arith);
  gdt = gdt;
  ready = ready;
}
