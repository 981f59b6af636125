-- ===== src/Kernel/Exec/Tests.antt =====
-- A run of `exec` of exec/exec.c.
use silicio.Mm.{Mm}
use silicio.Mm.Boot.{Fills}
use silicio.Mm.Paging.Run.{FreeRun}
use silicio.Mm.Tests.{empty-free, direct-IsIdentity}
use silicio.Task.Tests.{new_gdt-IsPrefix}
use silicio.Kernel.{Kernel, tarea_libre, free_task}
use silicio.Kernel.Tests.{memory, layout, booted}
use silicio.Kernel.Exec.{exec, page_count}
use silicio.Kernel.Exec.Started.{HasRoom, IsStarted}
use silicio.Kernel.Exec.Start.{exec_lem}
use silicio.Base.{refl, inr, true, some, arith, ◌*◌, ◌≡◌, ◌∙◌}

first_task : tarea_libre booted.r_tareas ≡ 1
unfolding tarea_libre free_task
first_task = refl

booted-HasRoom : HasRoom booted 0 4 1008
booted-HasRoom = record {
  slot = λ e. absurd (omega (arith, first_task, e));
  tss_free = record { free = refl; before = λ j h. absurd (omega arith) };
  tss_in = omega arith;
  gdt_free = new_gdt-IsPrefix;
  gdt_in = omega arith;
  map = λ i. omega arith;
  identity = direct-IsIdentity;
  at = refl;
  fits = omega arith;
}

program-FreeRun : (m : Mm) → Fills memory 300 302 true m → FreeRun m 2048 3
program-FreeRun m f = record {
  ready = record {
    is_map = f.is_map;
    off_lo = omega (arith, f.off_same);
    off_hi = omega (arith, f.off_same, f.max_same);
    off_word = omega (arith, f.off_same);
    max_hi = omega (arith, f.max_same);
  };
  from = omega (arith, f.off_same);
  before = λ q a b. absurd (omega (arith, f.off_same));
  free = λ q a b. f.outside q (inr (omega arith)) ∙ empty-free q;
  fits = omega (arith, f.max_same);
}

-- A program of two pages at page 300.
two_pages : page_count (300 * 4096) (302 * 4096) ≡ 2
unfolding page_count
two_pages = refl

exec_example :
    (k' : Kernel) × (exec layout (300 * 4096) (302 * 4096) (λ i. 0) booted
      ≡ some (tarea_libre booted.r_tareas, k'))
    × IsStarted booted k' 0 4 300 (page_count (300 * 4096) (302 * 4096)) 2048
exec_example =
    exec_lem layout booted (300 * 4096) (302 * 4096) 0 4 1008 2048 (λ i. 0) booted-HasRoom
      (omega (arith, two_pages)) (omega (arith, two_pages)) (rw two_pages program-FreeRun)
      (inr (omega arith))
