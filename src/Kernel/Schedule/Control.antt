-- ===== src/Kernel/Schedule/Control.antt =====
-- `task_control` of exec/exec.c before its loop and at its jump.
use silicio.Mm.Bitmap.{unset_mem_lem}
use silicio.Mm.Search.{IsReady, Marks-IsReady}
use silicio.Kernel.{Kernel}
use silicio.Task.{Run, running, sleeping}
use silicio.Interrupts.{Pic, outb}
use silicio.Kernel.Schedule.{start_control, can_run, control_rounds, task_control}
use silicio.Base.{ℕ, refl, true, false, some, arith, ◌≡◌}

-- `task_control` up to its loop.
pub start_control-returns :
    (k : Kernel)
    → IsReady k.mm
    → (k' : Kernel) × (start_control k ≡ some k')
      × (k'.r_tareas ≡ k.r_tareas)
      × (k'.tss_p ≡ k.tss_p)
      × (k'.gdt ≡ k.gdt)
      × (k'.bytes ≡ k.bytes)
      × (k'.t_indice ≡ 0)
      × IsReady k'.mm
unfolding start_control
start_control-returns k h =
    let (m1, e1, marks1) = unset_mem_lem 0xb8 k.mm h.is_map (omega arith) in
    let r1 = Marks-IsReady marks1 h in
    let (m2, e2, marks2) = unset_mem_lem 0xb9 m1 r1.is_map (omega arith) in
    (
      record k { mm = m2; t_indice = 0 },
      rw (e1, e2),
      refl,
      refl,
      refl,
      refl,
      refl,
      Marks-IsReady marks2 r1,
    )

-- `task_control` before its first round.
pub task_control-returns :
    (jump : ℕ → Kernel × Pic → Kernel × Pic) (k : Kernel) (pic : Pic)
    → IsReady k.mm
    → (k' : Kernel) × (task_control 0 jump (k, pic) ≡ some (k', outb 0x21 0xdc pic))
      × (k'.r_tareas ≡ k.r_tareas)
      × (k'.tss_p ≡ k.tss_p)
      × (k'.gdt ≡ k.gdt)
      × (k'.bytes ≡ k.bytes)
      × (k'.t_indice ≡ 0)
      × IsReady k'.mm
unfolding task_control control_rounds
task_control-returns jump k pic h =
    let (k', e, tasks, tss, gdt, bytes, at_0, ready) = start_control-returns k h in
    (k', rw e, tasks, tss, gdt, bytes, at_0, ready)

pub can_run-running :
    (r_tareas : ℕ → Run) (i : ℕ) → (r_tareas i).status ≡ running → can_run r_tareas i ≡ true
unfolding can_run
can_run-running r_tareas i e = rw e

pub can_run-sleeping :
    (r_tareas : ℕ → Run) (i : ℕ) → (r_tareas i).status ≡ sleeping → can_run r_tareas i ≡ false
unfolding can_run
can_run-sleeping r_tareas i e = rw e
