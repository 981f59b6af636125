-- ===== src/Kernel/Schedule.antt =====
-- `task_control` of exec/exec.c: the selection of the next task, and the jump to it.
pub mod Turn
pub mod Control
pub mod Fair
pub mod Jump
mod Tests
use silicio.Interrupts.{Pic, outb}
use silicio.Task.{Run, running, starting, max_task}
use silicio.Mm.{unset_mem}
use silicio.Kernel.{Kernel}
use silicio.Base.{ℕ, zero, suc, Bool, true, false, Option, none, some, update, ◌+◌, ◌/◌, ◌>>=◌}
use silicio.Base.{◌||◌, ◌==◌, if◌then◌else◌, ◌>>=◌, ◌>>◌}

-- The rounds of the `do` loop: one pass to the end of the table and one from its start.
abbrev pub select_fuel : ℕ
select_fuel = 200

-- One advance of `t_indice`: past the last task it is 1 again.
pub advance : ℕ → (ℕ → Run) → ℕ
advance t r_tareas =
    if t + 1 == max_task then 1 else if (r_tareas (t + 1)).task == 0 then 1 else t + 1

-- `seguir`
pub can_run : (ℕ → Run) → ℕ → Bool
can_run r_tareas i = (r_tareas i).status == running || (r_tareas i).status == starting

-- The `do` loop: `none` is out of rounds.
pub choose : ℕ → ℕ → (ℕ → Run) → Option ℕ
choose zero t r_tareas = none
choose (suc left) t r_tareas = elim (can_run r_tareas (advance t r_tareas)) [
  | true ↦ some (advance t r_tareas)
  | false ↦ choose left (advance t r_tareas) r_tareas
]

-- What `task_control` does before its loop, but for the interrupt mask.
pub start_control : Kernel → Option Kernel
start_control k = do
  (_, m1) ← unset_mem 0xb8 k.mm
  (_, m2) ← unset_mem 0xb9 m1
  some (record k { mm = m2; t_indice = 0 })

-- One round up to the jump: the selector `des` of the task, and the state with its index.
pub select_task : Kernel → Option (ℕ × Kernel)
select_task k = do
  i ← choose select_fuel k.t_indice k.r_tareas
  some ((k.r_tareas i).task, record k { t_indice = i })

-- `reset_8259` of include/io.h.
pub reset_8259 : Pic → Pic
reset_8259 pic = outb 0x20 0x20 pic

-- A round of `while (1)`. What runs from the jump until a task jumps back is a parameter. The
-- processor changes the access byte of the descriptor of a task that it runs; the byte is put back.
pub control_turn : (jump : ℕ → Kernel × Pic → Kernel × Pic) → Kernel × Pic → Option (Kernel × Pic)
control_turn jump (k, pic) = do
  (des, k1) ← select_task k
  let tr = (k1.gdt (des / 8)).base_l
  let acceso = (k1.gdt (tr / 8)).acceso
  let (k2, pic2) = jump des (k1, reset_8259 pic)
  some (
    record k2 { gdt = update k2.gdt (tr / 8) (record (k2.gdt (tr / 8)) { acceso = acceso }) },
    pic2,
  )

-- The first `left` rounds of `task_control`, which does not end.
pub control_rounds :
    (left : ℕ) → (ℕ → Kernel × Pic → Kernel × Pic) → Kernel × Pic → Option (Kernel × Pic)
control_rounds zero jump s = some s
control_rounds (suc left) jump s = control_turn jump s >>= control_rounds left jump

pub task_control :
    (left : ℕ) → (ℕ → Kernel × Pic → Kernel × Pic) → Kernel × Pic → Option (Kernel × Pic)
task_control left jump (k, pic) = do
  k' ← start_control k
  control_rounds left jump (k', outb 0x21 0xdc pic)
