-- ===== src/Kernel/Schedule/Jump.antt =====
-- The jump of `task_control` of exec/exec.c to a task and back.
use silicio.Interrupts.{Pic, outb}
use silicio.Kernel.{Kernel}
use silicio.Kernel.Schedule.{can_run, select_task, reset_8259, control_turn}
use silicio.Kernel.Schedule.Turn.{IsTable, IsNext, select_task_lem}
use silicio.Base.{ℕ, true, some, arith, update, ◌+◌, ◌*◌, ◌/◌, ◌≤◌, ◌<◌, ◌≡◌}

-- The selector of each task below `n` is that of a gate which leads to the entry in front of it.
pub record IsLinked (k : Kernel) (n : ℕ) : Type 0 where
  pub table : IsTable k.r_tareas n
  pub task : (i : ℕ) → 1 ≤ i → i < n → (k.r_tareas i).task ≡ 8 * (2 * i + 5)
  pub gate : (i : ℕ) → 1 ≤ i → i < n → (k.gdt (2 * i + 5)).base_l ≡ 8 * (2 * i + 4)

-- The state in which task `i` is jumped to.
abbrev pub left_for : ℕ → Kernel × Pic → Kernel × Pic
left_for i s = (record s.0 { t_indice = i }, outb 0x20 0x20 s.1)

-- The state after the jump back from task `i`: what the tasks have left, with the access byte of the
-- descriptor of the task as it was before the jump.
abbrev pub after_turn : (ℕ → Kernel × Pic → Kernel × Pic) → ℕ → Kernel × Pic → Kernel × Pic
after_turn jump i s =
    let out = jump (8 * (2 * i + 5)) (left_for i s) in
    let entry = out.0.gdt (2 * i + 4) in
    (
      record out.0 {
        gdt = update out.0.gdt (2 * i + 4) (record entry { acceso = (s.0.gdt (2 * i + 4)).acceso });
      },
      out.1,
    )

pub control_turn_lem :
    (jump : ℕ → Kernel × Pic → Kernel × Pic) (n j : ℕ)
    → 1 ≤ j
    → j < n
    → (s : Kernel × Pic) → IsLinked s.0 n
    → s.0.t_indice < n
    → can_run s.0.r_tareas j ≡ true
    → (i : ℕ) × (select_task s.0 ≡ some (8 * (2 * i + 5), record s.0 { t_indice = i }))
      × IsNext s.0.r_tareas n s.0.t_indice i
      × (control_turn jump s ≡ some (after_turn jump i s))
unfolding control_turn reset_8259
control_turn_lem jump n j lo hi (k, pic) h ht on =
    let (i, e, next) = select_task_lem k n j h.table ht lo hi on in
    let des : (k.r_tareas i).task ≡ 8 * (2 * i + 5) = h.task i next.low next.high in
    let at : 8 * (2 * i + 5) / 8 ≡ 2 * i + 5 = omega arith in
    let tr : (k.gdt (2 * i + 5)).base_l ≡ 8 * (2 * i + 4) = h.gate i next.low next.high in
    let back : 8 * (2 * i + 4) / 8 ≡ 2 * i + 4 = omega arith in
    (i, rw des at e, next, rw (e, des, at, tr, back))
