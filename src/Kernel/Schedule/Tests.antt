-- ===== src/Kernel/Schedule/Tests.antt =====
-- Runs of the selection in `task_control` of exec/exec.c.
use silicio.Task.{running, waiting}
use silicio.Kernel.{Kernel}
use silicio.Kernel.Tests.{booted}
use silicio.Kernel.Schedule.{can_run, select_task}
use silicio.Kernel.Schedule.Turn.{IsTable, IsNext, select_task_lem}
use silicio.Base.{ℕ, refl, true, some, arith, ltb, ◌+◌, ◌*◌, ◌≡◌, ◌==◌, if◌then◌else◌}

-- Tasks 1 to 4, of which task 2 runs; task 3 had the last turn.
abbrev four : Kernel
four = record booted {
  t_indice = 3;
  r_tareas = λ j. record (booted.r_tareas j) {
    task = if ltb j 5 then 40 + 16 * j else 0;
    status = if j == 2 then running else waiting;
  };
}

four-IsTable : IsTable four.r_tareas 5
four-IsTable = record {
  some_task = omega arith;
  fits = omega arith;
  taken = λ j a b e. ground arith;
  ends = λ a. refl;
}

two_runs : can_run four.r_tareas 2 ≡ true
unfolding can_run
two_runs = refl

select_task_example :
    (i : ℕ) × (select_task four ≡ some ((four.r_tareas i).task, record four { t_indice = i }))
    × IsNext four.r_tareas 5 3 i
select_task_example =
    select_task_lem four 5 2 four-IsTable (omega arith) (omega arith) (omega arith) two_runs
