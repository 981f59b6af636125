-- ===== src/Kernel/Calls/Dispatch/Tests.antt =====
-- A run of `sys_call` of exec/exec.c.
use silicio.Kernel.{Kernel}
use silicio.Kernel.Tests.{booted}
use silicio.Kernel.Calls.{sys_wait}
use silicio.Kernel.Calls.Keeps.{Keeps}
use silicio.Kernel.Calls.Dispatch.{dispatch, sys_call}
use silicio.Kernel.Calls.Dispatch.Round.{sys_call-Keeps}
use silicio.Base.{refl, some, arith, ◌≡◌}

-- Task 5 asks to wait.
abbrev asking : Kernel
asking = record booted {
  t_indice = 5;
  r_tareas = λ j. record (booted.r_tareas j) { task_tss = some j };
  tss_p = λ j. record (booted.tss_p j) { eax = 7 };
}

waits : sys_call (λ i. 0) asking ≡ some (sys_wait asking)
unfolding sys_call dispatch
waits = refl

sys_call-Keeps_example : Keeps asking (sys_wait asking)
sys_call-Keeps_example = sys_call-Keeps (λ i. 0) asking (sys_wait asking) (λ i. omega arith) waits
