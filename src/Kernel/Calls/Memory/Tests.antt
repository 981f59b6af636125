-- ===== src/Kernel/Calls/Memory/Tests.antt =====
-- A run of `sys_mem` of exec/exec.c.
use silicio.Mm.Bitmap.{Marks}
use silicio.Mm.Paging.{Words}
use silicio.Mm.Tests.{empty-free, direct}
use silicio.Task.Space.{check_word}
use silicio.Kernel.{Kernel}
use silicio.Kernel.Tests.{booted}
use silicio.Kernel.Calls.Memory.{sys_mem}
use silicio.Kernel.Calls.Memory.Shared.{IsShared, sys_mem_lem}
use silicio.Base.{refl, inr, true, some, arith, ltb, ◌+◌, ◌-◌, ◌*◌, ◌/◌, ◌≡◌, if◌then◌else◌}

-- Two directories, at pages 3000 and 3003, over the kernel's tables.
abbrev both : Words
both a =
    if ltb a (3000 * 4096)
    then direct a
    else if ltb a (3001 * 4096)
    then (1009 + (a - 3000 * 4096) / 4) * 4096 + 1
    else (1009 + (a - 3003 * 4096) / 4) * 4096 + 1

abbrev asking : Kernel
asking = record booted {
  words = both;
  t_indice = 1;
  r_tareas = λ j. record (booted.r_tareas j) { task_tss = some j };
  tss_p = λ j. record (booted.tss_p j) { cr3 = 3000 * 4096 };
}

first-IsShared : IsShared 3000 1008 both
first-IsShared = record {
  outside = inr (omega arith);
  dir_in = omega arith;
  kernel_in = omega arith;
  entry = λ k a b. ground arith;
  table = λ k a. ground arith;
}

second-IsShared : IsShared 3003 1008 both
second-IsShared = record {
  outside = inr (omega arith);
  dir_in = omega arith;
  kernel_in = omega arith;
  entry = λ k a b. ground arith;
  table = λ k a. ground arith;
}

sys_mem_example :
    (k' : Kernel) × (sys_mem 2050 asking ≡ some (2050, k'))
    × Marks asking.mm 2050 true k'.mm
    × (check_word k'.words (3000 * 4096) (2050 * 4096 + 5) ≡ 2050 * 4096 + 5)
    × (check_word k'.words (3003 * 4096) (2050 * 4096 + 5) ≡ 2050 * 4096 + 5)
sys_mem_example =
    sys_mem_lem asking 2050 1 3000 3003 1008 (2050 * 4096 + 5) (λ i. omega arith) (empty-free 2050)
      (omega arith) (omega arith) refl refl first-IsShared second-IsShared (omega arith)
