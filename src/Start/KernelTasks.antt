-- ===== src/Start/KernelTasks.antt =====
-- The three tasks of the kernel that `_main` of main/main.c starts, and what leads to them.
use silicio.Task.{sleeping}
use silicio.Kernel.{Kernel}
use silicio.Kernel.Exec.{kernel_cs}
use silicio.Kernel.Exec.Enters.{HasTasks, Enters}
use silicio.Kernel.Exec.Returns.{execs_lem}
use silicio.Start.{Image, start_system, task_control_name, sys_call_name, sys_control_name}
use silicio.Base.{ℕ, some, arith, ◌+◌, ◌*◌, ◌<◌, ◌≡◌, ◌∙◌}

-- Entry `j` is a task of the kernel, at `eip`, which sleeps.
pub record IsSystem (k : Kernel) (j eip : ℕ) : Type 0 where
  pub status : (k.r_tareas j).status ≡ sleeping
  pub task : (k.r_tareas j).task ≡ 8 * (2 * j + 5)
  pub gate : (k.gdt (2 * j + 5)).base_l ≡ 8 * (2 * j + 4)
  pub eip_at : (k.tss_p j).eip ≡ eip
  pub code : (k.tss_p j).cs ≡ kernel_cs

-- The tables as the three calls leave them.
pub record HasSystem (image : Image) (k : Kernel) : Type 0 where
  pub tasks : HasTasks k 3
  pub control : IsSystem k 0 image.task_control
  pub calls : IsSystem k 1 image.sys_call
  pub errors : IsSystem k 2 image.sys_control

-- A later task leaves a task of the kernel alone.
IsSystem-later :
    {k k' : Kernel} {j eip n code start status : ℕ} {name : ℕ → ℕ}
    → IsSystem k j eip
    → Enters k k' n code start status name
    → j < n
    → IsSystem k' j eip
IsSystem-later {k} {k'} {j} {eip} {n} s e lt =
    let same : k'.r_tareas j ≡ k.r_tareas j = e.others j (λ z. omega arith) in
    let same_tss : k'.tss_p j ≡ k.tss_p j = e.other_tss j (λ z. omega arith) in
    let same_gdt : k'.gdt (2 * j + 5) ≡ k.gdt (2 * j + 5) = e.other_gdt (2 * j + 5) (omega arith) in
    record {
      status = rw same s.status;
      task = rw same s.task;
      gate = rw same_gdt s.gate;
      eip_at = rw same_tss s.eip_at;
      code = rw same_tss s.code;
    }

Enters-IsSystem :
    {k k' : Kernel} {n start : ℕ} {name : ℕ → ℕ}
    → Enters k k' n kernel_cs start sleeping name
    → IsSystem k' n start
Enters-IsSystem e = record {
  status = e.status_at;
  task = e.task;
  gate = e.gate;
  eip_at = e.eip_at;
  code = e.cs_at;
}

-- The three calls return, with the selectors 40, 56 and 72.
pub start_system_lem :
    (image : Image) (k : Kernel)
    → HasTasks k 0
    → (k' : Kernel) × (start_system image k ≡ some (40, 56, 72, k'))
      × HasSystem image k'
      × (k'.bytes ≡ k.bytes)
      × (k'.mm ≡ k.mm)
      × (k'.words ≡ k.words)
unfolding start_system
start_system_lem image k h =
    let (k1, e1, n1, h1, s1, w1) =
      execs_lem image.layout k 0 h (omega arith) image.task_control 0 task_control_name in
    let (k2, e2, n2, h2, s2, w2) =
      execs_lem image.layout k1 1 h1 (omega arith) image.sys_call (image.stack_call + 199)
        sys_call_name in
    let (k3, e3, n3, h3, s3, w3) =
      execs_lem image.layout k2 2 h2 (omega arith) image.sys_control (image.stack_control + 199)
        sys_control_name in
    (
      k3,
      rw (e1, e2, e3),
      record {
        tasks = h3;
        control =
            IsSystem-later (IsSystem-later (Enters-IsSystem n1) n2 (omega arith)) n3 (omega arith);
        calls = IsSystem-later (Enters-IsSystem n2) n3 (omega arith);
        errors = Enters-IsSystem n3;
      },
      n3.bytes_same ∙ n2.bytes_same ∙ n1.bytes_same,
      s3 ∙ s2 ∙ s1,
      w3 ∙ w2 ∙ w1,
    )
