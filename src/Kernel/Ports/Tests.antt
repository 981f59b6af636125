-- ===== src/Kernel/Ports/Tests.antt =====
-- Runs of `set_port` and `unset_port` of exec/exec.c.
use silicio.Kernel.{Kernel}
use silicio.Kernel.Tests.{booted}
use silicio.Kernel.Ports.{set_port, unset_port}
use silicio.Kernel.Ports.Grant.{Changes, port_cases}
use silicio.Base.{refl, true, false, some, arith, neg, ◌≡◌, ◌≢◌, ◌⊎◌}

-- Task 1 asks; no port is given yet.
abbrev asking : Kernel
asking = record booted {
  t_indice = 1;
  r_port = λ i. 0xff;
  r_tareas = λ j. record (booted.r_tareas j) { task_tss = some j };
  tss_p = λ j. record (booted.tss_p j) { iobp = λ i. 0xff };
}

port_cases_example :
    (((asking.r_port 12 ≡ 0) × (set_port 0x60 asking ≡ some (neg 1, asking)))
      ⊎ ((asking.r_port 12 ≢ 0)
          × (k1 : Kernel) × (set_port 0x60 asking ≡ some (0, k1))
          × Changes 0x60 1 false asking k1))
    × (k2 : Kernel) × (unset_port 0x60 asking ≡ some (0, k2))
    × Changes 0x60 1 true asking k2
port_cases_example =
    port_cases 0x60 1 asking (omega arith) refl (λ i. omega arith) (λ i. omega arith)
