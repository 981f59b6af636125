-- ===== src/Kernel/Boot/Tests.antt =====
-- A run of `ini_tss` of exec/exec.c.
use silicio.Task.{max_task, tss_port}
use silicio.Task.TssTable.{IsFirstTss}
use silicio.Kernel.{Kernel, tarea_libre, driver_libre}
use silicio.Kernel.Tests.{booted}
use silicio.Kernel.Calls.{find_drv}
use silicio.Kernel.Boot.{ini_tss}
use silicio.Kernel.Boot.Empty.{ini_tss_lem}
use silicio.Base.{ℕ, leb, ◌<◌, ◌≡◌, if◌then◌else◌}

-- Every entry is in use.
abbrev dirty : Kernel
dirty = record booted {
  r_tareas = λ j. record (booted.r_tareas j) { task = 8 };
  r_drv = λ j. record (booted.r_drv j) { id_drv = 7 };
  tss_p = λ j. record (booted.tss_p j) { cs = 8; iobp = λ i. 0 };
  r_int = λ j. record { tarea = 5; func = 0; cr3 = 0 };
}

ini_tss_example :
    (tarea_libre (ini_tss dirty).r_tareas ≡ 0)
    × (driver_libre (ini_tss dirty).r_tareas ≡ 1)
    × IsFirstTss (ini_tss dirty).tss_p 0
    × (find_drv 7 3 0 (ini_tss dirty).r_drv ≡ 3)
    × ((i : ℕ) → i < 256 → ((ini_tss dirty).r_int i).tarea ≡ (if leb i 16 then 1 else 0))
    × ((i : ℕ) → i < tss_port → (ini_tss dirty).r_port i ≡ 0xFF)
    × ((j i : ℕ) → j < max_task → i < tss_port → ((ini_tss dirty).tss_p j).iobp i ≡ 0xFF)
ini_tss_example = ini_tss_lem dirty
