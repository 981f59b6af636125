-- ===== src/Kernel/Soft/Tests.antt =====
-- Runs of `int_soft_speed` of exec/exec.c.
use silicio.Font.Draw.{Vbe}
use silicio.Kernel.Tests.{booted}
use silicio.Kernel.Soft.{Machine, int_soft_speed, sys_rint, sys_pipew, write_pipe}
use silicio.Kernel.Soft.Kept.{Kept}
use silicio.Kernel.Soft.Owner.{int_soft_speed-Kept, rint_lem}
use silicio.Base.{ℕ, refl, not, some, [], arith, update, neg, ◌+◌, ◌<◌, ◌≡◌, ◌&&◌, ◌==◌}
use silicio.Base.Bytes.{bit_at}

abbrev text_mode : Vbe
text_mode = record { x = 80; y = 25; xy = 2000; color = 0; addr = 0xb8000 }

-- Task 5 runs.
abbrev five : Machine
five = record {
  kernel = record booted {
    t_indice = 5;
    r_tareas = λ j. record (booted.r_tareas j) { task_tss = some j };
    tss_p = λ j. record (booted.tss_p j) { cr3 = 0x40_0000 };
  };
  pic = record { t_int = 0xff; out = [] };
}

rint_example :
    (m' : Machine) × (int_soft_speed 77 text_mode sys_rint 17 0x800_0000 five ≡ some (0, m'))
    × ((m'.kernel.r_int 17).tarea ≡ 5)
    × ((m'.kernel.r_int 17).func ≡ 0x800_0000)
    × ((m'.kernel.r_int 17).cr3 ≡ 0x40_0000)
    × ((j : ℕ) → j < 8 → bit_at m'.pic.t_int j ≡ (not (17 == 16 + j) && bit_at 0xff j))
    × ((junk2 varc2 : ℕ) → int_soft_speed junk2 text_mode sys_rint 17 varc2 m' ≡ some (neg 1, m'))
rint_example =
    rint_lem 77 text_mode 17 0x800_0000 5 five refl refl (λ e. absurd (omega arith)) refl
      (omega arith)

-- A write to pipe 9.
abbrev piped : Machine
piped = record five { kernel = record five.kernel { r_pipe = update five.kernel.r_pipe 9 1 } }

pipe_written : int_soft_speed 77 text_mode sys_pipew 9 1 five ≡ some (77, piped)
unfolding int_soft_speed write_pipe
pipe_written = refl

int_soft_speed-Kept_example : Kept five.kernel piped.kernel
int_soft_speed-Kept_example =
    int_soft_speed-Kept 77 text_mode sys_pipew 9 1 77 five piped pipe_written
