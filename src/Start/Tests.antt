-- ===== src/Start/Tests.antt =====
-- A run of `_main` of main/main.c.
use silicio.Mm.Paging.Identity.{IsIdentity}
use silicio.Start.Modules.{modules_end}
use silicio.Mm.Tests.{empty, eight_mb}
use silicio.Task.Tests.{new_gdt-IsPrefix}
use silicio.Kernel.Tests.{layout, booted}
use silicio.Kernel.Exec.{page_count}
use silicio.Kernel.Schedule.{select_task}
use silicio.Bitmap.Tests.{loader, picture}
use silicio.Start.{Image, Junk, System, no_start, controlling, start_name, start_kernel, main}
use silicio.Start.Order.{is_task, such_that}
use silicio.Start.Ready.{CanStart}
use silicio.Start.First.{CanRun, all_tasks}
use silicio.Start.Main.{IsBooted, shown, shown_bytes, start_program, main_lem}
use silicio.Base.{ℕ, refl, none, some, [], arith, ltb, ◌+◌, ◌-◌, ◌/◌, ◌≡◌, ◌⊎◌, if◌then◌else◌}

abbrev pub image : Image
image = record {
  kernel_fin = 0x12_0000;
  ldt_p = 0x10_8000;
  task_control = 0x10_0000;
  sys_call = 0x10_1000;
  sys_control = 0x10_2000;
  stack_call = 0x9_0000;
  stack_control = 0x9_1000;
  layout = layout;
  handlers = record {
    intnula = 0x10_3000;
    int_cpu = λ n. 0x10_4000;
    int_hard_17 = 0x10_5000;
    int_soft_speed = 0x10_6000;
  };
}

-- The first module is "/boot/start.bin".
abbrev pub entry_state : System
entry_state = record {
  kernel = record booted {
    mm = empty;
    bytes = λ a. if ltb a 0x4000 then 0 else start_name (a - 0x4000);
  };
  screen = record {
    xpos = 0;
    ypos = 0;
    bytes = λ a. 0;
    pixels = λ p. record { red = 0; green = 0; blue = 0 };
  };
  pic = record { t_int = 0; out = [] };
  idt_p = λ i. record { desp_l = 0; selec = 0; cont = 0; acceso = 0; desp_h = 0 };
  font = record { addr = λ i. 0; x = 0; y = 0 };
  vbe_header = record { x = 0; y = 0; xy = 0; color = 0; addr = 0 };
  task_reg = 0;
}

abbrev pub clean : Junk
clean = record { bmp = λ i. 1; start = λ i. 1; background = λ i. 1 }

pub entry-CanStart : CanStart eight_mb image loader entry_state.kernel
entry-CanStart = record {
  some_module = omega arith;
  kernel_lo = omega arith;
  kernel_hi = omega arith;
  word = omega arith;
  modules_lo = omega arith;
  room = omega arith;
  gdt = new_gdt-IsPrefix;
  blank = λ i h. refl;
}

pub modules-CanRun : (bytes : ℕ → ℕ) → CanRun image clean loader bytes
unfolding page_count
modules-CanRun bytes = record { few = omega arith; inside = λ j h. ground arith }

abbrev pub entry_bytes : ℕ → ℕ
entry_bytes = shown_bytes eight_mb image clean loader picture (λ a. 0) entry_state

main_example :
    (s1 : System) × (start_kernel eight_mb image loader
        (λ a. 0)
        (shown eight_mb image clean loader picture (λ a. 0) entry_state)
      ≡ some s1)
    × IsIdentity s1.kernel.words (modules_end loader / 4096 + 1)
    × (((start_program eight_mb image clean loader picture (λ a. 0) entry_state ≡ none)
          × (s2 : System) × (main eight_mb image clean loader picture
                (λ a. 0)
                0
                (λ des s. s)
                entry_state
              ≡ some (no_start, s2))
          × IsBooted image loader entry_bytes s1.kernel s2
              (such_that 2 0 (is_task image clean loader entry_bytes)))
        ⊎ ((i : ℕ) × (start_program eight_mb image clean loader picture (λ a. 0) entry_state
              ≡ some i)
            × (s2 : System) × (main eight_mb image clean loader picture
                  (λ a. 0)
                  0
                  (λ des s. s)
                  entry_state
                ≡ some (controlling, s2))
            × IsBooted image loader entry_bytes s1.kernel s2
                (all_tasks image clean loader entry_bytes i)
            × ((all_tasks image clean loader entry_bytes i ≡ [])
                ⊎ (select_task s2.kernel ≡ some (88, record s2.kernel { t_indice = 3 })))))
main_example =
    main_lem eight_mb image clean loader picture (λ a. 0) entry_state (λ des s. s) entry-CanStart
      (modules-CanRun entry_bytes)
