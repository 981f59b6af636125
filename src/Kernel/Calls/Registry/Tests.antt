-- ===== src/Kernel/Calls/Registry/Tests.antt =====
-- Runs of `sys_reg` and `sys_open` of exec/exec.c.
use silicio.Mm.Paging.{walk}
use silicio.Strings.{from}
use silicio.Task.{running, waiting}
use silicio.Task.Space.{check_addr, check_word}
use silicio.Kernel.{Kernel}
use silicio.Kernel.Tests.{booted}
use silicio.Kernel.Calls.{check}
use silicio.Kernel.Calls.Registry.{dev_prefix, enter_driver, sys_reg, sys_open}
use silicio.Kernel.Calls.Registry.Unique.{IsUnique, sys_reg-IsUnique}
use silicio.Kernel.Calls.Registry.Enter.{
  IsNamed, CanRegister, IsDriver, sys_reg_lem, sys_reg-enter_driver,
}
use silicio.Kernel.Calls.Registry.Find.{OtherLengths, IsArg, registered_opened}
use silicio.Base.{ℕ, refl, ap, some, arith, ltb, leb, neg, ◌+◌, ◌-◌, ◌<◌, ◌≡◌, ◌≢◌, ◌&&◌, ◌==◌}
use silicio.Base.{if◌then◌else◌}
use silicio.Base.Bits.{bit_and_0xfff}

-- The physical page 5: "fd" at 0x20, "/dev/fd" at 0x60 and "r" at 0x80.
abbrev page_five : ℕ → ℕ
page_five a =
    if a == 0x5020
    then 0x66
    else if a == 0x5021
    then 0x64
    else if a == 0x5065
    then 0x66
    else if a == 0x5066
    then 0x64
    else if ltb a 0x5065 && leb 0x5060 a
    then dev_prefix (a - 0x5060)
    else if a == 0x5080
    then 0x72
    else 0

-- Task 5 runs; every page of the tasks is page 5.
abbrev registering : Kernel
registering = record booted {
  t_indice = 5;
  words = λ a. 0x5007;
  bytes = page_five;
  r_tareas = λ j. record (booted.r_tareas j) { task_tss = some j; status = running };
  params = λ a. record (booted.params a) { arch = 0x20; buf = 0x40; size = 64 };
}

at_five : (a : ℕ) → a < 4096 → check a registering ≡ some (0x5000 + a)
unfolding check_addr check_word walk
at_five a h = ap some (omega (arith, bit_and_0xfff a))

can_register : CanRegister 3 0x5010 0x5020 2 0x5040 0x10 registering
can_register = record {
  from_three = omega arith;
  index = omega arith;
  free = record { mine = refl; before = λ j a b. absurd (omega arith) };
  none_yet = λ j a b e. absurd (omega arith);
  passed = at_five 0x10 (omega arith);
  valid = λ e. absurd (omega arith);
  name_at = at_five 0x20 (omega arith);
  name_valid = λ e. absurd (omega arith);
  buf_at = at_five 0x40 (omega arith);
  buf_valid = λ e. absurd (omega arith);
  page = omega arith;
  last = (0x507f, at_five 0x7f (omega arith), λ e. absurd (omega arith));
  blank = λ j. refl;
  name = record { chars = λ j h. ground arith; ends = refl };
  fits = omega arith;
}

sys_reg_example :
    (k' : Kernel) × (sys_reg 0x10 registering ≡ some (3, k'))
    × IsNamed (k'.r_drv 3).arch (from page_five 0x5020) 2
    × IsDriver (k'.r_drv 3) 5 0x5040 64 0x5010
    × ((k'.r_tareas 5).status ≡ waiting)
    × ((j : ℕ) → j ≢ 3 → k'.r_drv j ≡ registering.r_drv j)
    × ((ebx2 : ℕ) → sys_reg ebx2 k' ≡ some (neg 1, k'))
sys_reg_example = sys_reg_lem 3 0x5010 0x5020 2 0x5040 0x10 registering can_register

registering-IsUnique : IsUnique registering.r_drv
unfolding IsUnique
registering-IsUnique i j a b c d live e = absurd (live refl)

abbrev registered : Kernel
registered = enter_driver 3 0x5010 (from page_five 0x5020) 0x5040 registering

sys_reg-IsUnique_example : IsUnique registered.r_drv
sys_reg-IsUnique_example =
    sys_reg-IsUnique 0x10 3 registering registered registering-IsUnique
      (sys_reg-enter_driver 3 0x5010 0x5020 2 0x5040 0x10 registering can_register)

-- Task 3 runs after it.
abbrev opening : Kernel
opening = record registering { t_indice = 3; r_drv = registered.r_drv }

at_three : (a : ℕ) → a < 4096 → check a opening ≡ some (0x5000 + a)
unfolding check_addr check_word walk
at_three a h = ap some (omega (arith, bit_and_0xfff a))

name-IsArg : IsArg 0x60 0x5060 7 opening
name-IsArg = record {
  first = at_three 0x60 (omega arith);
  valid = λ e. absurd (omega arith);
  chars = record { chars = λ j h. ground arith; ends = refl };
  some_chars = omega arith;
  limit = omega arith;
  last = (0x5067, at_three 0x67 (omega arith), λ e. absurd (omega arith));
}

mode-IsArg : IsArg 0x80 0x5080 1 opening
mode-IsArg = record {
  first = at_three 0x80 (omega arith);
  valid = λ e. absurd (omega arith);
  chars = record { chars = λ j h. ground arith; ends = refl };
  some_chars = omega arith;
  limit = omega arith;
  last = (0x5081, at_three 0x81 (omega arith), λ e. absurd (omega arith));
}

after_is : (k' : Kernel) → sys_reg 0x10 registering ≡ some (3, k') → registered ≡ k'
after_is k' e =
    let done = sys_reg-enter_driver 3 0x5010 0x5020 2 0x5040 0x10 registering can_register in cc

registered_opened_example :
    (k' : Kernel) × (sys_reg 0x10 registering ≡ some (3, k'))
    × (sys_open (λ i. 0) 0x60 0x80 opening ≡ some 3)
unfolding OtherLengths
registered_opened_example =
    registered_opened (λ i. 0) 3 0x5010 0x5020 2 0x5040 0x10 0x60 0x80 0x5060 0x5080 1 registering
      opening can_register (λ k' e. ap (λ (k : Kernel). (k.r_drv 3).arch) (after_is k' e))
      (λ j a b. absurd (omega arith)) name-IsArg mode-IsArg (λ j h. ground arith)
      (λ j h. ground arith)
