-- ===== src/Kernel/Calls/Transfer/Tests.antt =====
-- Runs of the calls of a driver in exec/exec.c.
use silicio.Mm.Paging.{walk}
use silicio.Task.{running, waiting}
use silicio.Task.Space.{check_addr, check_word}
use silicio.Kernel.{Kernel}
use silicio.Kernel.Tests.{booted}
use silicio.Kernel.Calls.{check}
use silicio.Kernel.Calls.Bytes.{AreApart, BytesCopied}
use silicio.Kernel.Calls.Transfer.{start_read, sys_read, sys_write, sys_seek, sys_ret}
use silicio.Kernel.Calls.Transfer.{hand_over, transfer_size}
use silicio.Kernel.{max_drivers}
use silicio.Kernel.Calls.Transfer.{driver_error}
use silicio.Kernel.Calls.Transfer.Errors.{CanCall, calls_refused, sys_write_lem}
use silicio.Kernel.Calls.Transfer.Answer.{
  IsEntry, CanAnswer, answer_count, sys_ret_lem, read_answered,
}
use silicio.Base.{ℕ, min, refl, inl, inr, some, arith, u32, neg, ◌≤◌, ◌<◌, ◌≡◌, ◌≢◌, ◌⊎◌, ◌==◌}
use silicio.Base.{if◌then◌else◌}

-- Task 3 calls, task 5 is the driver of entry 1, and every page of theirs is page 5.
abbrev calling : Kernel
calling = record booted {
  t_indice = 3;
  words = λ a. 0x5007;
  r_tareas = λ j. record (booted.r_tareas j) {
    task_tss = some j;
    status = if j == 3 then running else waiting;
  };
  r_drv = λ j. record (booted.r_drv j) {
    id_drv = if j == 1 then 5 else 0;
    buf = 0x7000;
    size = 64;
    sys = 0x9000;
  };
}

at_0x10 : check 0x10 calling ≡ some 0x5010
unfolding check_addr check_word walk
at_0x10 = refl

at_0x17 : check 0x17 calling ≡ some 0x5017
unfolding check_addr check_word walk
at_0x17 = refl

can_call : CanCall 1 0x10 8 0x5010 calling
can_call = record {
  index = omega arith;
  registered = λ e. absurd (omega arith);
  waits = refl;
  other = λ e. absurd (omega arith);
  first = at_0x10;
  valid = λ e. absurd (omega arith);
  some_bytes = omega arith;
  page = omega arith;
  last = (0x5017, at_0x17, λ e. absurd (omega arith));
}

apart_8 : AreApart 0x5010 0x7000 (transfer_size 64 8)
unfolding transfer_size
apart_8 = record { src_in = omega arith; dst_in = omega arith; apart = inl (omega arith) }

sys_write_example :
    (k' : Kernel) × (sys_write 6 1 0x10 8 calling ≡ some (0, k'))
    × ((k'.r_tareas 3).status ≡ waiting)
    × ((k'.r_tareas 5).status ≡ running)
    × BytesCopied 0x5010 0x7000 (min 64 8) (λ a. 0) k'.bytes
    × ((k'.params 0x9000).count ≡ min 64 8)
    × ((k'.params 0x9000).call ≡ 6)
    × ((k'.r_drv 1).id_ret ≡ 3)
    × ((j : ℕ) → j ≢ 1 → k'.r_drv j ≡ calling.r_drv j)
unfolding transfer_size
sys_write_example = sys_write_lem 6 1 0x10 8 0x5010 calling can_call apart_8 (λ j h. ground arith)

-- The driver is made to run before the call.
abbrev busy : Kernel
busy = record calling { r_tareas = λ j. record (calling.r_tareas j) { status = running } }

busy_driver : sys_seek 5 1 busy ≡ (neg 3, busy)
unfolding sys_seek driver_error
busy_driver = refl

calls_refused_example :
    ((max_drivers ≤ 1) × (neg 3 ≡ neg 1) × (busy ≡ busy))
    ⊎ ((1 < max_drivers) × ((busy.r_drv 1).id_drv ≡ 0) × (neg 3 ≡ neg 2) × (busy ≡ busy))
    ⊎ ((1 < max_drivers)
        × ((busy.r_drv 1).id_drv ≢ 0)
        × ((busy.r_tareas (busy.r_drv 1).id_drv).status ≢ waiting)
        × (neg 3 ≡ neg 3)
        × (busy ≡ busy))
    ⊎ ((1 < max_drivers)
        × ((busy.r_drv 1).id_drv ≢ 0)
        × ((busy.r_tareas (busy.r_drv 1).id_drv).status ≡ waiting)
        × ((neg 3 ≡ 0) ⊎ (((neg 3 ≡ neg 4) ⊎ (neg 3 ≡ neg 5) ⊎ (neg 3 ≡ neg 6)) × (busy ≡ busy))))
calls_refused_example = calls_refused 5 1 0x10 8 (neg 3) busy busy (inr (inr busy_driver))

-- The driver runs, after a read of task 3.
abbrev answering : Kernel
answering = record (start_read 5 1 8 0x5010 calling) { t_indice = 5 }

answer_at : check 0x20 answering ≡ some 0x5020
unfolding check_addr check_word walk start_read hand_over
answer_at = refl

driver-IsEntry : IsEntry answering.r_drv 5 0 1
unfolding start_read
driver-IsEntry = record { mine = refl; before = λ j a b e. ground arith }

can_answer : CanAnswer 1 3 0x5020 0x20 answering
unfolding start_read hand_over transfer_size
can_answer = record {
  index = omega arith;
  entry = driver-IsEntry;
  caller = refl;
  other = λ e. absurd (omega arith);
  passed = answer_at;
  valid = λ e. absurd (omega arith);
  outside = λ j h. ground arith;
}

answer_apart :
    AreApart (answering.r_drv 1).buf (answering.r_drv 1).buf_ret (answer_count 1 answering)
unfolding start_read transfer_size
answer_apart = record { src_in = omega arith; dst_in = omega arith; apart = inr (omega arith) }

sys_ret_example :
    (k' : Kernel) × (sys_ret 0x20 answering ≡ some (0, k'))
    × ((k'.tss_p 3).eax ≡ u32 (answering.params 0x5020).ret)
    × ((k'.r_tareas (answering.r_drv 1).id_ret).status ≡ running)
    × ((k'.r_tareas 5).status ≡ waiting)
    × BytesCopied
        (answering.r_drv 1).buf
        (answering.r_drv 1).buf_ret
        (answer_count 1 answering)
        answering.bytes
        k'.bytes
sys_ret_example = sys_ret_lem 1 3 0x5020 0x20 answering can_answer answer_apart

read_answered_example :
    (k3 : Kernel) × (sys_read 5 1 0x10 8 calling ≡ some (0, start_read 5 1 8 0x5010 calling))
    × (sys_ret 0x20 answering ≡ some (0, k3))
    × BytesCopied 0x7000 0x5010 (min 64 8) answering.bytes k3.bytes
    × ((k3.r_tareas 3).status ≡ running)
    × ((k3.tss_p 3).eax ≡ u32 (answering.params 0x5020).ret)
read_answered_example =
    read_answered 5 1 0x10 8 0x5010 calling answering 3 0x5020 0x20 can_call refl refl can_answer
      (record { src_in = omega arith; dst_in = omega arith; apart = inr (omega arith) })
