-- ===== src/Kernel/Calls/Dispatch.antt =====
-- `sys_call` of exec/exec.c: the task that all system calls enter.
pub mod Round
mod Tests
use silicio.Task.{Tss, Run}
use silicio.Kernel.{Kernel}
use silicio.Kernel.Calls.{sys_open_call, sys_read_call, sys_write_call, sys_wait_call}
use silicio.Kernel.Calls.{
  sys_seek_call, sys_reg_call, sys_mem_call, sys_ret_call, sys_wait, set_eax,
}
use silicio.Kernel.Calls.Transfer.{sys_read, sys_write, sys_seek, sys_ret}
use silicio.Kernel.Calls.Memory.{sys_mem}
use silicio.Kernel.Calls.Registry.{sys_open, sys_reg}
use silicio.Base.{ℕ, Option, none, some, ◌==◌, if◌then◌else◌, ◌>>=◌, ◌>>◌}

-- `r_tareas[t_indice].task_tss->eax = ret`, after the call
pub answered : Option (ℕ × Kernel) → Option Kernel
answered none = none
answered (some (ret, k)) = set_eax k.t_indice ret k

-- A call whose result is dropped.
pub dropped : Option (ℕ × Kernel) → Option Kernel
dropped none = none
dropped (some (ret, k)) = some k

-- The `switch`, on the registers of the caller. A number that no call has prints a message.
pub dispatch : (junk : ℕ → ℕ) → Tss → Kernel → Option Kernel
dispatch junk r k =
    let opened = (do ret ← sys_open junk r.ebx r.ecx k; set_eax k.t_indice ret k) in
    let read = dropped (sys_read r.eax r.ebx r.ecx r.edx k) in
    let written = dropped (sys_write r.eax r.ebx r.ecx r.edx k) in
    let registered = answered (sys_reg r.ebx k) in
    let returned = dropped (sys_ret r.ebx k) in
    let given = answered (sys_mem r.ebx k) in
    if r.eax == sys_open_call
    then opened
    else if r.eax == sys_read_call
    then read
    else if r.eax == sys_write_call
    then written
    else if r.eax == sys_reg_call
    then registered
    else if r.eax == sys_ret_call
    then returned
    else if r.eax == sys_wait_call
    then some (sys_wait k)
    else if r.eax == sys_mem_call
    then given
    else if r.eax == sys_seek_call
    then some (sys_seek r.eax r.ebx k).1
    else some k

-- One round of the loop, up to the jump to the scheduler. `none` is a task with no `tss`.
pub sys_call : (junk : ℕ → ℕ) → Kernel → Option Kernel
sys_call junk k = do t ← (k.r_tareas k.t_indice).task_tss; dispatch junk (k.tss_p t) k
