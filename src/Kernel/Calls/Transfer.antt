-- ===== src/Kernel/Calls/Transfer.antt =====
-- `sys_read`, `sys_write`, `sys_seek` and `sys_ret` of exec/exec.c: how a task calls a driver and
-- the driver answers.
pub mod Keeps
pub mod Errors
pub mod Answer
mod Tests
use silicio.Task.{Tss, Run, running, waiting}
use silicio.Kernel.{Kernel, Drv, SysParam, max_drivers}
use silicio.Kernel.Calls.{sys_read_call, sys_write_call, sys_seek_call, check, set_status}
use silicio.Kernel.Calls.{copy_bytes, spares, find_drv, set_eax}
use silicio.Base.{ℕ, Option, none, some, ltb, leb, update, u32, neg, ◌+◌, ◌-◌, ◌^◌, ◌==◌}
use silicio.Base.{if◌then◌else◌, ◌>>=◌, ◌>>◌}

-- The first tests of the three calls: 0 if the driver may be called, or the error code.
pub driver_error : ℕ → Kernel → ℕ
driver_error ebx k =
    if leb max_drivers ebx
    then neg 1
    else if (k.r_drv ebx).id_drv == 0
    then neg 2
    else if (k.r_tareas (k.r_drv ebx).id_drv).status == waiting
    then 0
    else neg 3

-- The caller waits and the driver runs.
pub hand_over : ℕ → Kernel → ℕ → Run
hand_over ebx k = set_status (k.r_drv ebx).id_drv running (set_status k.t_indice waiting k.r_tareas)

-- `max`: as many bytes as the caller asks for and the driver's buffer holds.
pub transfer_size : ℕ → ℕ → ℕ
transfer_size size edx = if ltb edx size then edx else size

-- The tests of the caller's buffer, after which `go` is made at its physical address.
pub with_buffer : (ecx edx : ℕ) → Kernel → (ℕ → Option (ℕ × Kernel)) → Option (ℕ × Kernel)
with_buffer ecx edx k go = do
  p_data ← check ecx k
  let last = check (u32 (ecx + edx + (2 ^ 32 - 1))) k
  if p_data == 0
      then some (neg 4, k)
      else if ltb 4096 edx
      then some (neg 5, k)
      else if edx == 0
      then some (0, k)
      else (do end ← last; if end == 0 then some (neg 6, k) else go p_data)

pub start_read : (eax ebx edx p_data : ℕ) → Kernel → Kernel
start_read eax ebx edx p_data k =
    let e = k.r_drv ebx in
    record k {
      r_tareas = hand_over ebx k;
      r_drv =
          update k.r_drv ebx
            (record e { buf_ret = p_data; call = sys_read_call; id_ret = k.t_indice });
      params =
          update k.params e.sys
            (record (k.params e.sys) { count = transfer_size e.size edx; call = eax });
    }

pub sys_read : (eax ebx ecx edx : ℕ) → Kernel → Option (ℕ × Kernel)
sys_read eax ebx ecx edx k =
    let go = with_buffer ecx edx k (λ p_data. some (0, start_read eax ebx edx p_data k)) in
    if driver_error ebx k == 0 then go else some (driver_error ebx k, k)

pub start_write : (eax ebx edx p_data : ℕ) → Kernel → Kernel
start_write eax ebx edx p_data k =
    let e = k.r_drv ebx in
    let max = transfer_size e.size edx in
    record k {
      r_tareas = hand_over ebx k;
      bytes = copy_bytes max 0 p_data e.buf k.bytes;
      r_drv = update k.r_drv ebx (record e { call = sys_write_call; id_ret = k.t_indice });
      params = update k.params e.sys (record (k.params e.sys) { count = max; call = eax });
    }

-- `none` is a copy over bytes of the kernel.
pub sys_write : (eax ebx ecx edx : ℕ) → Kernel → Option (ℕ × Kernel)
sys_write eax ebx ecx edx k =
    let e = k.r_drv ebx in
    let max = transfer_size e.size edx in
    let go = with_buffer ecx edx k (λ p_data.
      if spares max 0 e.buf k.own then some (0, start_write eax ebx edx p_data k) else none) in
    if driver_error ebx k == 0 then go else some (driver_error ebx k, k)

pub start_seek : (eax ebx : ℕ) → Kernel → Kernel
start_seek eax ebx k =
    let e = k.r_drv ebx in
    record k {
      r_tareas = hand_over ebx k;
      r_drv = update k.r_drv ebx (record e { call = sys_seek_call; id_ret = k.t_indice });
      params = update k.params e.sys (record (k.params e.sys) { call = eax });
    }

pub sys_seek : (eax ebx : ℕ) → Kernel → ℕ × Kernel
sys_seek eax ebx k =
    if driver_error ebx k == 0 then (0, start_seek eax ebx k) else (driver_error ebx k, k)

-- What the answer of the driver in entry `i` does, `sys` being its `sys_param`: the caller gets the
-- result in `eax` and, after a read, as many bytes as the driver's own record says; then it runs,
-- and the driver waits. The copy has no limit; `none` is one over bytes of the kernel, which may
-- change anything.
pub answer : ℕ → SysParam → Kernel → Option Kernel
answer i sys k =
    let e = k.r_drv i in
    do
      k1 ← set_eax e.id_ret sys.ret k
      let count = if e.call == sys_read_call then (k.params e.sys).count else 0
      if spares count 0 e.buf_ret k.own
          then some (record k1 {
            bytes = copy_bytes count 0 e.buf e.buf_ret k.bytes;
            r_tareas = set_status k.t_indice waiting (set_status e.id_ret running k.r_tareas);
          })
          else none

pub sys_ret : (ebx : ℕ) → Kernel → Option (ℕ × Kernel)
sys_ret ebx k =
    let i = find_drv max_drivers 0 k.t_indice k.r_drv in
    let go = (do
      aux ← check ebx k
      let sent = (do k' ← answer i (k.params aux) k; some (0, k'))
      if aux == 0 then some (neg 2, k) else sent) in
    if i == max_drivers then some (neg 1, k) else go
