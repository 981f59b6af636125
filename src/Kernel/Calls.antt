-- ===== src/Kernel/Calls.antt =====
-- The system calls of exec/exec.c. Each gets the registers that it reads and returns what it
-- returns to `sys_call`, with the new state. `none` is a use of a null pointer.
pub mod Keeps
pub mod Bytes
pub mod Transfer
pub mod Memory
pub mod Registry
pub mod Dispatch
use silicio.Task.{Tss, Run, running, waiting}
use silicio.Task.Space.{check_addr}
use silicio.Kernel.{Kernel, Drv, SysParam, max_drivers}
use silicio.Base.{ℕ, zero, suc, Bool, true, false, not, Option, some, update, u32, ◌+◌, ◌&&◌}
use silicio.Base.{◌==◌, ◌>>=◌, ◌>>◌}

abbrev pub sys_open_call : ℕ
sys_open_call = 4

abbrev pub sys_read_call : ℕ
sys_read_call = 5

abbrev pub sys_write_call : ℕ
sys_write_call = 6

abbrev pub sys_wait_call : ℕ
sys_wait_call = 7

abbrev pub sys_seek_call : ℕ
sys_seek_call = 8

abbrev pub sys_reg_call : ℕ
sys_reg_call = 100

abbrev pub sys_mem_call : ℕ
sys_mem_call = 101

abbrev pub sys_ret_call : ℕ
sys_ret_call = 102

-- `check_addr(addr, &r_tareas[t_indice])`
abbrev pub check : ℕ → Kernel → Option ℕ
check addr k = check_addr k.tss_p k.words addr (k.r_tareas k.t_indice)

-- `r_tareas[i].status = s`
abbrev pub set_status : ℕ → ℕ → (ℕ → Run) → ℕ → Run
set_status i s r = update r i (record (r i) { status = s })

-- `buf_dst[count] = buf_src[count]`, from `count` on.
pub copy_bytes : ℕ → ℕ → ℕ → ℕ → (ℕ → ℕ) → ℕ → ℕ
copy_bytes zero count src dst bytes = bytes
copy_bytes (suc left) count src dst bytes =
    copy_bytes left (count + 1) src dst
      (update bytes (u32 (dst + count)) (bytes (u32 (src + count))))

-- None of the bytes that `copy_bytes` writes is the kernel's own.
pub spares : ℕ → ℕ → ℕ → (ℕ → Bool) → Bool
spares zero count dst own = true
spares (suc left) count dst own =
    let rest = spares left (count + 1) dst own in not (own (u32 (dst + count))) && rest

-- `for (i = ...; i < MAX_DRIVERS; i++) if (r_drv[i].id_drv == id) break;`
unfoldable pub find_drv : ℕ → ℕ → ℕ → (ℕ → Drv) → ℕ
find_drv zero i id r_drv = i
find_drv (suc left) i id r_drv = elim ((r_drv i).id_drv == id) [
  | true ↦ i
  | false ↦ find_drv left (i + 1) id r_drv
]

pub sys_wait : Kernel → Kernel
sys_wait k = record k { r_tareas = set_status k.t_indice waiting k.r_tareas }

-- `r_tareas[i].task_tss->eax = v`
pub set_eax : ℕ → ℕ → Kernel → Option Kernel
set_eax i v k = do
  t ← (k.r_tareas i).task_tss
  some (record k { tss_p = update k.tss_p t (record (k.tss_p t) { eax = u32 v }) })
