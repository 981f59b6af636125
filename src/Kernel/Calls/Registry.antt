-- ===== src/Kernel/Calls/Registry.antt =====
-- `sys_reg` and `sys_open` of exec/exec.c: a task makes itself a driver, and another one finds it by
-- its name.
pub mod Keeps
pub mod Enter
pub mod Unique
pub mod Find
mod Tests
use silicio.Strings.{Chars, from, strlen, strcmp, strcpy, strcat}
use silicio.Task.{Run, waiting}
use silicio.Kernel.{Kernel, Drv, SysParam, max_drivers}
use silicio.Kernel.Calls.{check, set_status, find_drv}
use silicio.Base.{ℕ, zero, suc, true, false, not, Option, some, ltb, update, u32, neg, ◌+◌, ◌-◌}
use silicio.Base.{◌^◌, ◌==◌, if◌then◌else◌, ◌>>=◌, ◌>>◌}

-- "/dev/"
abbrev pub dev_prefix : Chars
dev_prefix i =
    if i == 0
    then 0x2f
    else if i == 1
    then 0x64
    else if i == 2
    then 0x65
    else if i == 3
    then 0x76
    else if i == 4
    then 0x2f
    else 0

-- The stores of `sys_reg`, into the entry `i`: `q` is the task's record, `arch` its string and
-- `buf` its buffer.
pub enter_driver : (i q : ℕ) (arch : Chars) (buf : ℕ) → Kernel → Kernel
enter_driver i q arch buf k =
    let e = k.r_drv i in
    record k {
      r_drv = update k.r_drv i (record e {
        arch = (strcat (strcpy dev_prefix e.arch).1 arch).1;
        id_drv = k.t_indice;
        buf = buf;
        size = (k.params q).size;
        id_ret = 0;
        sys = q;
      });
      r_tareas = set_status k.t_indice waiting k.r_tareas;
    }

-- The tests of the record at `q` and of what it points to, and the stores.
pub reg_record : (i q : ℕ) → Kernel → Option (ℕ × Kernel)
reg_record i q k =
    let sys = k.params q in
    do
      arch ← check sys.arch k
      buf ← check sys.buf k
      end ← check (u32 (sys.buf + sys.size + (2 ^ 32 - 1))) k
      if arch == 0
          then some (neg 4, k)
          else if buf == 0
          then some (neg 5, k)
          else if ltb 4096 sys.size
          then some (neg 6, k)
          else if end == 0
          then some (neg 7, k)
          else some (i, enter_driver i q (from k.bytes arch) buf k)

-- The entries 0, 1 and 2 are kept for the standard devices.
pub sys_reg : (ebx : ℕ) → Kernel → Option (ℕ × Kernel)
sys_reg ebx k =
    let own = find_drv 7 3 k.t_indice k.r_drv in
    let i = find_drv 7 3 0 k.r_drv in
    let go = (do
      q ← check ebx k
      let rest = reg_record i q k
      if q == 0 then some (neg 3, k) else rest) in
    if ltb own max_drivers
    then some (neg 1, k)
    else if i == max_drivers
    then some (neg 2, k)
    else go

-- The loop of `sys_open` over the names. `junk i` is what the place of `ret` holds in the call of
-- `strcmp` for the entry `i`.
pub find_name : ℕ → ℕ → (junk : ℕ → ℕ) → Chars → (ℕ → Drv) → ℕ
find_name zero i junk name r_drv = i
find_name (suc left) i junk name r_drv = elim (strcmp (junk i) (r_drv i).arch name == 0) [
  | true ↦ i
  | false ↦ find_name left (i + 1) junk name r_drv
]

-- A string of the task at `addr`: it has one, and its end is its own. The result is 0, or the error
-- code, `bad`, `bad + 1` or `bad + 2` below 0, and the physical address.
pub string_arg : (addr bad : ℕ) → Kernel → Option (ℕ × ℕ)
string_arg addr bad k = do
  var ← check addr k
  let largo = strlen (from k.bytes var)
  end ← check (u32 (addr + largo)) k
  some (
    if var == 0
        then neg bad
        else if largo == 0
        then neg (bad + 1)
        else if end == 0
        then neg (bad + 2)
        else 0,
    var,
  )

pub sys_open : (junk : ℕ → ℕ) (ebx ecx : ℕ) → Kernel → Option ℕ
sys_open junk ebx ecx k = do
  (bad1, name) ← string_arg ebx 1 k
  (bad2, mode) ← string_arg ecx 4 k
  let i = find_name 7 3 junk (from k.bytes name) k.r_drv
  some (
      if not (bad1 == 0)
      then bad1
      else if not (bad2 == 0)
      then bad2
      else if i == max_drivers
      then neg 7
      else i)
