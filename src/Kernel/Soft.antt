-- ===== src/Kernel/Soft.antt =====
-- `int_soft_speed` of exec/exec.c, the quick system calls, made by the interrupt 0x41 in the
-- address space of the task.
pub mod Kept
pub mod Owner
mod Tests
use silicio.Font.Draw.{Vbe}
use silicio.Interrupts.{Pic, int_up}
use silicio.Kernel.{Kernel, IntEntry}
use silicio.Kernel.Ports.{set_port, unset_port}
use silicio.Base.{ℕ, Option, none, some, ltb, update, u8, u16, neg, ◌==◌, if◌then◌else◌, ◌>>=◌}
use silicio.Base.{◌>>◌}

abbrev pub sys_debug : ℕ
sys_debug = 200

abbrev pub sys_piper : ℕ
sys_piper = 203

abbrev pub sys_pipew : ℕ
sys_pipew = 204

abbrev pub sys_rint : ℕ
sys_rint = 205

abbrev pub sys_rport : ℕ
sys_rport = 206

abbrev pub sys_urport : ℕ
sys_urport = 207

abbrev pub sys_vbe_addr : ℕ
sys_vbe_addr = 208

abbrev pub sys_vbe_x : ℕ
sys_vbe_x = 209

abbrev pub sys_vbe_y : ℕ
sys_vbe_y = 210

abbrev pub sys_vbe_color : ℕ
sys_vbe_color = 211

abbrev pub sys_hlt : ℕ
sys_hlt = 212

-- The kernel and the interrupt controller.
pub record Machine : Type 0 where
  pub kernel : Kernel
  pub pic : Pic

-- `SYS_RINT`: the task takes the interrupt `varb`, for the function at `varc` in its own space.
-- `none` is an entry past the 256, or a task with no `tss`.
pub take_int : (varb varc : ℕ) → Machine → Option (ℕ × Machine)
take_int varb varc m =
    let k = m.kernel in
    let taken = (do
      t ← (k.r_tareas k.t_indice).task_tss
      let e : IntEntry = record { tarea = k.t_indice; func = varc; cr3 = (k.tss_p t).cr3 }
      some (
        0,
        record {
          kernel = record k { r_int = update k.r_int varb e };
          pic = (int_up (u8 varb) m.pic).1;
        },
      )) in
    if ltb varb 256 then (if (k.r_int varb).tarea == 0 then taken else some (neg 1, m)) else none

-- `SYS_PIPEW`. The result is what the place of `i` held.
pub write_pipe : (junk varb varc : ℕ) → Machine → Option (ℕ × Machine)
write_pipe junk varb varc m =
    let k = m.kernel in
    if ltb varb 256
    then some (junk, record m { kernel = record k { r_pipe = update k.r_pipe varb varc } })
    else none

-- A call of the kernel that leaves the controller.
pub on_kernel : Option (ℕ × Kernel) → Machine → Option (ℕ × Machine)
on_kernel none m = none
on_kernel (some (i, k)) m = some (i, record m { kernel = k })

-- The `switch` on the registers of the task, and what it finds in `eax`: the variable `i`, which
-- has no value, `junk`, after `SYS_PIPER`, `SYS_PIPEW`, `SYS_DEBUG` and an unknown number. The
-- text `movl $0` of `SYS_PIPER` loads the number 0, not the pipe, and `eax` is then overwritten.
pub int_soft_speed : (junk : ℕ) → Vbe → (vara varb varc : ℕ) → Machine → Option (ℕ × Machine)
int_soft_speed junk vbe_header vara varb varc m =
    let piped = write_pipe junk varb varc m in
    let taken = take_int varb varc m in
    let given = on_kernel (set_port (u16 varb) m.kernel) m in
    let returned = on_kernel (unset_port (u16 varb) m.kernel) m in
    if vara == sys_piper
    then some (junk, m)
    else if vara == sys_pipew
    then piped
    else if vara == sys_debug
    then some (junk, m)
    else if vara == sys_rint
    then taken
    else if vara == sys_rport
    then given
    else if vara == sys_urport
    then returned
    else if vara == sys_vbe_addr
    then some (vbe_header.addr, m)
    else if vara == sys_vbe_x
    then some (vbe_header.x, m)
    else if vara == sys_vbe_y
    then some (vbe_header.y, m)
    else if vara == sys_vbe_color
    then some (vbe_header.color, m)
    else if vara == sys_hlt
    then some (vara, m)
    else some (junk, m)
