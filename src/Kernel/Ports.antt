-- ===== src/Kernel/Ports.antt =====
-- `set_port` and `unset_port` of exec/exec.c: the I/O ports that a task may use. A clear bit of the
-- map in its `tss` opens the port.
pub mod Grant
mod Tests
use silicio.Task.{Tss, tss_port}
use silicio.Kernel.{Kernel}
use silicio.Base.{ℕ, bit_and, bit_or, Option, none, some, ltb, update, u8, bit_not, neg, ◌/◌, ◌%◌}
use silicio.Base.{◌^◌, ◌==◌, if◌then◌else◌, ◌>>=◌, ◌>>◌}

-- The stores of one byte into `r_port` and into the map of the `tss` at `t`.
unfoldable pub store_port : (t aux r_byte io_byte : ℕ) → Kernel → Kernel
store_port t aux r_byte io_byte k = record k {
  r_port = update k.r_port aux (u8 r_byte);
  tss_p = update k.tss_p t (record (k.tss_p t) { iobp = update (k.tss_p t).iobp aux (u8 io_byte) });
}

-- `r_port[aux] && ( 1 << id )` is true unless the whole byte is 0. `none` is a port past the 256
-- bytes, or a task with no `tss`.
unfoldable pub set_port : ℕ → Kernel → Option (ℕ × Kernel)
set_port p k =
    let aux = p / 8 in
    let mask = bit_not (2 ^ (p % 8)) in
    let granted = (do
      t ← (k.r_tareas k.t_indice).task_tss
      some (
        0,
        store_port t aux (bit_and (k.r_port aux) mask) (bit_and ((k.tss_p t).iobp aux) mask) k,
      )) in
    if ltb aux tss_port then (if k.r_port aux == 0 then some (neg 1, k) else granted) else none

-- `~(io_map[aux]) && ( 1 << id )` on a byte promoted to `int` is always true.
unfoldable pub unset_port : ℕ → Kernel → Option (ℕ × Kernel)
unset_port p k =
    let aux = p / 8 in
    let mask = 2 ^ (p % 8) in
    let returned = (do
      t ← (k.r_tareas k.t_indice).task_tss
      some (
        0,
        store_port t aux (bit_or (k.r_port aux) mask) (bit_or ((k.tss_p t).iobp aux) mask) k,
      )) in
    if ltb aux tss_port then returned else none
