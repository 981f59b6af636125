-- ===== src/Kernel/Calls/Memory.antt =====
-- `sys_mem` of exec/exec.c: how a task asks for a page of memory by its number.
pub mod Keeps
pub mod Shared
mod Tests
use silicio.Mm.{pag_ok, set_mem, buscar_mem}
use silicio.Mm.Paging.{Words, store}
use silicio.Kernel.{Kernel}
use silicio.Base.{ℕ, bit_and, bit_or, Option, some, neg, ◌+◌, ◌*◌, ◌/◌, ◌^◌, ◌==◌, if◌then◌else◌}
use silicio.Base.{◌>>=◌, ◌>>◌}

-- The stores into the directory at `dir_pag` and into the table that its entry names. The flags of
-- `sel_pag` were cleared before they are tested.
pub open_page : (dir_pag pedido : ℕ) → Words → Words
open_page dir_pag pedido w =
    let entry = dir_pag + 4 * (pedido / 2 ^ 10) in
    let sel_pag = bit_and (w entry) 0xffff_f000 in
    let w1 = store w entry (bit_or (w entry) 7) in
    let at = sel_pag + 4 * bit_and pedido 0x3ff in
    if bit_and sel_pag 7 == 7 then w else store w1 at (bit_or (w1 at) 7)

-- The call from `set_mem` on. `none` is a page outside the map, or a task with no `tss`.
pub give_page : ℕ → Kernel → Option (ℕ × Kernel)
give_page pedido k = do
  (r, m) ← set_mem pedido k.mm
  let given = (do
    t ← (k.r_tareas k.t_indice).task_tss
    some (
      pedido,
      record k { mm = m; words = open_page (bit_and (k.tss_p t).cr3 0xffff_f000) pedido k.words },
    ))
  if r == pag_ok then given else some (neg 3, record k { mm = m })

pub sys_mem : (ebx : ℕ) → Kernel → Option (ℕ × Kernel)
sys_mem ebx k = do
  pedido ← (if ebx == 0 then buscar_mem k.mm else some ebx)
  let given = give_page pedido k
  if pedido == 0 then some (neg 1, k) else given
