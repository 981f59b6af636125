-- ===== src/Kernel/Soft/Owner.antt =====
-- Who owns an interrupt under `int_soft_speed` of exec/exec.c.
use silicio.Font.Draw.{Vbe}
use silicio.Interrupts.{int_up}
use silicio.Interrupts.Mask.{is_hard, int_mask}
use silicio.Kernel.{IntEntry}
use silicio.Kernel.Soft.{Machine, take_int, int_soft_speed, sys_debug, sys_piper, sys_pipew}
use silicio.Kernel.Soft.{sys_rint, sys_rport, sys_urport, sys_vbe_addr, sys_vbe_x, sys_vbe_y}
use silicio.Kernel.Soft.{sys_vbe_color, sys_hlt}
use silicio.Kernel.Soft.Kept.{Kept, Kept-refl, take_int-Kept, write_pipe-Kept, on_kernel-Kept}
use silicio.Kernel.Soft.Kept.{set_port-Kept, unset_port-Kept}
use silicio.Base.{ℕ, refl, sym, ap, true, not, Option, some, arith, ltb, either_branch, update}
use silicio.Base.{update_self, u8, u16, neg, ◌+◌, ◌<◌, ◌≡◌, ◌≢◌, ◌&&◌, ◌==◌}
use silicio.Base.Bytes.{bit_at}

-- Whatever a task asks of `int_soft_speed` with whatever arguments, where it comes back an
-- interrupt that had an owner has the same owner, function and address space; the tasks, the
-- drivers, the GDT, the map of pages and memory are as they were, and so is the directory of
-- every `tss`.
pub int_soft_speed-Kept :
    (junk : ℕ) (vbe_header : Vbe) (vara varb varc i : ℕ) (m m' : Machine)
    → int_soft_speed junk vbe_header vara varb varc m ≡ some (i, m')
    → Kept m.kernel m'.kernel
unfolding int_soft_speed
int_soft_speed-Kept junk vbe_header vara varb varc i m m' =
    either_branch (vara == sys_piper) _ _ (at_once junk) (
      either_branch (vara == sys_pipew) _ _ (write_pipe-Kept junk varb varc i m m') (
        either_branch (vara == sys_debug) _ _ (at_once junk) (
          either_branch (vara == sys_rint) _ _ (take_int-Kept varb varc i m m') (
            either_branch (vara == sys_rport) _ _
              (on_kernel-Kept _ i m m' (λ r k'. set_port-Kept (u16 varb) r m.kernel k'))
              (either_branch (vara == sys_urport) _ _
                (on_kernel-Kept _ i m m' (λ r k'. unset_port-Kept (u16 varb) r m.kernel k'))
                (either_branch (vara == sys_vbe_addr) _ _ (at_once vbe_header.addr) (
                  either_branch (vara == sys_vbe_x) _ _ (at_once vbe_header.x) (
                    either_branch (vara == sys_vbe_y) _ _ (at_once vbe_header.y) (
                      either_branch (vara == sys_vbe_color) _ _ (at_once vbe_header.color)
                        (either_branch (vara == sys_hlt) _ _ (at_once vara) (at_once junk)))))))))))
  where
    at_once :
        (v : ℕ)
        → ◌≡◌ {A = Option (ℕ × Machine)} (some (v, m)) (some (i, m'))
        → Kept m.kernel m'.kernel
    at_once v h = let e : m.kernel ≡ m'.kernel = ground arith in rw (sym e) (Kept-refl m.kernel)

-- For an interrupt from 16 to 23 that no task has, asked for by a running task of a number other
-- than 0 with the `tss` `t`, over a mask of eight bits: `int_soft_speed` returns 0, the entry of
-- the interrupt in `r_int` names the task, its function and its space, its line is open in the
-- mask and the other lines as before; and after it every call for the same interrupt is refused
-- with -1 and changes nothing.
pub rint_lem :
    (junk : ℕ) (vbe_header : Vbe) (n varc t : ℕ) (m : Machine)
    → is_hard n ≡ true
    → (m.kernel.r_int n).tarea ≡ 0
    → m.kernel.t_indice ≢ 0
    → (m.kernel.r_tareas m.kernel.t_indice).task_tss ≡ some t
    → m.pic.t_int < 256
    → (m' : Machine) × (int_soft_speed junk vbe_header sys_rint n varc m ≡ some (0, m'))
      × ((m'.kernel.r_int n).tarea ≡ m.kernel.t_indice)
      × ((m'.kernel.r_int n).func ≡ varc)
      × ((m'.kernel.r_int n).cr3 ≡ (m.kernel.tss_p t).cr3)
      × ((j : ℕ) → j < 8 → bit_at m'.pic.t_int j ≡ (not (n == 16 + j) && bit_at m.pic.t_int j))
      × ((junk2 varc2 : ℕ) → int_soft_speed junk2 vbe_header sys_rint n varc2 m' ≡ some (neg 1, m'))
unfolding int_soft_speed take_int
rint_lem junk vbe_header n varc t m hard free live task byte =
    let k = m.kernel in
    let e : IntEntry = record { tarea = k.t_indice; func = varc; cr3 = (k.tss_p t).cr3 } in
    let at = update_self k.r_int n e in
    let low : u8 n ≡ n = ground arith in
    let inside : ltb n 256 ≡ true = ground arith in
    let z : ((k.r_int n).tarea == 0) ≡ true = ground arith in
    let masks = int_mask n m.pic byte in
    (
      record { kernel = record k { r_int = update k.r_int n e }; pic = (int_up n m.pic).1 },
      rw (inside, z, task, low) refl,
      ap (λ (x : IntEntry). x.tarea) at,
      ap (λ (x : IntEntry). x.func) at,
      ap (λ (x : IntEntry). x.cr3) at,
      masks.2,
      λ junk2 varc2. rw (inside, ap (λ (x : IntEntry). x.tarea) at) (ground arith),
    )
