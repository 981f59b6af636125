-- ===== src/Kernel/Calls/Transfer/Answer.antt =====
-- `sys_ret`: what the answer of a driver does, and a read from its start to its answer.
use native.Mathlib.Decide.{ℕ_discrete}
use silicio.Task.{running, waiting}
use silicio.Kernel.{Kernel, Drv, max_drivers}
use silicio.Kernel.Calls.{sys_read_call, check, set_status, copy_bytes, spares, find_drv, set_eax}
use silicio.Kernel.Calls.Bytes.{AreApart, BytesCopied, copy_bytes-BytesCopied, spares_lem}
use silicio.Kernel.Calls.Transfer.{transfer_size, start_read, sys_read, answer, sys_ret}
use silicio.Kernel.Calls.Transfer.Errors.{CanCall, read-starts}
use silicio.Base.{ℕ, zero, suc, min, sym, ap, true, false, some, arith, update, update_self}
use silicio.Base.{update_ne, u32, ◌+◌, ◌≤◌, ◌<◌, ◌≡◌, ◌≢◌, ◌∙◌, ◌==◌, if◌then◌else◌}

-- Entry `i` is the first of the driver `id` from `lo` on.
pub record IsEntry (r_drv : ℕ → Drv) (id lo i : ℕ) : Type 0 where
  pub mine : (r_drv i).id_drv ≡ id
  pub before : (j : ℕ) → lo ≤ j → j < i → (r_drv j).id_drv ≢ id

pub find_drv_lem :
    (left lo i id : ℕ) (r_drv : ℕ → Drv)
    → IsEntry r_drv id lo i
    → lo ≤ i
    → i < lo + left
    → find_drv left lo id r_drv ≡ i
unfolding find_drv
find_drv_lem zero lo i id r_drv h le hi = absurd (omega arith)
find_drv_lem (suc left) lo i id r_drv h le hi = elim (ℕ_discrete lo i) [
  | yes e ↦
      let z : ((r_drv lo).id_drv == id) ≡ true = rw e (ground (arith, h.mine)) in rw (z, find_drv) e
  | no ne ↦
      let z : ((r_drv lo).id_drv == id) ≡ false = ground (arith, h.before lo) in
      rw (z, find_drv)
        (find_drv_lem left (lo + 1) i id r_drv
          (record { mine = h.mine; before = λ j p q. h.before j (omega arith) q }) (omega arith)
          (omega arith))
]

-- The running driver has entry `i`, its caller has the `tss` at `t`, and the record that it passes
-- lies at the physical address `q`; none of the bytes that a read copies back falls on the kernel.
pub record CanAnswer (i t q ebx : ℕ) (k : Kernel) : Type 0 where
  pub index : i < max_drivers
  pub entry : IsEntry k.r_drv k.t_indice 0 i
  pub caller : (k.r_tareas (k.r_drv i).id_ret).task_tss ≡ some t
  pub other : (k.r_drv i).id_ret ≢ k.t_indice
  pub passed : check ebx k ≡ some q
  pub valid : q ≢ 0
  pub outside :
      (j : ℕ)
      → j < (if (k.r_drv i).call == sys_read_call then (k.params (k.r_drv i).sys).count else 0)
      → k.own (u32 ((k.r_drv i).buf_ret + j)) ≡ false

-- The bytes that an answer copies: after a read as many as the driver's own record says, else none.
abbrev pub answer_count : ℕ → Kernel → ℕ
answer_count i k = if (k.r_drv i).call == sys_read_call then (k.params (k.r_drv i).sys).count else 0

-- Where the running driver has entry `i`, the first of its own, its caller is another task with
-- the `tss` `t`, the record it passes lies at `q` in its own memory, and the buffers do not meet
-- over the bytes to copy, of which none is written over the kernel's own, `sys_ret` returns 0;
-- the caller has the driver's result in `eax` and runs, and the driver waits; after a read the
-- caller's buffer holds as many bytes of the driver's as the driver's own record says, after
-- another call none is copied, and no other byte has changed.
pub sys_ret_lem :
    (i t q ebx : ℕ) (k : Kernel)
    → CanAnswer i t q ebx k
    → AreApart (k.r_drv i).buf (k.r_drv i).buf_ret (answer_count i k)
    → (k' : Kernel) × (sys_ret ebx k ≡ some (0, k'))
      × ((k'.tss_p t).eax ≡ u32 (k.params q).ret)
      × ((k'.r_tareas (k.r_drv i).id_ret).status ≡ running)
      × ((k'.r_tareas k.t_indice).status ≡ waiting)
      × BytesCopied (k.r_drv i).buf (k.r_drv i).buf_ret (answer_count i k) k.bytes k'.bytes
unfolding sys_ret answer set_eax
sys_ret_lem i t q ebx k c apart =
    let e = k.r_drv i in
    let found : find_drv max_drivers 0 k.t_indice k.r_drv ≡ i =
      find_drv_lem 10 0 i k.t_indice k.r_drv c.entry (omega arith) (omega (arith, c.index)) in
    let z1 : (i == max_drivers) ≡ false = ground (arith, c.index) in
    let z2 : (q == 0) ≡ false = ground (arith, c.valid) in
    let spared : spares (answer_count i k) 0 e.buf_ret k.own ≡ true =
      spares_lem _ 0 e.buf_ret k.own (λ j lo hi. c.outside j (omega arith)) in
    let woken = set_status e.id_ret running k.r_tareas in
    (
      record k {
        tss_p = update k.tss_p t (record (k.tss_p t) { eax = u32 (k.params q).ret });
        bytes = copy_bytes (answer_count i k) 0 e.buf e.buf_ret k.bytes;
        r_tareas = set_status k.t_indice waiting woken;
      },
      rw (found, z1, c.passed, z2, c.caller, spared),
      ap (λ s. s.eax) (update_self k.tss_p t _),
      ap (λ s. s.status) (update_ne woken _ (λ e. c.other (sym e)) ∙ update_self k.r_tareas _ _),
      ap (λ s. s.status) (update_self woken k.t_indice _),
      copy_bytes-BytesCopied _ e.buf e.buf_ret k.bytes apart,
    )

-- The driver's entry after `sys_read`.
read_entry :
    (eax ebx edx p_data : ℕ) (k k2 : Kernel)
    → k2.r_drv ebx ≡ (start_read eax ebx edx p_data k).r_drv ebx
    → ((k2.r_drv ebx).call ≡ sys_read_call)
      × ((k2.r_drv ebx).sys ≡ (k.r_drv ebx).sys)
      × ((k2.r_drv ebx).buf ≡ (k.r_drv ebx).buf)
      × ((k2.r_drv ebx).buf_ret ≡ p_data)
      × ((k2.r_drv ebx).id_ret ≡ k.t_indice)
unfolding start_read
read_entry eax ebx edx p_data k k2 same =
    let e = same ∙ update_self k.r_drv ebx _ in
    (
      ap (λ d. d.call) e,
      ap (λ d. d.sys) e,
      ap (λ d. d.buf) e,
      ap (λ d. d.buf_ret) e,
      ap (λ d. d.id_ret) e,
    )

read_count :
    (eax ebx edx p_data : ℕ) (k k2 : Kernel)
    → (k2.r_drv ebx).call ≡ sys_read_call
    → (k2.r_drv ebx).sys ≡ (k.r_drv ebx).sys
    → (k2.params (k.r_drv ebx).sys).count
      ≡ ((start_read eax ebx edx p_data k).params (k.r_drv ebx).sys).count
    → answer_count ebx k2 ≡ min (k.r_drv ebx).size edx
unfolding start_read transfer_size
read_count eax ebx edx p_data k k2 call sys count =
    let set = count ∙ ap (λ s. s.count) (update_self k.params (k.r_drv ebx).sys _) in
    rw sys (ground arith)

-- A read, from the call to the answer. Where the call may be made in `k` (`CanCall`), and in
-- `k2`, where the driver of the entry runs and may answer (`CanAnswer`), the entry and the count
-- in the driver's record are as the call had set them, and the two buffers do not meet
-- (`CanAnswer` has that none of the bytes that are copied back is the kernel's own): `sys_read`
-- returns 0 in `k`, `sys_ret` returns 0 in `k2`, the caller's buffer then holds the first
-- `min(size, edx)` bytes of the driver's and no other byte has changed, the caller runs, and the
-- result is in the `eax` of the `tss` of the task that the entry names.
pub read_answered :
    (eax ebx ecx edx p_data : ℕ) (k k2 : Kernel) (t q r : ℕ)
    → CanCall ebx ecx edx p_data k
    → k2.r_drv ebx ≡ (start_read eax ebx edx p_data k).r_drv ebx
    → (k2.params (k.r_drv ebx).sys).count
      ≡ ((start_read eax ebx edx p_data k).params (k.r_drv ebx).sys).count
    → CanAnswer ebx t q r k2
    → AreApart (k.r_drv ebx).buf p_data (min (k.r_drv ebx).size edx)
    → (k3 : Kernel) × (sys_read eax ebx ecx edx k ≡ some (0, start_read eax ebx edx p_data k))
      × (sys_ret r k2 ≡ some (0, k3))
      × BytesCopied (k.r_drv ebx).buf p_data (min (k.r_drv ebx).size edx) k2.bytes k3.bytes
      × ((k3.r_tareas k.t_indice).status ≡ running)
      × ((k3.tss_p t).eax ≡ u32 (k2.params q).ret)
read_answered eax ebx ecx edx p_data k k2 t q r c same count a apart =
    let (call, sys, buf, buf_ret, id_ret) = read_entry eax ebx edx p_data k k2 same in
    let n = read_count eax ebx edx p_data k k2 call sys count in
    let apart' : AreApart (k2.r_drv ebx).buf (k2.r_drv ebx).buf_ret (answer_count ebx k2) =
      rw (buf, buf_ret, n) apart in
    let (k3, e, got, woken, slept, copied) = sys_ret_lem ebx t q r k2 a apart' in
    (
      k3,
      read-starts eax ebx ecx edx p_data k c,
      e,
      rw (buf, buf_ret, n) at copied,
      ap (λ i. (k3.r_tareas i).status) (sym id_ret) ∙ woken,
      got,
    )
