-- ===== src/Kernel/Calls/Transfer/Errors.antt =====
-- The calls on a driver: what they refuse, and what they do when they accept.
use silicio.Task.{running, waiting}
use silicio.Kernel.{Kernel, max_drivers}
use silicio.Kernel.Calls.{check, copy_bytes, spares}
use silicio.Kernel.Calls.Transfer.{driver_error, hand_over, transfer_size, with_buffer, start_read}
use silicio.Kernel.Calls.Bytes.{AreApart, BytesCopied, copy_bytes-BytesCopied, spares_lem}
use mathlib.Core.Path.{subst}
use silicio.Kernel.Calls.Transfer.{sys_read, start_write, sys_write, sys_seek}
use silicio.Base.{ℕ, min, refl, sym, ap, true, false, Option, some, arith, ltb, update_self}
use silicio.Base.{update_ne, u32, neg, ◌+◌, ◌-◌, ◌^◌, ◌≤◌, ◌<◌, ◌≡◌, ◌≢◌, ◌⊎◌, ◌∙◌, ◌==◌}

-- If `sys_read`, `sys_write` or `sys_seek` returns a value that is not 0, it has changed nothing.
pub error_keeps :
    (eax ebx ecx edx r : ℕ) (k k' : Kernel)
    → r ≢ 0
    → (sys_read eax ebx ecx edx k ≡ some (r, k'))
      ⊎ (sys_write eax ebx ecx edx k ≡ some (r, k'))
      ⊎ (sys_seek eax ebx k ≡ (r, k'))
    → k' ≡ k
unfolding sys_read sys_write sys_seek with_buffer
error_keeps eax ebx ecx edx r k k' ne e = ground arith

-- Whatever `sys_read`, `sys_write` or `sys_seek` returns is 0 or a negative number: -1 for an
-- entry that is not in the table, else -2 for one without a driver, else -3 for one whose driver
-- is not waiting, and for a driver that waits 0, or -4, -5 or -6; and where it is not 0 the call
-- has changed nothing.
pub calls_refused :
    (eax ebx ecx edx r : ℕ) (k k' : Kernel)
    → (sys_read eax ebx ecx edx k ≡ some (r, k'))
      ⊎ (sys_write eax ebx ecx edx k ≡ some (r, k'))
      ⊎ (sys_seek eax ebx k ≡ (r, k'))
    → ((max_drivers ≤ ebx) × (r ≡ neg 1) × (k' ≡ k))
      ⊎ ((ebx < max_drivers) × ((k.r_drv ebx).id_drv ≡ 0) × (r ≡ neg 2) × (k' ≡ k))
      ⊎ ((ebx < max_drivers)
          × ((k.r_drv ebx).id_drv ≢ 0)
          × ((k.r_tareas (k.r_drv ebx).id_drv).status ≢ waiting)
          × (r ≡ neg 3)
          × (k' ≡ k))
      ⊎ ((ebx < max_drivers)
          × ((k.r_drv ebx).id_drv ≢ 0)
          × ((k.r_tareas (k.r_drv ebx).id_drv).status ≡ waiting)
          × ((r ≡ 0) ⊎ (((r ≡ neg 4) ⊎ (r ≡ neg 5) ⊎ (r ≡ neg 6)) × (k' ≡ k))))
unfolding sys_read sys_write sys_seek with_buffer driver_error
calls_refused eax ebx ecx edx r k k' e = ground arith

-- The call may be made: a registered driver waits, the caller is another task and its buffer is
-- `edx` bytes, at most a page, that it may use.
pub record CanCall (ebx ecx edx p_data : ℕ) (k : Kernel) : Type 0 where
  pub index : ebx < max_drivers
  pub registered : (k.r_drv ebx).id_drv ≢ 0
  pub waits : (k.r_tareas (k.r_drv ebx).id_drv).status ≡ waiting
  pub other : (k.r_drv ebx).id_drv ≢ k.t_indice
  pub first : check ecx k ≡ some p_data
  pub valid : p_data ≢ 0
  pub some_bytes : 0 < edx
  pub page : edx ≤ 4096
  pub last : (q : ℕ) × (check (u32 (ecx + edx + (2 ^ 32 - 1))) k ≡ some q) × (q ≢ 0)

module _ (eax ebx ecx edx p_data : ℕ) (k : Kernel) (c : CanCall ebx ecx edx p_data k) where
  no_error : driver_error ebx k ≡ 0
  unfolding driver_error
  no_error = ground (arith, c.index, c.registered, c.waits)

  with_buffer-go : (go : ℕ → Option (ℕ × Kernel)) → with_buffer ecx edx k go ≡ go p_data
  unfolding with_buffer
  with_buffer-go go =
      let (q, e, ne) = c.last in
      let z1 : (p_data == 0) ≡ false = ground (arith, c.valid) in
      let z2 : ltb 4096 edx ≡ false = ground (arith, c.page) in
      let z3 : (edx == 0) ≡ false = ground (arith, c.some_bytes) in
      let z4 : (q == 0) ≡ false = ground arith in rw (c.first, e, z1, z2, z3, z4)

  pub read-starts : sys_read eax ebx ecx edx k ≡ some (0, start_read eax ebx edx p_data k)
  unfolding sys_read
  read-starts = rw no_error (with_buffer-go _)

  write-starts :
      ((j : ℕ)
        → j < transfer_size (k.r_drv ebx).size edx
        → k.own (u32 ((k.r_drv ebx).buf + j)) ≡ false)
      → sys_write eax ebx ecx edx k ≡ some (0, start_write eax ebx edx p_data k)
  unfolding sys_write
  write-starts outside =
      let spared : spares (transfer_size (k.r_drv ebx).size edx) 0 (k.r_drv ebx).buf k.own ≡ true =
        spares_lem _ 0 (k.r_drv ebx).buf k.own (λ j lo hi. outside j (omega arith)) in
      rw no_error (with_buffer-go _ ∙ rw spared refl)

  pub hand_over_lem :
      ((hand_over ebx k k.t_indice).status ≡ waiting)
      × ((hand_over ebx k (k.r_drv ebx).id_drv).status ≡ running)
  unfolding hand_over
  hand_over_lem = (ground (arith, c.other), ground arith)

  -- Where the call may be made (`CanCall`: a registered driver waits, the caller is another task,
  -- and both ends of its buffer of 1 to 4096 bytes are its own), the two buffers do not meet and
  -- none of the bytes that are written is the kernel's own, `sys_write` returns 0; the caller
  -- waits and the driver runs; the driver's buffer holds the first `min(size, edx)` bytes of the
  -- caller's and no other byte has changed; the driver's record has their number and the call;
  -- its entry names the caller, and no other entry has changed.
  pub sys_write_lem :
      AreApart p_data (k.r_drv ebx).buf (transfer_size (k.r_drv ebx).size edx)
      → ((j : ℕ)
          → j < transfer_size (k.r_drv ebx).size edx
          → k.own (u32 ((k.r_drv ebx).buf + j)) ≡ false)
      → (k' : Kernel) × (sys_write eax ebx ecx edx k ≡ some (0, k'))
        × ((k'.r_tareas k.t_indice).status ≡ waiting)
        × ((k'.r_tareas (k.r_drv ebx).id_drv).status ≡ running)
        × BytesCopied p_data (k.r_drv ebx).buf (min (k.r_drv ebx).size edx) k.bytes k'.bytes
        × ((k'.params (k.r_drv ebx).sys).count ≡ min (k.r_drv ebx).size edx)
        × ((k'.params (k.r_drv ebx).sys).call ≡ eax)
        × ((k'.r_drv ebx).id_ret ≡ k.t_indice)
        × ((j : ℕ) → j ≢ ebx → k'.r_drv j ≡ k.r_drv j)
  unfolding start_write
  sys_write_lem apart outside =
      let size : transfer_size (k.r_drv ebx).size edx ≡ min (k.r_drv ebx).size edx =
        unfold transfer_size in ground arith in
      (
        start_write eax ebx edx p_data k,
        write-starts outside,
        hand_over_lem.0,
        hand_over_lem.1,
        subst
            (λ n. BytesCopied p_data (k.r_drv ebx).buf n k.bytes (
              copy_bytes (transfer_size (k.r_drv ebx).size edx) 0 p_data (k.r_drv ebx).buf k.bytes))
            size (copy_bytes-BytesCopied _ p_data (k.r_drv ebx).buf k.bytes apart),
        ap (λ s. s.count) (update_self k.params (k.r_drv ebx).sys _) ∙ size,
        ap (λ s. s.call) (update_self k.params (k.r_drv ebx).sys _),
        ap (λ s. s.id_ret) (update_self k.r_drv ebx _),
        λ j ne. update_ne k.r_drv _ (λ e. ne (sym e)),
      )
