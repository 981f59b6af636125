-- ===== src/Floppy.antt =====
-- fd/fd.c: the driver of the floppy disk. The ports are a parameter, since what is behind them is
-- the controller: a read gives a byte and may change its state. `fd_esperar` and the delay of
-- `fd_motor` only count down; they are left out, and so are the messages.
pub mod Poll
pub mod Motor
mod Tests
use silicio.Base.{ℕ, zero, suc, bit_and, bit_or, true, false, ltb, u8, bit_not, neg, ◌*◌, ◌^◌}
use silicio.Base.{◌||◌, ◌==◌, if◌then◌else◌}

-- `inb` and `outb`, on the state of the controller.
pub record Ports (H : Type 0) : Type 0 where
  pub inb : ℕ → H → ℕ × H
  pub outb : (port val : ℕ) → H → H

-- `fd_estado`, and the controller.
pub record Drive (H : Type 0) : Type 0 where
  pub fd_estado : ℕ
  pub chip : H

abbrev pub fd_ini_ok : ℕ
fd_ini_ok = 0

abbrev pub fd_cont_no_rec : ℕ
fd_cont_no_rec = 1

abbrev pub fd_cap_no_detec : ℕ
fd_cap_no_detec = 2

abbrev pub fd_start : ℕ
fd_start = 1

abbrev pub fd_stop : ℕ
fd_stop = 0

-- The rounds of the `do` loops.
abbrev pub rounds : ℕ
rounds = 1000000

module _ {H : Type 0} (ports : Ports H) where
  open ports use {inb, outb}

  -- The `do` loop of `fd_out` and `fd_in`: it reads the state register until its bits of `mask` are
  -- `want`; `c` is what was read before.
  pub poll : (left mask want c : ℕ) → H → ℕ × H
  poll zero mask want c chip = (c, chip)
  poll (suc left) mask want c chip =
      let (v, chip') = inb 0x3f4 chip in
      elim (bit_and v mask == want) [
        | true ↦ (bit_and v mask, chip')
        | false ↦ poll left mask want (bit_and v mask) chip'
      ]

  pub fd_out : ℕ → Drive H → Drive H
  fd_out val d =
      let (c, chip) = poll rounds (bit_or 0x80 0x40) 0x80 0 d.chip in
      if c == 0 then record d { chip = chip } else record d { chip = outb 0x3f5 val chip }

  pub fd_in : Drive H → ℕ × Drive H
  fd_in d =
      let ready = bit_or (bit_or 0x80 0x40) 0x10 in
      let (c, chip) = poll rounds ready ready 0 d.chip in
      let (v, chip') = inb 0x3f5 chip in
      if c == 0 then (0, record d { chip = chip }) else (v, record d { chip = chip' })

  pub fd_motor : ℕ → Drive H → Drive H
  fd_motor n d =
      let estado =
        if n == fd_start
        then u8 (bit_or d.fd_estado 0x10)
        else u8 (bit_and d.fd_estado (bit_not 0x10)) in
      record { fd_estado = estado; chip = outb 0x3f2 estado d.chip }

  pub fd_reset : Drive H → Drive H
  fd_reset d = record { fd_estado = 0x0c; chip = outb 0x3f2 0x0c (outb 0x3f2 0x00 d.chip) }

  pub fd_ini : Drive H → ℕ × Drive H
  fd_ini d =
      let (version, d1) = fd_in (fd_out 0x10 (fd_reset d)) in
      let (tipo, chip) = inb 0x71 (outb 0x70 0x10 d1.chip) in
      let d2 : Drive H = record d1 { chip = chip } in
      if version == 0x80 || version == 0x90
      then (if tipo == 0x40
          then (fd_ini_ok, fd_motor fd_stop (fd_motor fd_start d2))
          else (fd_cap_no_detec, d2))
      else (fd_cont_no_rec, d1)

  -- `cabeza` is an `unsigned char`.
  pub fd_seek : (cabeza cilindro : ℕ) → Drive H → ℕ × Drive H
  fd_seek cabeza cilindro d =
      let head = u8 (cabeza * 2 ^ 2) in
      if ltb 1 head then (neg 1, d) else (0, fd_out cilindro (fd_out head (fd_out 0x0f d)))
