-- ===== src/Floppy/Motor.antt =====
-- `fd_ini` and `fd_seek` of fd/fd.c.
use native.Mathlib.Decide.{ℕ_discrete}
use silicio.Floppy.Poll.{Puts, fd_out-cases}
use silicio.Floppy.{Ports, Drive, fd_out, fd_in, fd_motor, fd_reset, fd_ini, fd_seek}
use silicio.Base.{ℕ, refl, ap, inl, inr, true, not, arith, ltb, lt→ltb, Bool-cases, u8, neg, ◌*◌}
use silicio.Base.{◌%◌, ◌^◌, ◌<◌, ◌≡◌, ◌≢◌, ◌⊎◌, ◌∙◌, ◌||◌, ◌==◌, if◌then◌else◌}

module _ {H : Type 0} (ports : Ports H) where
  open ports use {inb, outb}

  -- Neither byte register touches the motor.
  fd_out-estado : (val : ℕ) (d : Drive H) → (fd_out ports val d).fd_estado ≡ d.fd_estado
  unfolding fd_out
  fd_out-estado val d = ground arith

  fd_in-estado : (d : Drive H) → (fd_in ports d).1.fd_estado ≡ d.fd_estado
  unfolding fd_in
  fd_in-estado d = ground arith

  -- The drive behind the two reads that `fd_ini` decides by.
  abbrev pub asked : Drive H → ℕ × Drive H
  asked d = fd_in ports (fd_out ports 0x10 (fd_reset ports d))

  abbrev pub unit_type : Drive H → ℕ × H
  unit_type d = inb 0x71 (outb 0x70 0x10 (asked d).1.chip)

  asked-estado : (d : Drive H) → (asked d).1.fd_estado ≡ 0x0c
  unfolding fd_reset
  asked-estado d =
      fd_in-estado (fd_out ports 0x10 (fd_reset ports d)) ∙ fd_out-estado 0x10 (fd_reset ports d)

  motor_turn :
      (e : ℕ) (chip : H)
      → e ≡ 0x0c
      → fd_motor ports 0 (fd_motor ports 1 (record { fd_estado = e; chip = chip }))
        ≡ record { fd_estado = 0x0c; chip = outb 0x3f2 0x0c (outb 0x3f2 0x1c chip) }
  unfolding fd_motor
  motor_turn e chip h = rw h

  pub fd_ini-cases :
      (d : Drive H)
      → fd_ini ports d ≡ (
          if not ((asked d).0 == 0x80 || (asked d).0 == 0x90)
          then (1, record { fd_estado = 0x0c; chip = (asked d).1.chip })
          else if (unit_type d).0 == 0x40
          then (
            0,
            record { fd_estado = 0x0c; chip = outb 0x3f2 0x0c (outb 0x3f2 0x1c (unit_type d).1) },
          )
          else (2, record { fd_estado = 0x0c; chip = (unit_type d).1 }))
  unfolding fd_ini
  fd_ini-cases d =
      let e = asked-estado d in
      elim (Bool-cases ((asked d).0 == 0x80 || (asked d).0 == 0x90)) [
        | inl known ↦ elim (Bool-cases ((unit_type d).0 == 0x40)) [
          | inl high ↦
              rw (known, high)
                (ap (λ x. (0, x)) (motor_turn (asked d).1.fd_estado (unit_type d).1 e))
          | inr low ↦
              rw (known, low) (ap (λ x. (2, record { fd_estado = x; chip = (unit_type d).1 })) e)
        ]
        | inr other ↦ rw other (ap (λ x. (1, record { fd_estado = x; chip = (asked d).1.chip })) e)
      ]

  -- For a head below 256: where it is a multiple of 64, `fd_seek` returns 0, and puts the
  -- command, the byte 0 and the cylinder in this order, each sent once the controller is ready,
  -- or, where that is not within the 1000000 reads, sent only where the two bits of the last read
  -- are not both 0; for every other head, head 1 included, it returns -1 and sends nothing.
  pub fd_seek-cases :
      (cabeza cilindro : ℕ) (d : Drive H)
      → cabeza < 256
      → ((cabeza % 64 ≡ 0)
          × (d1 : Drive H) × (d2 : Drive H) × (d3 : Drive H) × (fd_seek ports cabeza cilindro d
              ≡ (0, d3))
          × Puts ports 0x0f d d1
          × Puts ports 0 d1 d2
          × Puts ports cilindro d2 d3)
        ⊎ ((cabeza % 64 ≢ 0) × (fd_seek ports cabeza cilindro d ≡ (neg 1, d)))
  unfolding fd_seek
  fd_seek-cases cabeza cilindro d h = elim (ℕ_discrete (cabeza % 64) 0) [
    | yes z ↦
        let e : u8 (cabeza * 2 ^ 2) ≡ 0 = omega arith in
        let d1 = fd_out ports 0x0f d in
        let d2 = fd_out ports 0 d1 in
        inl (
          z,
          d1,
          d2,
          fd_out ports cilindro d2,
          rw e refl,
          fd_out-cases ports 0x0f d,
          fd_out-cases ports 0 d1,
          fd_out-cases ports cilindro d2,
        )
    | no ne ↦
        let e : ltb 1 (u8 (cabeza * 2 ^ 2)) ≡ true = lt→ltb _ _ (omega arith) in inr (ne, rw e)
  ]
