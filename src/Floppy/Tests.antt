-- ===== src/Floppy/Tests.antt =====
-- Runs of the driver of fd/fd.c.
use silicio.Floppy.{Ports, Drive, rounds, fd_out, fd_ini, fd_seek}
use silicio.Floppy.Poll.{status, after, Busy, Puts, fd_out-cases}
use silicio.Floppy.Motor.{asked, unit_type, fd_ini-cases, fd_seek-cases}
use silicio.Base.{ℕ, suc, not, List, [], arith, neg, ◌+◌, ◌-◌, ◌%◌, ◌<◌, ◌≡◌, ◌≢◌, ◌⊎◌, ◌∷◌, ◌||◌}
use silicio.Base.{◌==◌, if◌then◌else◌}

-- A controller that is ready at its third read, and notes what it is sent; its reads are counted.
abbrev third : Ports (ℕ × List (ℕ × ℕ))
third = record {
  inb = λ port h. (if port == 0x71 then 0x40 else if h.0 == 2 then 0x80 else 0, (h.0 + 1, h.1));
  outb = λ port val h. (h.0, (port, val) ∷ h.1);
}

abbrev still : Drive (ℕ × List (ℕ × ℕ))
still = record { fd_estado = 0; chip = (0, []) }

fd_out_example :
    ((r : ℕ) × (r < rounds)
      × (status third 0xc0 r (0, []) ≡ 0x80)
      × Busy third 0xc0 0x80 r (0, [])
      × (fd_out third 7 still
          ≡ record still { chip = third.outb 0x3f5 7 (after third (suc r) (0, [])) }))
    ⊎ (Busy third 0xc0 0x80 rounds (0, [])
        × (fd_out third 7 still ≡ record still {
          chip =
              if status third 0xc0 (rounds - 1) (0, []) == 0
              then after third rounds (0, [])
              else third.outb 0x3f5 7 (after third rounds (0, []));
        }))
fd_out_example = fd_out-cases third 7 still

fd_ini_example : fd_ini third still ≡ (
    if not ((asked third still).0 == 0x80 || (asked third still).0 == 0x90)
    then (1, record { fd_estado = 0x0c; chip = (asked third still).1.chip })
    else if (unit_type third still).0 == 0x40
    then (
      0,
      record {
        fd_estado = 0x0c;
        chip = third.outb 0x3f2 0x0c (third.outb 0x3f2 0x1c (unit_type third still).1);
      },
    )
    else (2, record { fd_estado = 0x0c; chip = (unit_type third still).1 }))
fd_ini_example = fd_ini-cases third still

fd_seek_example :
    ((64 % 64 ≡ 0)
      × (d1 : Drive (ℕ × List (ℕ × ℕ))) × (d2 : Drive (ℕ × List (ℕ × ℕ))) × (d3 : Drive
          (ℕ × List (ℕ × ℕ)))
      × (fd_seek third 64 40 still ≡ (0, d3))
      × Puts third 0x0f still d1
      × Puts third 0 d1 d2
      × Puts third 40 d2 d3)
    ⊎ ((64 % 64 ≢ 0) × (fd_seek third 64 40 still ≡ (neg 1, still)))
fd_seek_example = fd_seek-cases third 64 40 still (omega arith)
