-- ===== src/Floppy/Poll.antt =====
-- What the driver of fd/fd.c sends to the controller, ready or not.
use silicio.Floppy.{Ports, Drive, rounds, poll, fd_out}
use silicio.Base.{ℕ, zero, suc, bit_and, refl, ap, inl, inr, false, arith, ==_iff, Bool-cases}
use silicio.Base.{◌-◌, ◌<◌, ◌≡◌, ◌≢◌, ◌⊎◌, ◌∙◌, ◌==◌, if◌then◌else◌}

module _ {H : Type 0} (ports : Ports H) where
  open ports use {inb, outb}

  -- The controller after `n` reads of its state register, and the bits that read `n` gives.
  abbrev pub after : ℕ → H → H
  after zero chip = chip
  after (suc n) chip = after n (inb 0x3f4 chip).1

  abbrev pub status : (mask n : ℕ) → H → ℕ
  status mask n chip = bit_and (inb 0x3f4 (after n chip)).0 mask

  -- Of the first `n` reads none gives `want`.
  abbrev pub Busy : (mask want n : ℕ) → H → Type 0
  Busy mask want n chip = (q : ℕ) → q < n → status mask q chip ≢ want

  Busy-next :
      (mask want n : ℕ) (chip : H)
      → status mask 0 chip ≢ want
      → Busy mask want n (inb 0x3f4 chip).1
      → Busy mask want (suc n) chip
  Busy-next mask want n chip ne later zero h = ne
  Busy-next mask want n chip ne later (suc q) h = later q (omega arith)

  last_read :
      (mask n c : ℕ) (chip : H)
      → (if n == 0 then status mask 0 chip else status mask (n - 1) (inb 0x3f4 chip).1)
        ≡ (if suc n == 0 then c else status mask (suc n - 1) chip)
  last_read mask zero c chip = refl
  last_read mask (suc n) c chip =
      let e : suc n - 1 ≡ n = omega arith in
      let e' : suc (suc n) - 1 ≡ suc n = omega arith in
      let z : (suc n == 0) ≡ false = ground arith in
      let z' : (suc (suc n) == 0) ≡ false = ground arith in rw (e, e', z, z')

  -- The loop ends at the first read that gives `want`, or after its last round.
  pub poll_lem :
      (left mask want c : ℕ) (chip : H)
      → ((r : ℕ) × (r < left)
          × (status mask r chip ≡ want)
          × Busy mask want r chip
          × (poll ports left mask want c chip ≡ (want, after (suc r) chip)))
        ⊎ (Busy mask want left chip
            × (poll ports left mask want c chip
                ≡ (if left == 0 then c else status mask (left - 1) chip, after left chip)))
  unfolding poll
  poll_lem zero mask want c chip = inr (λ q h. absurd (omega arith), refl)
  poll_lem (suc left) mask want c chip = elim (Bool-cases (status mask 0 chip == want)) [
    | inl here ↦
        let e : status mask 0 chip ≡ want = (==_iff (status mask 0 chip) want).0 here in
        inl (
          0,
          omega arith,
          e,
          λ q h. absurd (omega arith),
          rw (here, poll) (ap (λ v. (v, (inb 0x3f4 chip).1)) e),
        )
    | inr off ↦
        let ne : status mask 0 chip ≢ want = λ e. ground arith in
        elim (poll_lem left mask want (status mask 0 chip) (inb 0x3f4 chip).1) [
          | inl p ↦
              let (r, l, at, busy, eq) = p in
              inl (suc r, omega arith, at, Busy-next mask want r chip ne busy, rw (off, poll) eq)
          | inr p ↦
              let (busy, eq) = p in
              inr (
                Busy-next mask want left chip ne busy,
                rw (off, poll)
                    (eq
                      ∙ ap (λ v. (v, after left (inb 0x3f4 chip).1)) (last_read mask left c chip)),
              )
        ]
  ]

  -- `fd_out` by the result of its loop.
  fd_out-of :
      (val : ℕ) (d : Drive H) {c : ℕ} {chip : H}
      → poll ports rounds 0xc0 0x80 0 d.chip ≡ (c, chip)
      → fd_out ports val d
        ≡ (if c == 0 then record d { chip = chip } else record d { chip = outb 0x3f5 val chip })
  unfolding fd_out
  fd_out-of val d e = rw e

  sent :
      (val : ℕ) (d : Drive H) (c : ℕ) (chip : H)
      → (if c == 0 then record d { chip = chip } else record d { chip = outb 0x3f5 val chip })
        ≡ record d { chip = if c == 0 then chip else outb 0x3f5 val chip }
  sent val d c chip = ground arith

  -- From `d` to `d'` the byte is sent once the controller is ready; or, where no read of the loop
  -- says so, it is sent only where the two bits of the last read are not both 0.
  abbrev pub Puts : (val : ℕ) (d d' : Drive H) → Type 0
  Puts val d d' =
      ((r : ℕ) × (r < rounds)
        × (status 0xc0 r d.chip ≡ 0x80)
        × Busy 0xc0 0x80 r d.chip
        × (d' ≡ record d { chip = outb 0x3f5 val (after (suc r) d.chip) }))
      ⊎ (Busy 0xc0 0x80 rounds d.chip
          × (d' ≡ record d {
            chip =
                if status 0xc0 (rounds - 1) d.chip == 0
                then after rounds d.chip
                else outb 0x3f5 val (after rounds d.chip);
          }))

  -- For every controller: it comes to be ready within the 1000000 reads of `fd_out`, which sends
  -- the byte after the first read that says so; or it does not, and after all the reads `fd_out`
  -- returns without sending where the two bits of the last read are 0, and sends the byte all the
  -- same where they are not.
  pub fd_out-cases :
      (val : ℕ) (d : Drive H)
      → ((r : ℕ) × (r < rounds)
          × (status 0xc0 r d.chip ≡ 0x80)
          × Busy 0xc0 0x80 r d.chip
          × (fd_out ports val d ≡ record d { chip = outb 0x3f5 val (after (suc r) d.chip) }))
        ⊎ (Busy 0xc0 0x80 rounds d.chip
            × (fd_out ports val d ≡ record d {
              chip =
                  if status 0xc0 (rounds - 1) d.chip == 0
                  then after rounds d.chip
                  else outb 0x3f5 val (after rounds d.chip);
            }))
  fd_out-cases val d = elim (poll_lem rounds 0xc0 0x80 0 d.chip) [
    | inl p ↦ let (r, l, at, busy, eq) = p in inl (r, l, at, busy, fd_out-of val d eq)
    | inr p ↦
        let (busy, eq) = p in
        inr (
          busy,
          fd_out-of val d eq ∙ sent val d (status 0xc0 (rounds - 1) d.chip) (after rounds d.chip),
        )
  ]
