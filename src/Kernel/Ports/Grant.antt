-- ===== src/Kernel/Ports/Grant.antt =====
-- What `set_port` and `unset_port` of exec/exec.c change.
use silicio.Kernel.{Kernel}
use silicio.Kernel.Ports.{store_port, set_port, unset_port}
use silicio.Base.{ℕ, bit_and, bit_or, ap, inl, inr, Bool, true, false, some, arith, ltb}
use silicio.Base.{Bool-cases, update, update_self, update_ne, u8, bit_not, neg, ◌/◌, ◌%◌, ◌^◌}
use silicio.Base.{◌<◌, ◌≡◌, ◌≢◌, ◌⊎◌, ◌∙◌, ◌==◌, if◌then◌else◌}
use silicio.Base.Bytes.{bit_at, set_int_bit, clear_int_bit}

-- Port `p` in a map of ports.
abbrev pub port_bit : (ℕ → ℕ) → ℕ → Bool
port_bit m p = bit_at (m (p / 8)) (p % 8)

-- `m'` is `m` with the bit of port `p` set to `v` and no other change.
abbrev pub Sets : (m : ℕ → ℕ) (p : ℕ) (v : Bool) (m' : ℕ → ℕ) → Type 0
Sets m p v m' = (q : ℕ) → port_bit m' q ≡ (if q == p then v else port_bit m q)

cleared-Sets :
    (m : ℕ → ℕ) (p : ℕ)
    → ((i : ℕ) → m i < 256)
    → Sets m p false (update m (p / 8) (u8 (bit_and (m (p / 8)) (bit_not (2 ^ (p % 8))))))
cleared-Sets m p h q =
    ground
      (arith, clear_int_bit (m (p / 8)) (p % 8) (h (p / 8)) (omega arith) (q % 8) (omega arith))

set-Sets :
    (m : ℕ → ℕ) (p : ℕ)
    → ((i : ℕ) → m i < 256)
    → Sets m p true (update m (p / 8) (u8 (bit_or (m (p / 8)) (2 ^ (p % 8)))))
set-Sets m p h q =
    ground (arith, set_int_bit (m (p / 8)) (p % 8) (h (p / 8)) (omega arith) (q % 8) (omega arith))

module _ (p t : ℕ) (k : Kernel) (hp : p < 2048) (task : (k.r_tareas k.t_indice).task_tss ≡ some t)
    (ports : (i : ℕ) → k.r_port i < 256) (io : (i : ℕ) → (k.tss_p t).iobp i < 256) where
  -- For a port below 2048 whose byte in `r_port` is not 0, asked for by a task with the `tss`
  -- `t`, on maps of bytes: `set_port` returns 0, clears the port in `r_port` and in the map of
  -- the task, whether another task has it or not, and changes no other port of the two maps and
  -- no other `tss`.
  pub set_port_lem :
      (k.r_port (p / 8) == 0) ≡ false
      → (k' : Kernel) × (set_port p k ≡ some (0, k'))
        × Sets k.r_port p false k'.r_port
        × Sets (k.tss_p t).iobp p false (k'.tss_p t).iobp
        × ((j : ℕ) → t ≢ j → k'.tss_p j ≡ k.tss_p j)
  unfolding set_port store_port
  set_port_lem some_free =
      let inside : ltb (p / 8) 256 ≡ true = ground arith in
      (
        store_port t (p / 8) (bit_and (k.r_port (p / 8)) (bit_not (2 ^ (p % 8))))
            (bit_and ((k.tss_p t).iobp (p / 8)) (bit_not (2 ^ (p % 8)))) k,
        rw (inside, some_free, task),
        cleared-Sets k.r_port p ports,
        λ q.
            ap (λ r. port_bit r.iobp q) (update_self k.tss_p t _)
            ∙ cleared-Sets (k.tss_p t).iobp p io q,
        λ j ne. update_ne k.tss_p _ ne,
      )

  -- For a port below 2048 given back by a task with the `tss` `t`, on maps of bytes: `unset_port`
  -- returns 0 and sets the port in `r_port` and in the map of the task, whether the task had it
  -- or not, and changes no other port of the two maps and no other `tss`.
  pub unset_port_lem :
      (k' : Kernel) × (unset_port p k ≡ some (0, k'))
      × Sets k.r_port p true k'.r_port
      × Sets (k.tss_p t).iobp p true (k'.tss_p t).iobp
      × ((j : ℕ) → t ≢ j → k'.tss_p j ≡ k.tss_p j)
  unfolding unset_port store_port
  unset_port_lem =
      let inside : ltb (p / 8) 256 ≡ true = ground arith in
      (
        store_port t (p / 8) (bit_or (k.r_port (p / 8)) (2 ^ (p % 8)))
            (bit_or ((k.tss_p t).iobp (p / 8)) (2 ^ (p % 8))) k,
        rw (inside, task),
        set-Sets k.r_port p ports,
        λ q.
            ap (λ r. port_bit r.iobp q) (update_self k.tss_p t _)
            ∙ set-Sets (k.tss_p t).iobp p io q,
        λ j ne. update_ne k.tss_p _ ne,
      )

-- The port is set to `v` in `r_port` and in the map of the `tss` at `t`, and no other port of the
-- two maps and no other `tss` is changed.
pub record Changes (p t : ℕ) (v : Bool) (k k' : Kernel) : Type 0 where
  pub ports : Sets k.r_port p v k'.r_port
  pub io : Sets (k.tss_p t).iobp p v (k'.tss_p t).iobp
  pub others : (j : ℕ) → t ≢ j → k'.tss_p j ≡ k.tss_p j

-- For a port below 2048 and a task with the `tss` `t`, on maps of bytes: `set_port` returns -1
-- and changes nothing where the byte of the port in `r_port` is 0, and else returns 0 and clears
-- the port in `r_port` and in the map of the task, whether another task has it or not;
-- `unset_port` returns 0 and sets the port in both, whether the task had it or not; and neither
-- changes another port of the two maps or another `tss`.
pub port_cases :
    (p t : ℕ) (k : Kernel)
    → p < 2048
    → (k.r_tareas k.t_indice).task_tss ≡ some t
    → ((i : ℕ) → k.r_port i < 256)
    → ((i : ℕ) → (k.tss_p t).iobp i < 256)
    → (((k.r_port (p / 8) ≡ 0) × (set_port p k ≡ some (neg 1, k)))
        ⊎ ((k.r_port (p / 8) ≢ 0)
            × (k1 : Kernel) × (set_port p k ≡ some (0, k1))
            × Changes p t false k k1))
      × (k2 : Kernel) × (unset_port p k ≡ some (0, k2))
      × Changes p t true k k2
unfolding set_port
port_cases p t k hp task ports io =
    let (k2, e2, ports2, io2, others2) = unset_port_lem p t k hp task ports io in
    (
      elim (Bool-cases (k.r_port (p / 8) == 0)) [
        | inl z ↦ inl (ground arith, ground arith)
        | inr z ↦
            let (k1, e1, ports1, io1, others1) = set_port_lem p t k hp task ports io z in
            let live : k.r_port (p / 8) ≢ 0 = λ e. ground arith in
            inr (live, k1, e1, record { ports = ports1; io = io1; others = others1 })
      ],
      k2,
      e2,
      record { ports = ports2; io = io2; others = others2 },
    )
