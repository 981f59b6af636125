-- ===== src/Interrupts/Table.antt =====
-- The interrupt table that `int_set` of int/int.c writes.
use silicio.Interrupts.{Gate, Handlers, ptoshort, add_int, null_gates, cpu_gates, int_set, reg_int}
use silicio.Base.{ℕ, zero, suc, refl, sym, arith, ltb, leb, update, update_self, update_ne, ◌+◌}
use silicio.Base.{◌*◌, ◌/◌, ◌^◌, ◌<◌, ◌≡◌, ◌≢◌, ◌&&◌, ◌==◌, if◌then◌else◌}
use silicio.Base.Bits.{bit_and_0xffff}

-- The gate leads to `addr`, in the kernel's code segment.
pub record LeadsTo (g : Gate) (addr acceso : ℕ) : Type 0 where
  pub target : g.desp_l + g.desp_h * 2 ^ 16 ≡ addr
  pub segment : g.selec ≡ 8
  pub access : g.acceso ≡ acceso
  pub count : g.cont ≡ 0

ptoshort_lem : (f : ℕ) → f < 2 ^ 32 → (ptoshort f).0 + (ptoshort f).1 * 2 ^ 16 ≡ f
unfolding ptoshort
ptoshort_lem f h = omega (arith, bit_and_0xffff f, bit_and_0xffff (f / 2 ^ 16))

-- The gate that `add_int` writes with the kernel's segment.
abbrev gate : ℕ → ℕ → Gate
gate f acceso = record {
  desp_l = (ptoshort f).0;
  selec = 8;
  cont = 0;
  acceso = acceso;
  desp_h = (ptoshort f).1;
}

gate-LeadsTo : (f acceso : ℕ) → f < 2 ^ 32 → LeadsTo (gate f acceso) f acceso
gate-LeadsTo f acceso h = record {
  target = ptoshort_lem f h;
  segment = refl;
  access = refl;
  count = refl;
}

null_gates-at :
    (left i : ℕ) (h : Handlers) (p : ℕ → Gate) (j : ℕ)
    → null_gates left i h p j ≡ (if leb i j && ltb j (i + left) then gate h.intnula 0x8e else p j)
unfolding null_gates add_int
null_gates-at zero i h p j = ground arith
null_gates-at (suc left) i h p j =
    ground (arith, null_gates-at left (i + 1) h (update p i (gate h.intnula 0x8e)) j)

cpu_gates-at :
    (left i : ℕ) (h : Handlers) (p : ℕ → Gate) (j : ℕ)
    → cpu_gates left i h p j
      ≡ (if leb i j && ltb j (i + left) then gate (h.int_cpu j) 0x8e else p j)
unfolding cpu_gates add_int
cpu_gates-at zero i h p j = ground arith
cpu_gates-at (suc left) i h p j =
    ground (arith, cpu_gates-at left (i + 1) h (update p i (gate (h.int_cpu i) 0x8e)) j)

-- The handler of an interrupt.
pub handler : Handlers → ℕ → ℕ
handler h i =
    if i == 0x41
    then h.int_soft_speed
    else if i == 17
    then h.int_hard_17
    else if ltb i 16
    then h.int_cpu i
    else h.intnula

-- The handlers lie in the 4 GB.
pub record InMemory (h : Handlers) : Type 0 where
  pub null_in : h.intnula < 2 ^ 32
  pub cpu_in : (i : ℕ) → i < 16 → h.int_cpu i < 2 ^ 32
  pub hard_in : h.int_hard_17 < 2 ^ 32
  pub soft_in : h.int_soft_speed < 2 ^ 32

int_set-gate :
    (h : Handlers) (p : ℕ → Gate) (i : ℕ)
    → i < 256
    → int_set h p i ≡ gate (handler h i) (if i == 0x41 then 0xee else 0x8e)
unfolding int_set add_int handler
int_set-gate h p i l =
    ground (arith, cpu_gates-at 16 0 h (null_gates 256 0 h p) i, null_gates-at 256 0 h p i)

handler-in : (h : Handlers) (i : ℕ) → InMemory h → handler h i < 2 ^ 32
unfolding handler
handler-in h i m = ground (arith, m.null_in, m.cpu_in i, m.hard_in, m.soft_in)

-- Where the handlers lie in the 4 GB, whatever the table held: after `int_set` each of the 256
-- gates leads to its handler in the segment of the kernel, the ones of the processor below 16,
-- the one of the keyboard at 17, the soft interrupt at 0x41, which user code may call (access
-- 0xee, the others 0x8e), and `intnula` at all the others; and `reg_int` returns 0, leads its
-- gate to the new handler, and changes no other.
pub int_set_lem :
    (h : Handlers) (p : ℕ → Gate) (n f : ℕ)
    → InMemory h
    → f < 2 ^ 32
    → ((i : ℕ) → i < 256 → LeadsTo (int_set h p i) (handler h i) (if i == 0x41 then 0xee else 0x8e))
      × ((reg_int n f (int_set h p)).0 ≡ 0)
      × LeadsTo ((reg_int n f (int_set h p)).1 n) f 0x8e
      × ((i : ℕ) → i ≢ n → (reg_int n f (int_set h p)).1 i ≡ int_set h p i)
unfolding reg_int add_int
int_set_lem h p n f m hf = (
  λ i l. rw (int_set-gate h p i l) (gate-LeadsTo (handler h i) _ (handler-in h i m)),
  refl,
  rw (update_self (int_set h p) n (gate f 0x8e)) (gate-LeadsTo f 0x8e hf),
  λ i ne. update_ne (int_set h p) (gate f 0x8e) (λ e. ne (sym e)),
)
