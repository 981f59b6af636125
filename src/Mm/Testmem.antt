-- ===== src/Mm/Testmem.antt =====
-- `testmem` of mm/mm.c: the size of the memory, found by writing and reading back.
use native.Mathlib.Decide.{dec_lt, ℕ_discrete}
use silicio.Base.{ℕ, zero, suc, refl, inl, inr, Option, none, some, arith, u32, sub32, ◌+◌, ◌-◌}
use silicio.Base.{◌*◌, ◌/◌, ◌^◌, ◌≤◌, ◌<◌, ◌≡◌, ◌≢◌, ◌⊎◌, ◌∙◌, ◌==◌, if◌then◌else◌, ◌>>=◌}

-- The memory bus, which is no code: reads and writes of bytes through a state, and what they do
-- where there is memory, below `top`, and above it.
pub record Ram : Type 1 where
  pub State : Type 0
  pub peek : ℕ → State → ℕ
  pub poke : ℕ → ℕ → State → State
  pub top : ℕ
  pub peek-poke_self : (a v : ℕ) (s : State) → a < top → peek a (poke a v s) ≡ v
  pub peek-poke_ne : (a b v : ℕ) (s : State) → a ≢ b → peek b (poke a v s) ≡ peek b s
  pub peek-poke_absent : (a v : ℕ) (s : State) → top ≤ a → peek a (poke a v s) ≢ 1

-- The rounds of a loop that one step of the size search may need: 4 GB in steps of 1 MB.
abbrev pub probe_fuel : ℕ
probe_fuel = 4097

module _ (ram : Ram) where
  open ram use {State, peek, poke, top}

  -- The `while` loop, with `aux` holding what stood at `i`: `none` is out of fuel.
  pub probe : ℕ → ℕ → ℕ → ℕ → State → Option (ℕ × State)
  probe zero salto i aux s = none
  probe (suc f) salto i aux s =
      let s1 = poke i aux s in
      let i1 = u32 (i + salto) in
      let rest = probe f salto i1 (peek i1 s1) (poke i1 1 s1) in
      if peek i s == 1 then rest else some (i, s)

  -- One round of the `for` loop.
  pub cycle : ℕ → ℕ → State → Option (ℕ × State)
  cycle salto i s = do
    (i', s') ← probe probe_fuel salto i (peek i s) (poke i 1 s)
    some (sub32 i' salto, s')

  -- `kernel_fin` is the address that the linker gives to the end of the kernel.
  pub testmem : ℕ → State → Option (ℕ × State)
  testmem kernel_fin s = do
    (i, s1) ← cycle (2 ^ 20) kernel_fin s
    (j, s2) ← cycle (2 ^ 10) i s1
    (k, s3) ← cycle 1 j s2
    some (u32 (k + 1) / 4096, s3)

  -- Every byte of the memory is as it was.
  abbrev pub Agrees : State → State → Type 0
  Agrees s t = (a : ℕ) → a < top → peek a t ≡ peek a s

  -- The loop ends past the memory, by one step if it started inside.
  record Probed (salto i : ℕ) (s : State) (r : Option (ℕ × State)) : Type 0 where
    addr : ℕ
    state : State
    returns : r ≡ some (addr, state)
    past : top ≤ addr
    near : (addr ≡ i) ⊎ ((i + salto ≤ addr) × (addr < top + salto))
    agrees : Agrees s state

  restored : (i : ℕ) (s : State) → i < top → Agrees s (poke i (peek i s) (poke i 1 s))
  restored i s h a ha = elim (ℕ_discrete i a) [
    | yes e ↦ rw (← e) (ram.peek-poke_self i (peek i s) (poke i 1 s) h)
    | no ne ↦ ram.peek-poke_ne i a (peek i s) (poke i 1 s) ne ∙ ram.peek-poke_ne i a 1 s ne
  ]

  probe-stops :
      (f salto i : ℕ) (s : State)
      → top ≤ i
      → Probed salto i s (probe (suc f) salto i (peek i s) (poke i 1 s))
  unfolding probe
  probe-stops f salto i s out = record {
    addr = i;
    state = poke i 1 s;
    returns = ground (arith, ram.peek-poke_absent i 1 s out);
    past = out;
    near = inl refl;
    agrees = λ a h. ram.peek-poke_ne i a 1 s (omega arith);
  }

  probe-step :
      (f salto i : ℕ) (s : State)
      → i < top
      → i + salto < 2 ^ 32
      → probe (suc f) salto i (peek i s) (poke i 1 s) ≡ (
          let s1 = poke i (peek i s) (poke i 1 s) in
          probe f salto (i + salto) (peek (i + salto) s1) (poke (i + salto) 1 s1))
  unfolding probe
  probe-step f salto i s inside word =
      let e : u32 (i + salto) ≡ i + salto = omega arith in rw (ram.peek-poke_self i 1 s inside, e)

  probe-Probed :
      (f salto i : ℕ) (s : State)
      → 0 < salto
      → top + salto ≤ 2 ^ 32
      → top ≤ i + f * salto
      → i < top + salto
      → Probed salto i s (probe (suc f) salto i (peek i s) (poke i 1 s))
  probe-Probed zero salto i s pos word fuel bound = probe-stops zero salto i s (omega arith)
  probe-Probed (suc f) salto i s pos word fuel bound = elim (dec_lt i top) [
    | no out ↦ probe-stops (suc f) salto i s (omega arith)
    | yes inside ↦
        let rest =
          probe-Probed f salto (i + salto) (poke i (peek i s) (poke i 1 s)) pos word (omega arith)
            (omega arith) in
        rw (probe-step (suc f) salto i s inside (omega arith)) (record {
          addr = rest.addr;
          state = rest.state;
          returns = rest.returns;
          past = rest.past;
          near = inr (omega (arith, rest.near), omega (arith, rest.near));
          agrees = λ a h. rest.agrees a h ∙ restored i s inside a h;
        })
  ]

  -- One round starts at an address of the memory and ends at one, at most a step below the top.
  cycle_lem :
      (salto i : ℕ) (s : State)
      → 0 < salto
      → top + salto ≤ 2 ^ 32
      → top ≤ i + 4096 * salto
      → i < top
      → (j : ℕ) × (s' : State) × (cycle salto i s ≡ some (j, s'))
        × (j < top)
        × (top ≤ j + salto)
        × Agrees s s'
  unfolding cycle
  cycle_lem salto i s pos word fuel inside =
      let r = probe-Probed 4096 salto i s pos word fuel (omega arith) in
      let e : sub32 r.addr salto ≡ r.addr - salto = omega (arith, r.past, r.near) in
      (
        r.addr - salto,
        r.state,
        rw (r.returns, e),
        omega (arith, r.past, r.near),
        omega (arith, r.past, r.near),
        r.agrees,
      )

-- Where the kernel ends below the top of a memory of at most 4 GB - 1 MB, the loops of `testmem`
-- end within their fuel, it returns the number of whole pages of the memory, and every byte of
-- the memory is as it was.
pub testmem_lem :
    (ram : Ram) (kernel_fin : ℕ) (s : ram.State)
    → kernel_fin < ram.top
    → ram.top + 2 ^ 20 ≤ 2 ^ 32
    → (s' : ram.State) × (testmem ram kernel_fin s ≡ some (ram.top / 4096, s')) × Agrees ram s s'
unfolding testmem
testmem_lem ram kernel_fin s inside word =
    let (i, s1, eq1, in1, near1, a1) =
      cycle_lem ram (2 ^ 20) kernel_fin s (omega arith) word (omega arith) inside in
    let (j, s2, eq2, in2, near2, a2) =
      cycle_lem ram (2 ^ 10) i s1 (omega arith) (omega arith) (omega arith) in1 in
    let (k, s3, eq3, in3, near3, a3) =
      cycle_lem ram 1 j s2 (omega arith) (omega arith) (omega arith) in2 in
    let e : u32 (k + 1) ≡ ram.top = omega arith in
    (s3, rw (eq1, eq2, eq3, e), λ a h. a3 a h ∙ a2 a h ∙ a1 a h)
