-- ===== src/Task/Gdt.antt =====
-- The descriptors of exec/exec.c: `set_desc_tss` and `set_desc_ldt`, and what the processor reads
-- from the entries that they write.
use native.Mathlib.Decide.{dec_lt}
use native.Mathlib.Decide.{ℕ_discrete}
use silicio.Task.{Descriptor, max_gdt, tss_size}
use silicio.Base.{ℕ, zero, suc, bit_and, refl, inl, inr, true, false, arith, update, update_self}
use silicio.Base.{update_ne, u8, u16, ◌+◌, ◌-◌, ◌*◌, ◌/◌, ◌%◌, ◌^◌, ◌≤◌, ◌<◌, ◌≡◌, ◌≢◌, ◌⊎◌, ◌∙◌}
use silicio.Base.{◌==◌, if◌then◌else◌}
use silicio.Base.Bits.{bit_and_0xff, bit_and_0xffff}

abbrev pub Gdt : Type 0
Gdt = ℕ → Descriptor

-- `while (d[i].acceso != 0 && i < MAX_GDT)` with `left` rounds to `max_gdt`.
pub free_entry : ℕ → ℕ → Gdt → ℕ
free_entry zero i d = i
free_entry (suc left) i d = elim ((d i).acceso == 0) [
  | true ↦ i
  | false ↦ free_entry left (i + 1) d
]

-- The fields of the descriptor of the `tss` at `tssp`.
pub tss_desc : ℕ → Descriptor
tss_desc tssp = record {
  lim_l = u16 (bit_and tss_size 0xffff);
  base_l = u16 (bit_and tssp 0xffff);
  base_m = u8 (bit_and (tssp / 2 ^ 16) 0xff);
  acceso = 0x89;
  lim_h = u8 (bit_and (tss_size / 2 ^ 16) 0xf + 0xc0);
  base_h = u8 (bit_and (tssp / 2 ^ 24) 0xff);
}

-- The task gate after it: `f` is the byte offset of the descriptor. Both limit fields stay.
pub gate_desc : ℕ → Descriptor → Descriptor
gate_desc f old = record old {
  base_l = u16 (bit_and f 0xffff);
  base_m = u8 (bit_and (f / 2 ^ 16) 0xff);
  acceso = 0x85;
  base_h = u8 (bit_and (f / 2 ^ 24) 0xff);
}

pub set_desc_tss : ℕ → Gdt → ℕ × Gdt
set_desc_tss tssp d =
    let i = free_entry (max_gdt - 4) 4 d in
    if i == max_gdt
    then (0, d)
    else (let d1 = update d i (tss_desc tssp) in
        (i + 1, update d1 (i + 1) (gate_desc (i * 8) (d1 (i + 1)))))

-- `TAM_LDT - 1`
abbrev pub ldt_limit : ℕ
ldt_limit = 39

pub set_desc_ldt : (ldt_p : ℕ) → ℕ → Gdt → Gdt
set_desc_ldt ldt_p i d = update d i (record {
  lim_l = u16 (bit_and ldt_limit 0xffff);
  base_l = u16 (bit_and ldt_p 0xffff);
  base_m = u8 (bit_and (ldt_p / 2 ^ 16) 0xff);
  acceso = 0x82;
  lim_h = u8 (bit_and (ldt_limit / 2 ^ 16) 0xf + 0xc0);
  base_h = u8 (bit_and (ldt_p / 2 ^ 24) 0xff);
})

pub ini_ldt : (ldt_p : ℕ) → Gdt → Gdt
ini_ldt ldt_p d = set_desc_ldt ldt_p (0x18 / 8) d

-- The base and the limit, before its granularity, that the processor reads from an entry.
abbrev pub desc_base : Descriptor → ℕ
desc_base e = e.base_l + e.base_m * 2 ^ 16 + e.base_h * 2 ^ 24

abbrev pub desc_limit : Descriptor → ℕ
desc_limit e = e.lim_l + e.lim_h % 16 * 2 ^ 16

-- A descriptor holds the address that it was made from.
pub tss_desc_base :
    (tssp : ℕ)
    → tssp < 2 ^ 32
    → (desc_base (tss_desc tssp) ≡ tssp) × (desc_limit (tss_desc tssp) ≡ tss_size)
unfolding tss_desc
tss_desc_base tssp h = (
  omega (arith, bit_and_0xffff tssp, bit_and_0xff (tssp / 2 ^ 16), bit_and_0xff (tssp / 2 ^ 24)),
  refl,
)

-- The entries in use are those from 4 below `n`.
pub record IsPrefix (d : Gdt) (n : ℕ) : Type 0 where
  pub low : 4 ≤ n
  pub taken : (i : ℕ) → 4 ≤ i → i < n → (d i).acceso ≢ 0
  pub free : (i : ℕ) → n ≤ i → (d i).acceso ≡ 0

free_entry_lem :
    (left i n : ℕ) (d : Gdt) → IsPrefix d n → 4 ≤ i → i ≤ n → n ≤ i + left → free_entry left i d ≡ n
unfolding free_entry
free_entry_lem zero i n d h lo le hi = omega arith
free_entry_lem (suc left) i n d h lo le hi = elim (ℕ_discrete i n) [
  | yes e ↦
      let z : ((d i).acceso == 0) ≡ true = rw e (ground (arith, h.free n)) in rw (z, free_entry) e
  | no ne ↦
      let z : ((d i).acceso == 0) ≡ false = ground (arith, h.taken i) in
      rw (z, free_entry)
        (free_entry_lem left (i + 1) n d h (omega arith) (omega arith) (omega arith))
]

free_entry_full :
    (left i n : ℕ) (d : Gdt) → IsPrefix d n → 4 ≤ i → i + left ≤ n → free_entry left i d ≡ i + left
unfolding free_entry
free_entry_full zero i n d h lo hi = omega arith
free_entry_full (suc left) i n d h lo hi =
    let z : ((d i).acceso == 0) ≡ false = ground (arith, h.taken i) in
    rw (z, free_entry)
      (omega (arith, free_entry_full left (i + 1) n d h (omega arith) (omega arith)))

-- `d'` is `d` with the task at `tssp` added behind its `n` entries: a present, available 32-bit TSS
-- descriptor of that base and the size of a `tss`, a task gate that selects it, and no other change.
pub record Adds (tssp n : ℕ) (d d' : Gdt) : Type 0 where
  pub base : desc_base (d' n) ≡ tssp
  pub limit : desc_limit (d' n) ≡ tss_size
  pub kind : (d' n).acceso ≡ 0x89
  pub gate : (d' (n + 1)).base_l ≡ n * 8
  pub gate_kind : (d' (n + 1)).acceso ≡ 0x85
  pub others : (j : ℕ) → (j < n) ⊎ (n + 2 ≤ j) → d' j ≡ d j
  pub in_front : IsPrefix d' (n + 2)

abbrev with_task : ℕ → ℕ → Gdt → Gdt
with_task tssp n d =
    let d1 = update d n (tss_desc tssp) in update d1 (n + 1) (gate_desc (n * 8) (d1 (n + 1)))

with_task-Adds :
    (tssp n : ℕ) (d : Gdt)
    → tssp < 2 ^ 32
    → n < max_gdt
    → IsPrefix d n
    → Adds tssp n d (with_task tssp n d)
unfolding gate_desc
with_task-Adds tssp n d word room h =
    let d1 = update d n (tss_desc tssp) in
    let at_n : with_task tssp n d n ≡ tss_desc tssp =
      update_ne d1 (gate_desc (n * 8) (d1 (n + 1))) (omega arith)
      ∙ update_self d n (tss_desc tssp) in
    let at_gate : with_task tssp n d (n + 1) ≡ gate_desc (n * 8) (d1 (n + 1)) =
      update_self d1 (n + 1) (gate_desc (n * 8) (d1 (n + 1))) in
    let kind : (with_task tssp n d n).acceso ≡ 0x89 = unfold tss_desc in rw at_n in
    let gate_kind : (with_task tssp n d (n + 1)).acceso ≡ 0x85 = rw at_gate in
    let others : (j : ℕ) → (j < n) ⊎ (n + 2 ≤ j) → with_task tssp n d j ≡ d j = λ j c.
      update_ne d1 (gate_desc (n * 8) (d1 (n + 1))) (ground arith)
      ∙ update_ne d (tss_desc tssp) (ground arith) in
    record {
      base = rw at_n (tss_desc_base tssp word).0;
      limit = rw at_n (tss_desc_base tssp word).1;
      kind = kind;
      gate = rw at_gate (omega (arith, bit_and_0xffff (n * 8)));
      gate_kind = gate_kind;
      others = others;
      in_front = record {
        low = omega (arith, h.low);
        taken = λ i lo hi. elim (ℕ_discrete i n) [
          | yes e ↦ rw e (omega (arith, kind))
          | no ne ↦ elim (ℕ_discrete i (n + 1)) [
            | yes e ↦ rw e (omega (arith, gate_kind))
            | no ne' ↦ rw (others i (inl (omega arith))) (h.taken i lo (omega arith))
          ]
        ];
        free = λ i lo. rw (others i (inr lo)) (h.free i (omega arith));
      };
    }

-- For a `tss` below 2 ^ 32 and a GDT whose used entries from 4 on are those below `n`, with `n`
-- below 200, `set_desc_tss` returns `n + 1`; entry `n` describes a TSS of that base and of the
-- size of a `tss`, entry `n + 1` is a task gate that selects it, and no other entry has changed.
pub set_desc_tss_lem :
    (tssp n : ℕ) (d : Gdt)
    → tssp < 2 ^ 32
    → IsPrefix d n
    → n < max_gdt
    → (d' : Gdt) × (set_desc_tss tssp d ≡ (n + 1, d')) × Adds tssp n d d'
unfolding set_desc_tss
set_desc_tss_lem tssp n d word h room =
    let e : free_entry (max_gdt - 4) 4 d ≡ n =
      free_entry_lem 196 4 n d h (omega arith) h.low (omega arith) in
    let test : (n == max_gdt) ≡ false = ground arith in
    (with_task tssp n d, rw (e, test), with_task-Adds tssp n d word room h)

-- On a GDT whose used entries from 4 on are those below `n`, with `n` at least 200,
-- `set_desc_tss` returns 0 and writes nothing.
pub set_desc_tss-full :
    (tssp n : ℕ) (d : Gdt) → IsPrefix d n → max_gdt ≤ n → set_desc_tss tssp d ≡ (0, d)
unfolding set_desc_tss
set_desc_tss-full tssp n d h full = rw (free_entry_full 196 4 n d h (omega arith) (omega arith))

-- For a `tss` below 2 ^ 32 and a GDT whose used entries from 4 on are those below `n`: with `n`
-- below 200, `set_desc_tss` returns `n + 1`, entry `n` describes a TSS of that base and of the
-- size of a `tss`, entry `n + 1` is a task gate that selects it, and no other entry has changed;
-- with `n` at least 200 it returns 0 and writes nothing.
pub set_desc_tss-cases :
    (tssp n : ℕ) (d : Gdt)
    → tssp < 2 ^ 32
    → IsPrefix d n
    → ((n < max_gdt) × (d' : Gdt) × (set_desc_tss tssp d ≡ (n + 1, d')) × Adds tssp n d d')
      ⊎ ((max_gdt ≤ n) × (set_desc_tss tssp d ≡ (0, d)))
set_desc_tss-cases tssp n d word h = elim (dec_lt n max_gdt) [
  | yes room ↦ let (d', e, adds) = set_desc_tss_lem tssp n d word h room in inl (room, d', e, adds)
  | no full ↦ inr (omega arith, set_desc_tss-full tssp n d h (omega arith))
]

-- The descriptor of the LDT is entry 3, before those of the tasks.
pub ini_ldt-IsPrefix : (ldt_p n : ℕ) (d : Gdt) → IsPrefix d n → IsPrefix (ini_ldt ldt_p d) n
unfolding ini_ldt set_desc_ldt
ini_ldt-IsPrefix ldt_p n d h = record {
  low = h.low;
  taken = λ i lo hi. ground (arith, h.taken i);
  free = λ i lo. ground (arith, h.free i, h.low);
}
