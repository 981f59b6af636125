-- ===== src/Interrupts.antt =====
-- int/int.c and include/idt.h: the interrupt table of the processor and the mask of the interrupt
-- controller.
pub mod Table
pub mod Mask
mod Tests
use silicio.Base.{ℕ, zero, suc, bit_and, bit_or, List, ltb, update, u8, u16, sext8, bit_not, neg}
use silicio.Base.{◌+◌, ◌-◌, ◌/◌, ◌^◌, ◌∷◌, ◌&&◌, if◌then◌else◌}

-- `idtp`, a gate of the interrupt table.
pub record Gate : Type 0 where
  pub desp_l : ℕ
  pub selec : ℕ
  pub cont : ℕ
  pub acceso : ℕ
  pub desp_h : ℕ

-- The addresses that the linker gives to the handlers; `int_cpu n` stands for `int_00` to `int_0f`
-- of the assembly.
pub record Handlers : Type 0 where
  pub intnula : ℕ
  pub int_cpu : ℕ → ℕ
  pub int_hard_17 : ℕ
  pub int_soft_speed : ℕ

-- The two halves of an address.
unfoldable pub ptoshort : ℕ → ℕ × ℕ
ptoshort func = (u16 (bit_and func 0xffff), u16 (bit_and (func / 2 ^ 16) 0xffff))

unfoldable pub add_int : (num_int funcion : ℕ) → (ℕ → Gate) → (acceso selec cont : ℕ) → ℕ → Gate
add_int num_int funcion p acceso selec cont =
    let (pl, ph) = ptoshort funcion in
    update p num_int
      (record { desp_l = pl; selec = selec; cont = cont; acceso = acceso; desp_h = ph })

-- The loop with `intnula` in every gate.
pub null_gates : ℕ → ℕ → Handlers → (ℕ → Gate) → ℕ → Gate
null_gates zero i h p = p
null_gates (suc left) i h p = null_gates left (i + 1) h (add_int i h.intnula p 0x8e 0x8 0)

-- The calls for the interrupts of the processor, one after the other.
pub cpu_gates : ℕ → ℕ → Handlers → (ℕ → Gate) → ℕ → Gate
cpu_gates zero i h p = p
cpu_gates (suc left) i h p = cpu_gates left (i + 1) h (add_int i (h.int_cpu i) p 0x8e 0x8 0)

pub int_set : Handlers → (ℕ → Gate) → ℕ → Gate
int_set h p =
    add_int 0x41 h.int_soft_speed
      (add_int 17 h.int_hard_17 (cpu_gates 16 0 h (null_gates 256 0 h p)) 0x8e 0x8 0) 0xee 0x8 0

-- Returns 0 with the new table.
pub reg_int : (n_int funcion : ℕ) → (ℕ → Gate) → ℕ × (ℕ → Gate)
reg_int n_int funcion idt_p = (0, add_int n_int funcion idt_p 0x8e 0x8 0)

-- `t_int`, and the bytes sent to ports, the last one first.
pub record Pic : Type 0 where
  pub t_int : ℕ
  pub out : List (ℕ × ℕ)

-- `outb(port, val)`
abbrev pub outb : ℕ → ℕ → Pic → Pic
outb port val s = record s { out = (port, val) ∷ s.out }

-- `t_int` with another value, sent to the controller.
abbrev set_mask : ℕ → Pic → Pic
set_mask v s = outb 0x21 (u8 v) (record s { t_int = u8 v })

-- `byte = 1 << n` is a signed `char`.
pub int_up : ℕ → Pic → ℕ × Pic
int_up n s =
    if ltb 15 n && ltb n 24
    then (0, set_mask (bit_and s.t_int (bit_not (sext8 (2 ^ (n - 16))))) s)
    else (neg 1, s)

pub int_down : ℕ → Pic → ℕ × Pic
int_down n s =
    if ltb 15 n && ltb n 24
    then (0, set_mask (bit_or s.t_int (sext8 (2 ^ (n - 16)))) s)
    else (neg 1, s)

-- `set_8259` of stdio/stdio.c: the start of the two controllers, with every interrupt but 1 masked.
pub set_8259 : Pic → Pic
set_8259 s0 =
    let s1 = outb 0xa0 0x11 (outb 0x20 0x11 s0) in
    let s2 = outb 0xa1 0x18 (outb 0x21 0x10 s1) in
    let s3 = outb 0xa1 0x02 (outb 0x21 0x04 s2) in
    let s4 = outb 0xa1 0x01 (outb 0x21 0x01 s3) in
    let s5 = outb 0xa1 0xff (outb 0x21 0xff s4) in outb 0x64 0xae (outb 0x21 0xfd s5)
