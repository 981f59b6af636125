-- ===== src/Interrupts/Tests.antt =====
-- Runs of int/int.c.
use silicio.Interrupts.{Gate, Handlers, Pic, int_set, reg_int, int_up, int_down}
use silicio.Interrupts.Mask.{int_mask}
use silicio.Interrupts.Table.{LeadsTo, InMemory, handler, int_set_lem}
use silicio.Base.{ℕ, not, [], arith, ◌+◌, ◌%◌, ◌<◌, ◌≡◌, ◌≢◌, ◌∷◌, ◌&&◌, ◌||◌, ◌==◌}
use silicio.Base.{if◌then◌else◌}
use silicio.Base.Bytes.{bit_at}

abbrev linked : Handlers
linked = record {
  intnula = 0x10_0000;
  int_cpu = λ n. 0x10_1000 + n % 16;
  int_hard_17 = 0x10_2000;
  int_soft_speed = 0x10_3000;
}

abbrev no_gate : Gate
no_gate = record { desp_l = 0; selec = 0; cont = 0; acceso = 0; desp_h = 0 }

linked-InMemory : InMemory linked
linked-InMemory = record {
  null_in = omega arith;
  cpu_in = λ i h. omega arith;
  hard_in = omega arith;
  soft_in = omega arith;
}

int_set_example :
    ((i : ℕ)
      → i < 256
      → LeadsTo
          (int_set linked (λ j. no_gate) i)
          (handler linked i)
          (if i == 0x41 then 0xee else 0x8e))
    × ((reg_int 18 0x10_4000 (int_set linked (λ j. no_gate))).0 ≡ 0)
    × LeadsTo ((reg_int 18 0x10_4000 (int_set linked (λ j. no_gate))).1 18) 0x10_4000 0x8e
    × ((i : ℕ)
        → i ≢ 18
        → (reg_int 18 0x10_4000 (int_set linked (λ j. no_gate))).1 i
          ≡ int_set linked (λ j. no_gate) i)
int_set_example = int_set_lem linked (λ j. no_gate) 18 0x10_4000 linked-InMemory (omega arith)

-- The mask that `task_control` sends.
abbrev masked : Pic
masked = record { t_int = 0xdc; out = [] }

int_mask_example :
    ((int_up 18 masked).0 ≡ 0)
    × ((int_down 18 masked).0 ≡ 0)
    × ((j : ℕ)
        → j < 8
        → bit_at (int_up 18 masked).1.t_int j ≡ (not (18 == 16 + j) && bit_at 0xdc j))
    × ((j : ℕ) → j < 8 → bit_at (int_down 18 masked).1.t_int j ≡ (18 == 16 + j || bit_at 0xdc j))
    × ((int_up 18 masked).1.out ≡ (0x21, (int_up 18 masked).1.t_int) ∷ [])
    × ((int_down 18 masked).1.out ≡ (0x21, (int_down 18 masked).1.t_int) ∷ [])
int_mask_example = int_mask 18 masked (omega arith)
