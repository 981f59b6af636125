-- ===== src/Task.antt =====
-- The tasks of exec/exec.c (with include/tss.h, include/gdt.h and include/exec.h): the tables that
-- the kernel keeps of them.
pub mod Gdt
pub mod TssTable
pub mod Space
pub mod Tests
use silicio.Strings.{Chars}
use silicio.Base.{ℕ, Option}

abbrev pub max_task : ℕ
max_task = 100

abbrev pub max_gdt : ℕ
max_gdt = 200

abbrev pub max_pag_driver : ℕ
max_pag_driver = 14

abbrev pub max_pag_virtual : ℕ
max_pag_virtual = 14

abbrev pub tss_port : ℕ
tss_port = 256

-- `struct tss`. `n` to `n10` are the fillers of the hardware's layout.
pub record Tss : Type 0 where
  pub b_link : ℕ
  pub n : ℕ
  pub esp0 : ℕ
  pub ss0 : ℕ
  pub n0 : ℕ
  pub esp1 : ℕ
  pub ss1 : ℕ
  pub n1 : ℕ
  pub esp2 : ℕ
  pub ss2 : ℕ
  pub n2 : ℕ
  pub cr3 : ℕ
  pub eip : ℕ
  pub eflag : ℕ
  pub eax : ℕ
  pub ecx : ℕ
  pub edx : ℕ
  pub ebx : ℕ
  pub esp : ℕ
  pub ebp : ℕ
  pub esi : ℕ
  pub edi : ℕ
  pub es : ℕ
  pub n3 : ℕ
  pub cs : ℕ
  pub n4 : ℕ
  pub ss : ℕ
  pub n5 : ℕ
  pub ds : ℕ
  pub n6 : ℕ
  pub fs : ℕ
  pub n7 : ℕ
  pub gs : ℕ
  pub n8 : ℕ
  pub ldt : ℕ
  pub n9 : ℕ
  pub n10 : ℕ
  pub bit_map : ℕ
  pub pag_mem : ℕ → ℕ
  pub pag_virtual : ℕ → ℕ
  pub pag_stack : ℕ
  pub iobp : ℕ → ℕ
  pub fin : ℕ

-- `sizeof(tss)` and the offset of `iobp` in it, as the compiler lays the fields out: 220 bytes to
-- `iobp`, its 256, `fin` and three of padding.
abbrev pub tss_size : ℕ
tss_size = 480

abbrev pub iobp_offset : ℕ
iobp_offset = 220

-- `gdtp`
pub record Descriptor : Type 0 where
  pub lim_l : ℕ
  pub base_l : ℕ
  pub base_m : ℕ
  pub acceso : ℕ
  pub lim_h : ℕ
  pub base_h : ℕ

-- `run`. A `tss *` is an index of `tss_p`, `none` the null pointer.
pub record Run : Type 0 where
  pub name : Chars
  pub task : ℕ
  pub task_tss : Option ℕ
  pub type : ℕ
  pub status : ℕ

abbrev pub running : ℕ
running = 1

abbrev pub starting : ℕ
starting = 2

abbrev pub sleeping : ℕ
sleeping = 3

abbrev pub waiting : ℕ
waiting = 4
