-- ===== src/Start.antt =====
-- `_main` and `open_mod_vbe` of main/main.c: the start of the kernel, which puts the parts of the
-- program together. The messages on the console are left out.
pub mod Modules
pub mod Order
pub mod KernelTasks
pub mod Ready
pub mod First
pub mod FirstTurn
pub mod Main
pub mod Turns
pub mod Tests
mod TurnTests
use silicio.Strings.{Chars, from, literal}
use silicio.Multiboot.{ModulesInfo, Loader, named}
use silicio.Font.{Font}
use silicio.Font.Table.{open_mod_font}
use silicio.Font.Draw.{Vbe}
use silicio.Bitmap.{BmpHeader, bmp2vbe}
use silicio.Bitmap.Header.{background_name, open_mod_bmp}
use silicio.Console.Screen.{Screen, cls}
use silicio.Interrupts.{Gate, Handlers, Pic, int_set, add_int, set_8259}
use silicio.Mm.{addr2pag, set_mem_off}
use silicio.Mm.Testmem.{Ram}
use silicio.Mm.Boot.{ini_mm}
use silicio.Mm.Paging.{ini_pag}
use silicio.Task.Gdt.{ini_ldt}
use silicio.Kernel.{Kernel, Layout}
use silicio.Kernel.Boot.{ini_tss}
use silicio.Kernel.Exec.{exec, execs}
use silicio.Kernel.Schedule.{task_control}
use silicio.Base.{ℕ, zero, suc, Bool, true, false, not, Option, none, some, [], u16, u32, sub32}
use silicio.Base.{◌+◌, ◌-◌, ◌*◌, ◌∷◌, ◌>>=◌, ◌==◌, if◌then◌else◌, ◌>>=◌, ◌>>◌}

-- The addresses that the linker gives to what the start of the kernel names, and those of the two
-- stacks of `_main`.
pub record Image : Type 0 where
  pub kernel_fin : ℕ
  pub ldt_p : ℕ
  pub task_control : ℕ
  pub sys_call : ℕ
  pub sys_control : ℕ
  pub stack_call : ℕ
  pub stack_control : ℕ
  pub layout : Layout
  pub handlers : Handlers

-- The state that the parts keep; `task_reg` is the processor's, loaded by `ltr`.
pub record System : Type 0 where
  pub kernel : Kernel
  pub screen : Screen
  pub pic : Pic
  pub idt_p : ℕ → Gate
  pub font : Font
  pub vbe_header : Vbe
  pub task_reg : ℕ

-- What the place of `ret` of `strcmp` holds, at each module: for the search of the picture and for
-- the two comparisons of the loop of `_main`.
pub record Junk : Type 0 where
  pub bmp : ℕ → ℕ
  pub start : ℕ → ℕ
  pub background : ℕ → ℕ

-- How `_main` ends: by one of its two returns, or in `task_control`.
pub data Outcome : Type 0 where
  no_modules : Outcome
  no_start : Outcome
  controlling : Outcome

-- "/boot/task_control.sys", "/boot/sys_call.sys", "/boot/sys_control.sys" and "/boot/start.bin"
abbrev pub task_control_name : Chars
task_control_name = literal (
    b'/' ∷ b'b' ∷ b'o' ∷ b'o' ∷ b't' ∷ b'/' ∷ b't' ∷ b'a' ∷ b's' ∷ b'k' ∷ b'_' ∷ b'c' ∷ b'o' ∷ b'n'
    ∷ b't' ∷ b'r' ∷ b'o' ∷ b'l' ∷ b'.' ∷ b's' ∷ b'y' ∷ b's' ∷ [])

abbrev pub sys_call_name : Chars
sys_call_name = literal (
    b'/' ∷ b'b' ∷ b'o' ∷ b'o' ∷ b't' ∷ b'/' ∷ b's' ∷ b'y' ∷ b's' ∷ b'_' ∷ b'c' ∷ b'a' ∷ b'l' ∷ b'l'
    ∷ b'.' ∷ b's' ∷ b'y' ∷ b's' ∷ [])

abbrev pub sys_control_name : Chars
sys_control_name = literal (
    b'/' ∷ b'b' ∷ b'o' ∷ b'o' ∷ b't' ∷ b'/' ∷ b's' ∷ b'y' ∷ b's' ∷ b'_' ∷ b'c' ∷ b'o' ∷ b'n' ∷ b't'
    ∷ b'r' ∷ b'o' ∷ b'l' ∷ b'.' ∷ b's' ∷ b'y' ∷ b's' ∷ [])

abbrev pub start_name : Chars
start_name = literal (
    b'/' ∷ b'b' ∷ b'o' ∷ b'o' ∷ b't' ∷ b'/' ∷ b's' ∷ b't' ∷ b'a' ∷ b'r' ∷ b't' ∷ b'.' ∷ b'b' ∷ b'i'
    ∷ b'n' ∷ [])

-- The mode of the screen that the loader has set, or the text mode.
pub open_mod_vbe : Loader → ℕ × Vbe
open_mod_vbe loader =
    let mode = loader.multi.vbe_mode in
    if not (mode == 0)
    then (
      mode,
      record {
        x = loader.info.x_resolution;
        y = loader.info.y_resolution;
        xy = u32 (loader.info.x_resolution * loader.info.y_resolution);
        color = loader.info.bits_per_pixel;
        addr = loader.info.phys_base;
      },
    )
    else (mode, record { x = 80; y = 25; xy = 80 * 25; color = 0; addr = 0xb8000 })

-- `mod_info++` while `mod_count < mods_count`, `left` rounds: the index where the pointer stands.
pub last_module : (left i : ℕ) → ℕ
last_module zero i = i
last_module (suc left) i = last_module left (i + 1)

-- From `open_mod_font` to the picture, or the empty screen. `bmp_header` is the local of `_main`.
pub open_screen : Junk → Loader → BmpHeader → System → System
open_screen junk loader bmp_header s =
    let vbe = (open_mod_vbe loader).1 in
    let (aux, bmp) = open_mod_bmp junk.bmp loader s.kernel.bytes bmp_header in
    let s1 : System = record s { font = open_mod_font s.font.addr; vbe_header = vbe } in
    if aux == 0
    then record s1 { kernel = record s1.kernel { bytes = bmp2vbe bmp vbe s1.kernel.bytes } }
    else record s1 { screen = cls vbe s1.screen }

-- The three calls of `execs`: the selectors that they return, and the kernel.
pub start_system : Image → Kernel → Option (ℕ × ℕ × ℕ × Kernel)
start_system image k = do
  (control, k1) ← execs image.layout image.task_control 0 task_control_name k
  (call, k2) ← execs image.layout image.sys_call (image.stack_call + 199) sys_call_name k1
  (error, k3) ← execs image.layout image.sys_control (image.stack_control + 199) sys_control_name k2
  some (control, call, error, k3)

-- The gates of the two tasks that interrupts call: 0x40 for the system calls, 16 for the errors.
pub task_gates : (call error : ℕ) → (ℕ → Gate) → ℕ → Gate
task_gates call error idt_p =
    add_int 16 0 (add_int 0x40 0 idt_p 0xe5 (sub32 call 8) 0) 0x85 (sub32 error 8) 0

-- What the loop over the modules does with one of them.
abbrev pub is_start : Junk → Loader → (ℕ → ℕ) → ℕ → Bool
is_start junk loader bytes i = named (junk.start i) start_name bytes (loader.mods i)

abbrev pub is_picture : Junk → Loader → (ℕ → ℕ) → ℕ → Bool
is_picture junk loader bytes i = named (junk.background i) background_name bytes (loader.mods i)

pub start_module : Image → ModulesInfo → Kernel → Option Kernel
start_module image mod_info k = do
  (aux, k') ← exec image.layout mod_info.mod_start mod_info.mod_end (from k.bytes mod_info.string) k
  some k'

-- The loop, from module `i` on: the module "/boot/start.bin" is noted, the picture is passed over,
-- and every other module is started.
pub start_modules :
    Image → Junk → Loader → (left i : ℕ) → Option ℕ → Kernel → Option (Option ℕ × Kernel)
start_modules image junk loader zero i start k = some (start, k)
start_modules image junk loader (suc left) i start k = elim (is_start junk loader k.bytes i) [
  | true ↦ start_modules image junk loader left (i + 1) (some i) k
  | false ↦ elim (is_picture junk loader k.bytes i) [
    | true ↦ start_modules image junk loader left (i + 1) start k
    | false ↦
        start_module image (loader.mods i) k >>= start_modules image junk loader left (i + 1) start
  ]
]

-- From the loop over the modules on, with the first `left` rounds of `task_control`.
pub start_tasks :
    Image
    → Junk
    → Loader
    → (left : ℕ) → (jump : ℕ → Kernel × Pic → Kernel × Pic) → System
    → Option (Outcome × System)
start_tasks image junk loader left jump s = do
  (start, k1) ← start_modules image junk loader loader.multi.mods_count 0 none s.kernel
  elim start [
    | none ↦ some (no_start, record s { kernel = k1 })
    | some i ↦ do
      k2 ← start_module image (loader.mods i) k1
      (k3, pic) ← task_control left jump (k2, s.pic)
      some (controlling, record s { kernel = k3; pic = pic })
  ]

module _ (ram : Ram) where
  open ram use {State}

  -- From `set_mem_off` to the gates. `ini_tss` does not touch what `ini_pag` works on.
  pub start_kernel : Image → Loader → State → System → Option System
  start_kernel image loader memory s = do
    let last = last_module (loader.multi.mods_count - 1) 0
    let (z, m0) = set_mem_off (addr2pag (loader.mods last).mod_end + 1) s.kernel.mm
    (size, m1, memory') ← ini_mm ram image.kernel_fin m0 memory
    let k1 = ini_tss (record s.kernel { mm = m1; gdt = ini_ldt image.ldt_p s.kernel.gdt })
    (tables, m2, words) ← ini_pag k1.mm k1.words
    (control, call, error, k2) ←
        start_system image (record k1 { tables = tables; mm = m2; words = words })
    some (record s {
      kernel = k2;
      pic = set_8259 s.pic;
      idt_p = task_gates call error (int_set image.handlers s.idt_p);
      task_reg = u16 (sub32 control 8);
    })

  pub main :
      Image
      → Junk
      → Loader
      → BmpHeader
      → State
      → (left : ℕ) → (jump : ℕ → Kernel × Pic → Kernel × Pic) → System
      → Option (Outcome × System)
  main image junk loader bmp_header memory left jump s0 =
      let s1 = open_screen junk loader bmp_header s0 in
      if loader.multi.mods_count == 0
      then some (no_modules, s1)
      else (do s2 ← start_kernel image loader memory s1; start_tasks image junk loader left jump s2)
