-- ===== src/Start/Ready.antt =====
-- The kernel is ready for its modules: `_main` of main/main.c up to the gates of its tasks.
use mathlib.Core.Path.{subst}
use silicio.Multiboot.{Loader}
use silicio.Mm.{Mm, map_len, set_mem_off, addr2pag}
use silicio.Mm.Search.{IsReady}
use silicio.Mm.Testmem.{Ram}
use silicio.Mm.Boot.{ini_mm, boot_used, ini_mm_lem}
use silicio.Mm.Paging.Run.{FreeRun}
use silicio.Mm.Paging.Identity.{IsIdentity}
use silicio.Start.Modules.{modules_end, HasPages}
use silicio.Mm.Paging.{Tables, ini_pag}
use silicio.Mm.Paging.Total.{ini_pag-FreeRun}
use silicio.Task.Gdt.{IsPrefix, ini_ldt, ini_ldt-IsPrefix}
use silicio.Interrupts.{Gate, add_int, int_set, set_8259}
use silicio.Kernel.{Kernel}
use silicio.Kernel.Boot.{ini_tss}
use silicio.Kernel.Boot.First.{ini_tss-same, ini_tss-HasTasks}
use silicio.Start.{Image, System, last_module, task_gates, start_system, start_kernel}
use silicio.Start.KernelTasks.{HasSystem, start_system_lem}
use silicio.Base.{ℕ, zero, suc, refl, sym, ap, true, false, some, arith, ◌+◌, ◌-◌, ◌*◌, ◌/◌, ◌^◌}
use silicio.Base.{◌≤◌, ◌<◌, ◌≡◌, ◌∙◌}

last_module_lem : (left i : ℕ) → last_module left i ≡ i + left
unfolding last_module
last_module_lem zero i = omega arith
last_module_lem (suc left) i = omega (arith, last_module_lem left (i + 1))

-- What the kernel finds in the machine: a module; the kernel from 1 MB on, and the last module behind
-- it; a memory of at most 4 GB - 1 MB with room behind that module for the 1025 pages of the kernel's
-- tables and the 3 of each task, the start program included; the end of the module so high that the
-- search for pages, which starts up to 17 pages before it, does not come to the free pages 252 to
-- 255; no task in the GDT, and nothing behind the map of pages.
pub record CanStart (ram : Ram) (image : Image) (loader : Loader) (k : Kernel) : Type 0 where
  pub some_module : 0 < loader.multi.mods_count
  pub kernel_lo : 2 ^ 20 ≤ image.kernel_fin
  pub kernel_hi : image.kernel_fin ≤ modules_end loader
  pub word : ram.top + 2 ^ 20 ≤ 2 ^ 32
  pub modules_lo : 265 ≤ modules_end loader / 4096
  pub room :
      modules_end loader / 4096 + 1 + (1025 + (3 * loader.multi.mods_count + 3))
      ≤ ram.top / 4096 / 8 * 8
  pub gdt : IsPrefix k.gdt 4
  pub blank : (i : ℕ) → map_len ≤ i → k.mm.mem_map i ≡ 0

-- The pages from 256 up to the end of the modules are taken, and the ones behind it are not.
boot_used-below :
    (kernel_fin first q : ℕ) → 256 ≤ q → q < first → boot_used kernel_fin first q ≡ true
boot_used-below kernel_fin first q lo hi = ground arith

boot_used-behind :
    (kernel_fin first q : ℕ)
    → kernel_fin / 4096 < q
    → 256 ≤ first
    → first ≤ q
    → boot_used kernel_fin first q ≡ false
boot_used-behind kernel_fin first q lo low hi = ground arith

-- The two gates of `_main`: a task gate of each selector, the first open to user code.
pub record HasGates (idt_p : ℕ → Gate) : Type 0 where
  pub calls : (idt_p 0x40).selec ≡ 48
  pub calls_open : (idt_p 0x40).acceso ≡ 0xe5
  pub errors : (idt_p 16).selec ≡ 64
  pub errors_shut : (idt_p 16).acceso ≡ 0x85

task_gates-HasGates : (idt_p : ℕ → Gate) → HasGates (task_gates 56 72 idt_p)
unfolding task_gates add_int
task_gates-HasGates idt_p = record {
  calls = refl;
  calls_open = refl;
  errors = refl;
  errors_shut = refl;
}

-- The kernel with the tables that `ini_pag` has made.
abbrev paged : Image → Kernel → Kernel
paged image k = ini_tss k

module _ (ram : Ram) (image : Image) (loader : Loader) (memory : ram.State) (s : System)
    (can : CanStart ram image loader s.kernel) where
  abbrev off : Mm
  off = record s.kernel.mm { mem_off = modules_end loader / 4096 + 1 }

  off-eq :
      set_mem_off
        (addr2pag (loader.mods (last_module (loader.multi.mods_count - 1) 0)).mod_end + 1)
        s.kernel.mm
      ≡ (0, off)
  unfolding set_mem_off addr2pag
  off-eq =
      let e : last_module (loader.multi.mods_count - 1) 0 ≡ loader.multi.mods_count - 1 =
        omega (arith, last_module_lem (loader.multi.mods_count - 1) 0) in
      rw e

  abbrev with_tss : Mm → Kernel
  with_tss m1 = ini_tss (record s.kernel { mm = m1; gdt = ini_ldt image.ldt_p s.kernel.gdt })

  -- Where the parts return, the whole does.
  start_kernel-eq :
      {size : ℕ} {m1 m2 : Mm} {memory' : ram.State} {tables : Tables} {words : ℕ → ℕ} {k3 : Kernel}
      → ini_mm ram image.kernel_fin off memory ≡ some (size, m1, memory')
      → ini_pag (with_tss m1).mm (with_tss m1).words ≡ some (tables, m2, words)
      → start_system image (record (with_tss m1) { tables = tables; mm = m2; words = words })
        ≡ some (40, 56, 72, k3)
      → start_kernel ram image loader memory s
        ≡ some (record s {
          kernel = k3;
          pic = set_8259 s.pic;
          idt_p = task_gates 56 72 (int_set image.handlers s.idt_p);
          task_reg = 32;
        })
  unfolding start_kernel
  start_kernel-eq e1 e2 e3 = rw (off-eq, e1, e2, e3)

  pub start_kernel-HasSystem :
      (s' : System) × (start_kernel ram image loader memory s ≡ some s')
      × HasSystem image s'.kernel
      × HasGates s'.idt_p
      × (s'.task_reg ≡ 32)
      × (s'.pic ≡ set_8259 s.pic)
      × (s'.kernel.bytes ≡ s.kernel.bytes)
      × HasPages loader s'.kernel (3 * loader.multi.mods_count + 3)
      × IsIdentity s'.kernel.words (modules_end loader / 4096 + 1)
  start_kernel-HasSystem =
      let (m1, memory', e1, agrees, is_map, max, same, used_map) =
        ini_mm_lem ram image.kernel_fin off memory can.kernel_lo
          (omega (arith, can.kernel_hi, can.room)) can.word (omega (arith, can.room, can.word))
          can.blank in
      let first = modules_end loader / 4096 + 1 in
      let ready : IsReady m1 = record {
        is_map = is_map;
        off_lo = omega (arith, same);
        off_hi = omega (arith, same, max, can.room, can.modules_lo);
        off_word = omega (arith, same, can.room, can.word);
        max_hi = omega (arith, max, can.word);
      } in
      let pages : FreeRun m1 first (1025 + (3 * loader.multi.mods_count + 3)) = record {
        ready = ready;
        from = omega (arith, same);
        before = λ q a b.
            used_map q
            ∙ boot_used-below image.kernel_fin first q (omega (arith, a, same, can.modules_lo)) b;
        free = λ q a b.
            used_map q
            ∙ boot_used-behind image.kernel_fin first q (omega (arith, a, can.kernel_hi))
                (omega (arith, can.modules_lo)) a;
        fits = omega (arith, max, can.room);
      } in
      let k1 = with_tss m1 in
      let (gdt_same, mm_same, words_same, bytes_same) =
        ini_tss-same (record s.kernel { mm = m1; gdt = ini_ldt image.ldt_p s.kernel.gdt }) in
      let (tables, m2, words, e2, left, identity) =
        ini_pag-FreeRun m1 k1.words first (3 * loader.multi.mods_count + 3) pages in
      let e2' : ini_pag k1.mm k1.words ≡ some (tables, m2, words) =
        ap (λ m. ini_pag m k1.words) mm_same ∙ e2 in
      let k2 : Kernel = record k1 { tables = tables; mm = m2; words = words } in
      let prefix : IsPrefix k2.gdt 4 =
        rw gdt_same (ini_ldt-IsPrefix image.ldt_p 4 s.kernel.gdt can.gdt) in
      let none_yet =
        ini_tss-HasTasks (record s.kernel { mm = m1; gdt = ini_ldt image.ldt_p s.kernel.gdt }) k2
          refl refl prefix left.ready in
      let (k3, e3, system, bytes_same', mm_same', words_same') =
        start_system_lem image k2 none_yet in
      (
        record s {
          kernel = k3;
          pic = set_8259 s.pic;
          idt_p = task_gates 56 72 (int_set image.handlers s.idt_p);
          task_reg = 32;
        },
        start_kernel-eq e1 e2' e3,
        system,
        task_gates-HasGates (int_set image.handlers s.idt_p),
        refl,
        refl,
        bytes_same' ∙ bytes_same,
        record {
          page = first + 1025;
          behind = omega arith;
          run =
              subst (λ m. FreeRun m (first + 1025) (3 * loader.multi.mods_count + 3)) (sym mm_same')
                left;
        },
        subst (λ w. IsIdentity w first) (sym words_same') identity,
      )
