-- ===== src/Start/Main.antt =====
-- `_main` of main/main.c as a whole, and the first turn of `task_control`.
use silicio.Multiboot.{Loader}
use silicio.Mm.Testmem.{Ram}
use silicio.Bitmap.{BmpHeader}
use silicio.Bitmap.Header.{find_last}
use silicio.Kernel.{Kernel}
use silicio.Kernel.Exec.Enters.{HasTasks}
use silicio.Kernel.Schedule.{select_task}
use silicio.Kernel.Schedule.Control.{task_control-returns}
use silicio.Interrupts.{Pic, outb}
use silicio.Start.{
  Image, Junk, System, no_start, controlling, is_start, open_screen, start_tasks, start_kernel,
  main,
}
use silicio.Mm.Paging.Identity.{IsIdentity}
use silicio.Start.Modules.{modules_end, Runs, Modules, Runs-control}
use silicio.Start.Order.{is_task, alone, such_that, length-such_that}
use silicio.Start.KernelTasks.{HasSystem, IsSystem}
use silicio.Start.Ready.{CanStart, HasGates, start_kernel-HasSystem}
use silicio.Start.FirstTurn.{open_screen-same, IsSystem-same, first_turn-all}
use silicio.Start.First.{all_tasks, CanRun, controlled, start_tasks-Runs}
use silicio.Base.{ℕ, ap, inl, inr, false, Option, none, some, List, [], arith, length}
use silicio.Base.{length-append, ◌+◌, ◌/◌, ◌≤◌, ◌<◌, ◌≡◌, ◌⊎◌, ◌∙◌, ◌==◌}

-- The tables and the gates of the started system, whose tasks from entry 3 on are the modules of the
-- list; `k` is the kernel before the first module.
pub record IsBooted (image : Image) (loader : Loader) (bytes : ℕ → ℕ) (k : Kernel) (s : System)
    (is : List ℕ) : Type 0 where
  pub control : IsSystem s.kernel 0 image.task_control
  pub calls : IsSystem s.kernel 1 image.sys_call
  pub errors : IsSystem s.kernel 2 image.sys_control
  pub gates : HasGates s.idt_p
  pub tasks : HasTasks s.kernel (3 + length is)
  pub modules : Modules image loader bytes k s.kernel 3 is

Runs-IsBooted :
    {image : Image} {loader : Loader} {bytes : ℕ → ℕ} {k : Kernel} (s : System) {is : List ℕ}
    → HasSystem image k
    → HasGates s.idt_p
    → Runs image loader bytes k s.kernel 3 is
    → IsBooted image loader bytes k s is
Runs-IsBooted s system gates runs = record {
  control = IsSystem-same runs (omega arith) system.control;
  calls = IsSystem-same runs (omega arith) system.calls;
  errors = IsSystem-same runs (omega arith) system.errors;
  gates = gates;
  tasks = runs.tasks;
  modules = runs.modules;
}

module _ (ram : Ram) (image : Image) (junk : Junk) (loader : Loader) (bmp_header : BmpHeader)
    (memory : ram.State) (s0 : System) where
  -- The state behind the opening of the screen, and its memory.
  abbrev pub shown : System
  shown = open_screen junk loader bmp_header s0

  abbrev pub shown_bytes : ℕ → ℕ
  shown_bytes = shown.kernel.bytes

  -- The module "/boot/start.bin", the last one if there are several.
  abbrev pub start_program : Option ℕ
  start_program = find_last loader.multi.mods_count 0 (is_start junk loader shown_bytes) none

  pub shown-CanStart : CanStart ram image loader s0.kernel → CanStart ram image loader shown.kernel
  shown-CanStart can =
      let (gdt, mm) = open_screen-same junk loader bmp_header s0 in
      record {
        some_module = can.some_module;
        kernel_lo = can.kernel_lo;
        kernel_hi = can.kernel_hi;
        word = can.word;
        modules_lo = can.modules_lo;
        room = can.room;
        gdt = rw gdt can.gdt;
        blank = rw mm can.blank;
      }

  pub main-eq :
      (left : ℕ) (jump : ℕ → Kernel × Pic → Kernel × Pic) {s1 : System}
      → 0 < loader.multi.mods_count
      → start_kernel ram image loader memory shown ≡ some s1
      → main ram image junk loader bmp_header memory left jump s0
        ≡ start_tasks image junk loader left jump s1
  unfolding main
  main-eq left jump pos e =
      let z : (loader.multi.mods_count == 0) ≡ false = ground arith in rw (z, e)

  pub all_tasks-few :
      (i : ℕ)
      → CanRun image junk loader shown_bytes
      → length (all_tasks image junk loader shown_bytes i) ≤ 95
  all_tasks-few i run =
      let few =
        length-such_that loader.multi.mods_count 0 (is_task image junk loader shown_bytes) in
      let one : length (alone image junk loader shown_bytes i) ≤ 1 = ground arith in
      omega (
        arith,
        run.few,
        length-append (such_that loader.multi.mods_count 0 (is_task image junk loader shown_bytes))
            (alone image junk loader shown_bytes i),
      )

  -- In a machine where the kernel can start (`CanStart`: at least one module; the kernel from 1
  -- MB on and the last module behind it, with its end on page 265 or above; a memory of at most 4
  -- GB - 1 MB that has room behind that module for 1025 pages and 3 for each module and for the
  -- start program; no task in the GDT, and 0 behind the map of pages), with at most 94 modules,
  -- none of which goes past the pages of the last one, and whatever the tasks do later: the
  -- tables of the kernel come to lie on the first free pages behind the last module and hold each
  -- page of the 4 GB at its own place, and `_main` comes to one of its ends. Without a module
  -- "/boot/start.bin" it returns, and with one it comes to the loop of `task_control`. Both times
  -- entries 0 to 2 are the three tasks of the kernel, asleep, the gates 0x40 and 16 lead to the
  -- second and the third, and the entries from 3 on are the modules in their order, each running,
  -- with `eip` at `V_USER`, the code segment of user code and its directory on a page behind the
  -- last module, but for the picture and for the modules of more than 14 pages, with the last
  -- start program (of at most 14 pages) behind them; there is no other task. In the second case,
  -- where a module has become a task, the first selection is that of entry 3.
  pub main_lem :
      (jump : ℕ → Kernel × Pic → Kernel × Pic)
      → CanStart ram image loader s0.kernel
      → CanRun image junk loader shown_bytes
      → (s1 : System) × (start_kernel ram image loader memory shown ≡ some s1)
        × IsIdentity s1.kernel.words (modules_end loader / 4096 + 1)
        × (((start_program ≡ none)
              × (s2 : System) × (main ram image junk loader bmp_header memory 0 jump s0
                  ≡ some (no_start, s2))
              × IsBooted image loader shown_bytes s1.kernel s2
                  (such_that loader.multi.mods_count 0 (is_task image junk loader shown_bytes)))
            ⊎ ((i : ℕ) × (start_program ≡ some i)
                × (s2 : System) × (main ram image junk loader bmp_header memory 0 jump s0
                    ≡ some (controlling, s2))
                × IsBooted image loader shown_bytes s1.kernel s2
                    (all_tasks image junk loader shown_bytes i)
                × ((all_tasks image junk loader shown_bytes i ≡ [])
                    ⊎ (select_task s2.kernel ≡ some (88, record s2.kernel { t_indice = 3 })))))
  main_lem jump start run =
      let (s1, e1, system, gates, reg, pic, same, pages, identity) =
        start_kernel-HasSystem ram image loader memory shown (shown-CanStart start) in
      let eq = main-eq 0 jump start.some_module e1 in
      (
        s1,
        e1,
        identity,
        elim (start_tasks-Runs image junk loader shown_bytes s1 same system.tasks pages run) [
          | inl p ↦
              let (none_found, k, e, runs) = p in
              let s2 : System = record s1 { kernel = k } in
              inl (none_found, s2, eq ∙ e 0 jump, Runs-IsBooted s2 system gates runs)
          | inr p ↦
              let (i, found, k, e, runs) = p in
              let (k', e', tasks, tss, gdt, same_bytes, at_0, ready) =
                task_control-returns jump k s1.pic runs.tasks.ready in
              let s2 : System = record s1 { kernel = k'; pic = outb 0x21 0xdc s1.pic } in
              let runs' =
                Runs-control image loader shown_bytes runs tasks tss gdt same_bytes ready in
              inr (
                i,
                found,
                s2,
                eq ∙ e 0 jump ∙ ap (controlled image junk loader shown_bytes s1) e',
                Runs-IsBooted s2 system gates runs',
                first_turn-all _ system runs' (all_tasks-few i run) at_0,
              )
        ],
      )
