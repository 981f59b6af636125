-- ===== src/Start/Turns.antt =====
-- Every module that `_main` of main/main.c has started comes to its turn.
use mathlib.Core.Path.{subst}
use native.Mathlib.Decide.{ℕ_discrete}
use silicio.Multiboot.{Loader}
use silicio.Mm.Testmem.{Ram}
use silicio.Bitmap.{BmpHeader}
use silicio.Interrupts.{Pic}
use silicio.Kernel.{Kernel}
use silicio.Kernel.Schedule.{can_run, select_task}
use silicio.Kernel.Schedule.Control.{can_run-running}
use silicio.Kernel.Schedule.Jump.{IsLinked}
use silicio.Kernel.Schedule.Fair.{KeepsLinked, task_control-fair}
use silicio.Start.{Image, Junk, System, controlling, main}
use silicio.Start.Modules.{Runs, Modules-at}
use silicio.Start.KernelTasks.{HasSystem, IsSystem}
use silicio.Start.Ready.{CanStart, start_kernel-HasSystem}
use silicio.Start.First.{CanRun, all_tasks, controlled, start_tasks-Runs}
use silicio.Start.FirstTurn.{IsSystem-same}
use silicio.Start.Main.{shown, shown_bytes, shown-CanStart, start_program, main-eq, all_tasks-few}
use silicio.Base.{ℕ, ap, inl, inr, true, some, List, arith, length, ◌+◌, ◌*◌, ◌≤◌, ◌<◌, ◌≡◌, ◌∙◌}

module _ {image : Image} {loader : Loader} {bytes : ℕ → ℕ} {k k' : Kernel} {is : List ℕ}
    (system : HasSystem image k) (runs : Runs image loader bytes k k' 3 is) where
  -- The selector and the gate of an entry behind that of `task_control`.
  entry_linked :
      (i : ℕ)
      → 1 ≤ i
      → i < 3 + length is
      → ((k'.r_tareas i).task ≡ 8 * (2 * i + 5)) × ((k'.gdt (2 * i + 5)).base_l ≡ 8 * (2 * i + 4))
  entry_linked i lo hi = elim (ℕ_discrete i 1) [
    | yes e ↦
        let s : IsSystem k' 1 image.sys_call = IsSystem-same runs (omega arith) system.calls in
        rw e (s.task, s.gate)
    | no ne ↦ elim (ℕ_discrete i 2) [
      | yes e ↦
          let s : IsSystem k' 2 image.sys_control =
            IsSystem-same runs (omega arith) system.errors in
          rw e (s.task, s.gate)
      | no ne' ↦
          let (x, m) = Modules-at image loader bytes 3 is i runs.modules (omega arith) hi in
          (m.task, m.gate)
    ]
  ]

  pub Runs-IsLinked : length is ≤ 95 → IsLinked k' (3 + length is)
  Runs-IsLinked few = record {
    table = record {
      some_task = omega arith;
      fits = omega arith;
      taken = λ j a b. runs.tasks.taken j b;
      ends = λ l. runs.tasks.free (3 + length is) (omega arith) l;
    };
    task = λ i lo hi. (entry_linked i lo hi).0;
    gate = λ i lo hi. (entry_linked i lo hi).1;
  }

  pub module-runs : (j : ℕ) → 3 ≤ j → j < 3 + length is → can_run k'.r_tareas j ≡ true
  module-runs j lo hi =
      let (x, m) = Modules-at image loader bytes 3 is j runs.modules lo hi in
      can_run-running k'.r_tareas j m.status

module _ (ram : Ram) (image : Image) (junk : Junk) (loader : Loader) (bmp_header : BmpHeader)
    (memory : ram.State) (s0 : System) where
  abbrev started : ℕ → List ℕ
  started = all_tasks image junk loader (shown_bytes ram image junk loader bmp_header memory s0)

  -- In such a machine (`CanStart`, which has room for the tables of the kernel and of each task,
  -- and `CanRun`), with the start program `i`, where what the tasks do between a jump and the
  -- jump back keeps the selectors and gates of the tasks, the entries in use and `t_indice`, and
  -- leaves task `j`, one of the started modules, able to run: within as many rounds of
  -- `task_control` as there are entries in use, `_main` comes to the round that selects task `j`
  -- and jumps to its gate.
  pub main-fair :
      (jump : ℕ → Kernel × Pic → Kernel × Pic) (i j : ℕ)
      → CanStart ram image loader s0.kernel
      → CanRun image junk loader (shown_bytes ram image junk loader bmp_header memory s0)
      → start_program ram image junk loader bmp_header memory s0 ≡ some i
      → 3 ≤ j
      → j < 3 + length (started i)
      → KeepsLinked jump (3 + length (started i)) j
      → (r : ℕ) × (s2 : System) × (r < 3 + length (started i))
        × (main ram image junk loader bmp_header memory r jump s0 ≡ some (controlling, s2))
        × (select_task s2.kernel ≡ some (8 * (2 * j + 5), record s2.kernel { t_indice = j }))
  main-fair jump i j start run found lo hi keeps =
      let bytes = shown_bytes ram image junk loader bmp_header memory s0 in
      let s = shown ram image junk loader bmp_header memory s0 in
      let (s1, e1, system, gates, reg, pic, same, pages, identity) =
        start_kernel-HasSystem ram image loader memory s
          (shown-CanStart ram image junk loader bmp_header memory s0 start) in
      let few = all_tasks-few ram image junk loader bmp_header memory s0 i run in
      elim (start_tasks-Runs image junk loader bytes s1 same system.tasks pages run) [
        | inl p ↦ absurd (ground (arith, p.0, found))
        | inr p ↦
            let (x, at, k, eq, runs_x) = p in
            let e : x ≡ i = ground (arith, at, found) in
            let runs = subst (λ y. Runs image loader bytes s1.kernel k 3 (started y)) e runs_x in
            let (r, q, lt, done, turn) =
              task_control-fair jump (3 + length (started i)) j (omega arith) hi keeps k s1.pic
                runs.tasks.ready (Runs-IsLinked system runs few)
                (module-runs system runs j lo hi) in
            (
              r,
              record s1 { kernel = q.0; pic = q.1 },
              lt,
              main-eq ram image junk loader bmp_header memory s0 r jump start.some_module e1
                  ∙ eq r jump
                  ∙ ap (controlled image junk loader bytes s1) done,
              turn,
            )
      ]
