-- ===== src/Start/First.antt =====
-- Where `_main` of main/main.c arrives, and which task has the first turn.
use silicio.Multiboot.{Loader}
use silicio.Bitmap.Header.{find_last, find_last_lem}
use silicio.Kernel.{Kernel}
use silicio.Kernel.Exec.Enters.{HasTasks}
use silicio.Interrupts.{Pic}
use silicio.Kernel.Schedule.{task_control}
use silicio.Start.{Image, Junk, System, Outcome, no_start, controlling, is_start, start_tasks}
use silicio.Start.Modules.{HasPages, HasPages-less}
use silicio.Start.Modules.{IsInside, Runs, Runs-append}
use silicio.Start.Order.{
  is_task, alone, such_that, length-such_that, start_module-Runs, start_modules-Runs,
}
use silicio.Base.{ℕ, inl, inr, Option, none, some, List, arith, length, ◌+◌, ◌*◌, ◌≤◌, ◌<◌, ◌≡◌}
use silicio.Base.{◌⊎◌, ◌∙◌, ◌++◌, ◌>>=◌}

module _ (image : Image) (junk : Junk) (loader : Loader) (bytes : ℕ → ℕ) where
  abbrev pub count : ℕ
  count = loader.multi.mods_count

  -- The modules that become tasks: those of the loop, and last the start program `i`.
  abbrev pub all_tasks : ℕ → List ℕ
  all_tasks i =
      such_that count 0 (is_task image junk loader bytes) ++ alone image junk loader bytes i

  -- With few modules, none of which goes past the pages of the last one.
  pub record CanRun : Type 0 where
    pub few : count ≤ 94
    pub inside : (j : ℕ) → j < count → IsInside image loader bytes j

  -- What is left to do when `task_control` is called.
  abbrev pub controlled : System → Option (Kernel × Pic) → Option (Outcome × System)
  controlled s o = o >>= λ r. some (controlling, record s { kernel = r.0; pic = r.1 })

  pub start_tasks-Runs :
      (s : System)
      → s.kernel.bytes ≡ bytes
      → HasTasks s.kernel 3
      → HasPages loader s.kernel (3 * count + 3)
      → CanRun
      → ((find_last count 0 (is_start junk loader bytes) none ≡ none)
          × (k : Kernel) × ((left : ℕ) (jump : ℕ → Kernel × Pic → Kernel × Pic)
              → start_tasks image junk loader left jump s
                ≡ some (no_start, record s { kernel = k }))
          × Runs image loader bytes s.kernel k 3
              (such_that count 0 (is_task image junk loader bytes)))
        ⊎ ((i : ℕ) × (find_last count 0 (is_start junk loader bytes) none ≡ some i)
            × (k : Kernel) × ((left : ℕ) (jump : ℕ → Kernel × Pic → Kernel × Pic)
                → start_tasks image junk loader left jump s
                  ≡ controlled s (task_control left jump (k, s.pic)))
            × Runs image loader bytes s.kernel k 3 (all_tasks i))
  unfolding start_tasks
  start_tasks-Runs s b h pages can =
      let (k1, e1, runs1, pages1) =
        start_modules-Runs image junk loader bytes count 0 none s.kernel 3 b h pages (omega arith)
          (omega (arith, can.few)) (λ j lo hi. can.inside j (omega arith)) in
      let len = length-such_that count 0 (is_task image junk loader bytes) in
      elim (find_last_lem count 0 (is_start junk loader bytes) none) [
        | inl p ↦ let (e, idle) = p in inl (e, k1, λ left jump. rw (e1, e, start_tasks), runs1)
        | inr p ↦
            let (i, e, le, last) = p in
            let (k2, e2, runs2, pages2) =
              start_module-Runs image junk loader bytes k1
                (3 + length (such_that count 0 (is_task image junk loader bytes))) i {r = 0}
                (runs1.bytes_same ∙ b) runs1.tasks (HasPages-less (omega arith) pages1)
                (omega arith) (omega (arith, can.few)) (can.inside i (omega (arith, last.below))) in
            inr (
              i,
              e,
              k2,
              λ left jump. rw (e1, e, e2, start_tasks),
              Runs-append image loader bytes runs1 runs2,
            )
      ]
