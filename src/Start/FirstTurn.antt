-- ===== src/Start/FirstTurn.antt =====
-- The first turn of `task_control` of main/main.c, and what the screen and the modules leave as it
-- was.
use native.Mathlib.Decide.{dec_lt}
use silicio.Multiboot.{Loader}
use silicio.Bitmap.{BmpHeader}
use silicio.Kernel.{Kernel}
use silicio.Kernel.Schedule.{can_run, select_task}
use silicio.Kernel.Schedule.Control.{can_run-running, can_run-sleeping}
use silicio.Kernel.Schedule.Turn.{IsTable, select_task_lem}
use silicio.Start.{Image, Junk, System, open_screen}
use silicio.Start.Modules.{Runs}
use silicio.Start.KernelTasks.{HasSystem, IsSystem}
use silicio.Base.{ℕ, refl, ap, inl, inr, true, false, some, List, [], arith, length, ◌+◌, ◌*◌}
use silicio.Base.{◌≤◌, ◌<◌, ◌≡◌, ◌≢◌, ◌⊎◌, ◌∙◌, ◌∷◌}

-- The screen is not part of what the kernel needs to start.
pub open_screen-same :
    (junk : Junk) (loader : Loader) (bmp_header : BmpHeader) (s : System)
    → ((open_screen junk loader bmp_header s).kernel.gdt ≡ s.kernel.gdt)
      × ((open_screen junk loader bmp_header s).kernel.mm ≡ s.kernel.mm)
unfolding open_screen
open_screen-same junk loader bmp_header s = ground arith

pub IsSystem-same :
    {image : Image} {loader : Loader} {bytes : ℕ → ℕ} {k k' : Kernel} {is : List ℕ} {j eip : ℕ}
    → Runs image loader bytes k k' 3 is
    → j < 3
    → IsSystem k j eip
    → IsSystem k' j eip
IsSystem-same {k = k} {k' = k'} {j = j} r lt s =
    let same : k'.r_tareas j ≡ k.r_tareas j = r.others j (inl lt) in
    let same_tss : k'.tss_p j ≡ k.tss_p j = r.other_tss j (inl lt) in
    let same_gdt : k'.gdt (2 * j + 5) ≡ k.gdt (2 * j + 5) = r.other_gdt (2 * j + 5) (omega arith) in
    record {
      status = rw same s.status;
      task = rw same s.task;
      gate = rw same_gdt s.gate;
      eip_at = rw same_tss s.eip_at;
      code = rw same_tss s.code;
    }

-- Task 3 has the first turn.
first_turn :
    {image : Image} {loader : Loader} {bytes : ℕ → ℕ} {k k' : Kernel} {i : ℕ} (is : List ℕ)
    → HasSystem image k
    → Runs image loader bytes k k' 3 (i ∷ is)
    → length is ≤ 94
    → k'.t_indice ≡ 0
    → select_task k' ≡ some (88, record k' { t_indice = 3 })
first_turn {image} {loader} {bytes} {k} {k'} {i} is system runs few at_0 =
    let h = runs.tasks in
    let (m, ms) = runs.modules in
    let table : IsTable k'.r_tareas (3 + length (i ∷ is)) = record {
      some_task = omega arith;
      fits = omega arith;
      taken = λ j a b. h.taken j b;
      ends = λ l. h.free (3 + length (i ∷ is)) (omega arith) l;
    } in
    let runs_3 : can_run k'.r_tareas 3 ≡ true = can_run-running k'.r_tareas 3 m.status in
    let off_1 : can_run k'.r_tareas 1 ≡ false =
      can_run-sleeping k'.r_tareas 1
        (ap (λ r. r.status) (runs.others 1 (inl (omega arith))) ∙ system.calls.status) in
    let off_2 : can_run k'.r_tareas 2 ≡ false =
      can_run-sleeping k'.r_tareas 2
        (ap (λ r. r.status) (runs.others 2 (inl (omega arith))) ∙ system.errors.status) in
    let (t, e, next) =
      select_task_lem k' (3 + length (i ∷ is)) 3 table (omega arith) (omega arith) (omega arith)
        runs_3 in
    let ne_1 : t ≢ 1 = λ z. ground (arith, ap (can_run k'.r_tareas) z, next.runs) in
    let ne_2 : t ≢ 2 = λ z. ground (arith, ap (can_run k'.r_tareas) z, next.runs) in
    let le : t ≤ 3 = elim (next.turn) [
      | inl (lt, idle) ↦ elim (dec_lt 3 t) [
        | yes far ↦ absurd (ground (arith, idle 3 (omega arith) far))
        | no near ↦ omega arith
      ]
      | inr (back, behind, before) ↦ absurd (omega (arith, next.low))
    ] in
    let t_3 : t ≡ 3 = omega (arith, next.low) in
    e
    ∙ ap (λ x. some ((k'.r_tareas x).task, record k' { t_indice = x })) t_3
    ∙ ap (λ x. some (x, record k' { t_indice = 3 })) (m.task)

pub first_turn-all :
    {image : Image} {loader : Loader} {bytes : ℕ → ℕ} {k k' : Kernel} (is : List ℕ)
    → HasSystem image k
    → Runs image loader bytes k k' 3 is
    → length is ≤ 95
    → k'.t_indice ≡ 0
    → (is ≡ []) ⊎ (select_task k' ≡ some (88, record k' { t_indice = 3 }))
first_turn-all [] system runs few at_0 = inl refl
first_turn-all (i ∷ is) system runs few at_0 = inr (first_turn is system runs (omega arith) at_0)
