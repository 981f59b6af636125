-- ===== src/Kernel/Exec/Steps.antt =====
-- The three requests of `exec`, and the guard before its body.
use mathlib.Core.Path.{subst}
use silicio.Strings.{Chars}
use silicio.Mm.{Mm}
use silicio.Mm.Bitmap.{Marks}
use silicio.Mm.Boot.{Fills}
use silicio.Mm.Paging.{request}
use silicio.Mm.Paging.Run.{FreeRun, request_lem}
use silicio.Kernel.{Kernel, Layout, tarea_libre}
use silicio.Kernel.Exec.{page_count, load_task, exec, user_cs, user_ds, start_task}
use silicio.Base.{ℕ, true, some, arith, ◌+◌, ◌≤◌, ◌<◌, ◌≡◌, ◌≢◌}

pub from_start : {m m' : Mm} {a b : ℕ} → Fills m (a + 0) b true m' → Fills m a b true m'
from_start {m} {m'} {a} {b} f =
    let e : a + 0 ≡ a = omega arith in subst (λ x. Fills m x b true m') e f

-- The three requests of `exec`.
pub three_requests :
    {m1 : Mm} {p : ℕ}
    → FreeRun m1 p 3
    → (m2 m3 m4 : Mm) × (request m1 ≡ some (p, m2))
      × (request m2 ≡ some (p + 1, m3))
      × (request m3 ≡ some (p + 2, m4))
      × Marks m1 p true m2
      × Marks m2 (p + 1) true m3
      × Marks m3 (p + 2) true m4
three_requests {m1} {p} r0 =
    let (m2, e1, k1, r1) = request_lem {n = 2} r0 in
    let (m3, e2, k2, r2) = request_lem {n = 1} r1 in
    let (m4, e3, k3, r3) = request_lem {n = 0} r2 in
    let e : p + 1 + 1 ≡ p + 2 = omega arith in
    (
      m2,
      m3,
      m4,
      e1,
      e2,
      subst (λ x. request m3 ≡ some (x, m4)) e e3,
      k1,
      k2,
      subst (λ x. Marks m3 x true m4) e k3,
    )

-- The guard of `exec` passes, and its body is made.
pub exec-eq :
    (l : Layout) (k : Kernel) (start end : ℕ) (name : Chars)
    → tarea_libre k.r_tareas ≢ 0
    → page_count start end ≤ 14
    → exec l start end name k
      ≡ load_task user_cs user_ds l start (page_count start end) (tarea_libre k.r_tareas) name k
unfolding exec start_task
exec-eq l k start end name slot few = ground arith

-- A program of too many pages is not started.
pub exec-large :
    (l : Layout) (k : Kernel) (start end : ℕ) (name : Chars)
    → 14 < page_count start end
    → exec l start end name k ≡ some (tarea_libre k.r_tareas, k)
unfolding exec start_task
exec-large l k start end name many = ground arith
