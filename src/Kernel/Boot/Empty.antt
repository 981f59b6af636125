-- ===== src/Kernel/Boot/Empty.antt =====
-- The tables that `ini_tss` of exec/exec.c leaves.
use silicio.Task.{Tss, Run, max_task, tss_port}
use silicio.Task.TssTable.{clear_tss, IsFirstTss}
use silicio.Kernel.{Kernel, Drv, IntEntry, max_drivers, free_task, tarea_libre, driver_libre}
use silicio.Kernel.Calls.{find_drv}
use silicio.Kernel.Boot.{ini_tss}
use silicio.Base.{ℕ, suc, ap, true, arith, ltb, leb, each, each-at, ◌+◌, ◌<◌, ◌≡◌, ◌∙◌, ◌&&◌}
use silicio.Base.{if◌then◌else◌}

-- A search that starts below the end of a table of free entries stops at once.
free_task-first : (left i : ℕ) (r : ℕ → Run) → (r i).task ≡ 0 → free_task (suc left) i r ≡ i
unfolding free_task
free_task-first left i r h = ground arith

module _ (k : Kernel) where
  ints : (i : ℕ) → i < 256 → ((ini_tss k).r_int i).tarea ≡ (if leb i 16 then 1 else 0)
  unfolding ini_tss
  ints i h =
      let low = each 16 0 (λ i (e : IntEntry). record e { tarea = 1 }) k.r_int in
      ground (
        arith,
        each-at 240 16 (λ i (e : IntEntry). record e { tarea = 0 }) low i,
        each-at 16 0 (λ i (e : IntEntry). record e { tarea = 1 }) k.r_int i,
      )

  closed : (j i : ℕ) → j < max_task → i < tss_port → ((ini_tss k).tss_p j).iobp i ≡ 0xFF
  unfolding ini_tss clear_tss
  closed j i hj hi =
      let here : (leb 0 j && ltb j (0 + max_task)) ≡ true = ground arith in
      ap (λ (t : Tss). t.iobp i) (each-at max_task 0 (λ i (t : Tss). clear_tss t) k.tss_p j)
      ∙ rw here (ground arith)

-- After `ini_tss`, from whatever state, `tarea_libre` finds entry 0 and `driver_libre` entry 1;
-- the first free `tss` is 0 and the first free entry for a driver is 3; the interrupts up to 16
-- are the kernel's and no other is taken; every port is free, and closed in the map of every
-- `tss`.
pub ini_tss_lem :
    (k : Kernel)
    → (tarea_libre (ini_tss k).r_tareas ≡ 0)
      × (driver_libre (ini_tss k).r_tareas ≡ 1)
      × IsFirstTss (ini_tss k).tss_p 0
      × (find_drv 7 3 0 (ini_tss k).r_drv ≡ 3)
      × ((i : ℕ) → i < 256 → ((ini_tss k).r_int i).tarea ≡ (if leb i 16 then 1 else 0))
      × ((i : ℕ) → i < tss_port → (ini_tss k).r_port i ≡ 0xFF)
      × ((j i : ℕ) → j < max_task → i < tss_port → ((ini_tss k).tss_p j).iobp i ≡ 0xFF)
unfolding ini_tss tarea_libre driver_libre find_drv clear_tss
ini_tss_lem k =
    let tasks = each-at max_task 0 (λ i (r : Run). record r { task = 0 }) k.r_tareas in
    let tss = each-at max_task 0 (λ i (t : Tss). clear_tss t) k.tss_p in
    let drivers = each-at max_drivers 0 (λ i (d : Drv). record d { id_drv = 0 }) k.r_drv in
    let first : ((ini_tss k).r_drv 3).id_drv ≡ 0 = ap (λ (d : Drv). d.id_drv) (drivers 3) in
    (
      free_task-first 99 0 _ (ground (arith, tasks 0)),
      free_task-first 98 1 _ (ground (arith, tasks 1)),
      record { free = ap (λ (t : Tss). t.cs) (tss 0); before = λ j h. absurd (omega arith) },
      ground (arith, first),
      ints k,
      λ i h. ground (arith, each-at tss_port 0 (λ i p. 0xFF) k.r_port i),
      λ j i hj hi. closed k j i hj hi,
    )
