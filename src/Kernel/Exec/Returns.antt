-- ===== src/Kernel/Exec/Returns.antt =====
-- `execs` and `exec` of exec/exec.c return where the tables and the pages have room, and add one
-- task.
use native.Mathlib.Decide.{dec_le}
use silicio.Strings.{Chars}
use silicio.Mm.{Mm}
use silicio.Mm.Paging.{request}
use mathlib.Core.Path.{subst}
use silicio.Mm.Paging.Run.{FreeRun, request_lem}
use silicio.Mm.Paging.Total.{Fills-FreeRun}
use silicio.Task.{Tss, running, sleeping}
use silicio.Task.Gdt.{Gdt, set_desc_tss, set_desc_tss_lem}
use silicio.Task.TssTable.{fill_tss, set_tss_lem}
use silicio.Task.Space.{v_user, v_stack, build_space}
use silicio.Kernel.{Kernel, Layout}
use silicio.Kernel.Exec.{tss_addr, page_count, load_pages, enter_task, load_task, exec, execs}
use silicio.Kernel.Exec.{user_cs, user_ds, kernel_cs, kernel_ds}
use silicio.Kernel.Exec.Started.{load_pages_lem}
use silicio.Kernel.Exec.Steps.{exec-eq, exec-large}
use silicio.Kernel.Exec.Enters.{HasTasks, Enters, first_free, first_tss, entered, entered-HasTasks}
use silicio.Base.{ℕ, suc, refl, ap, inl, inr, some, arith, update, update_self, update_ne, u16}
use silicio.Base.{u32, ◌+◌, ◌*◌, ◌/◌, ◌^◌, ◌≤◌, ◌<◌, ◌≡◌, ◌≢◌, ◌⊎◌, ◌∙◌}

module _ (l : Layout) (k : Kernel) (n : ℕ) (h : HasTasks k n) (room : n < 98) where
  -- A task of the kernel.
  module _ (start pila : ℕ) (name : Chars) where
    abbrev system_tss : Tss
    system_tss = fill_tss start kernel_cs kernel_ds pila 0 pila kernel_ds (k.tss_p n)

    abbrev system_kernel : Gdt → Kernel
    system_kernel gdt = record k {
      r_tareas = update k.r_tareas n (enter_task (4 + 2 * n + 1) n sleeping name (k.r_tareas n));
      gdt = gdt;
      tss_p =
          update (update k.tss_p n system_tss) n
            (record (update k.tss_p n system_tss n) { cr3 = k.tables.g_dir });
    }

    execs-eq :
        {gdt : Gdt}
        → set_desc_tss (tss_addr l n) k.gdt ≡ (4 + 2 * n + 1, gdt)
        → execs l start pila name k ≡ some (8 * (2 * n + 5), system_kernel gdt)
    unfolding execs enter_task
    execs-eq e =
        let task : u16 (8 * (4 + 2 * n + 1)) ≡ 8 * (2 * n + 5) = omega arith in
        rw (
          set_tss_lem start kernel_cs kernel_ds pila 0 pila kernel_ds k.tss_p n
              (first_tss k n h room) (omega arith),
          e,
          first_free k n h room,
          task,
        )

    pub execs_lem :
        (k' : Kernel) × (execs l start pila name k ≡ some (8 * (2 * n + 5), k'))
        × Enters k k' n kernel_cs start sleeping name
        × HasTasks k' (n + 1)
        × (k'.mm ≡ k.mm)
        × (k'.words ≡ k.words)
    unfolding fill_tss
    execs_lem =
        let (gdt, e, added) =
          set_desc_tss_lem (tss_addr l n) (4 + 2 * n) k.gdt (omega arith) h.gdt (omega arith) in
        let tss1 = update k.tss_p n system_tss in
        let at = update_self k.tss_p n system_tss in
        let before = λ (j : ℕ) (ne : n ≢ j). update_ne k.tss_p system_tss ne in
        (
          system_kernel gdt,
          execs-eq e,
          entered k n h room (system_kernel gdt) l kernel_cs start sleeping name tss1 _ refl added
              refl before (ap (λ (t : Tss). t.eip) at) (ap (λ (t : Tss). t.cs) at) refl,
          entered-HasTasks k n h room (system_kernel gdt) l kernel_cs start sleeping name tss1 _
              refl added refl before (ap (λ (t : Tss). t.eip) at) (ap (λ (t : Tss). t.cs) at) refl
              (omega arith) h.ready,
          refl,
          refl,
        )

  -- A program.
  module _ (start end : ℕ) (name : Chars) where
    abbrev pag : ℕ
    pag = page_count start end

    abbrev program_tss : Tss
    program_tss =
        fill_tss (v_user * 4096) user_cs user_ds (v_stack * 4096 + 0xfff) 0x200
          (u32 (l.int_pila + 200 * n + 199)) kernel_ds (k.tss_p n)

    abbrev program_kernel : Gdt → Mm → (pm : ℕ → ℕ) → (dir tab stack : ℕ) → Kernel
    program_kernel gdt m4 pm dir tab stack =
        let tss1 = update k.tss_p n program_tss in
        record k {
          r_tareas = update k.r_tareas n (enter_task (4 + 2 * n + 1) n running name (k.r_tareas n));
          gdt = gdt;
          mm = m4;
          words = build_space pag pm dir tab stack k.tables k.words;
          tss_p = update tss1 n (record (tss1 n) {
            pag_mem = pm;
            pag_virtual = update (update (tss1 n).pag_virtual 0 dir) 1 tab;
            pag_stack = stack;
            cr3 = u32 (4096 * dir);
          });
        }

    load_task-eq :
        {m1 m2 m3 m4 : Mm} {pm : ℕ → ℕ} {dir tab stack : ℕ} {gdt : Gdt}
        → load_pages pag 0 (start / 4096) k.mm (update k.tss_p n program_tss n).pag_mem
          ≡ some (m1, pm)
        → request m1 ≡ some (dir, m2)
        → request m2 ≡ some (tab, m3)
        → request m3 ≡ some (stack, m4)
        → set_desc_tss (tss_addr l n) k.gdt ≡ (4 + 2 * n + 1, gdt)
        → load_task user_cs user_ds l start pag n name k
          ≡ some (n, program_kernel gdt m4 pm dir tab stack)
    unfolding load_task
    load_task-eq e0 e1 e2 e3 e4 = rw (
      set_tss_lem (v_user * 4096) user_cs user_ds (v_stack * 4096 + 0xfff) 0x200
          (u32 (l.int_pila + 200 * n + 199)) kernel_ds k.tss_p n (first_tss k n h room)
          (omega arith),
      e0,
      e1,
      e2,
      e3,
      e4,
    )

    loads :
        {p r : ℕ}
        → FreeRun k.mm p (3 + r)
        → start / 4096 + pag ≤ p
        → (k' : Kernel) × (load_task user_cs user_ds l start pag n name k ≡ some (n, k'))
          × Enters k k' n user_cs (v_user * 4096) running name
          × HasTasks k' (n + 1)
          × ((k'.tss_p n).cr3 ≡ 4096 * p)
          × FreeRun k'.mm (p + 3) r
    unfolding fill_tss
    loads {p} {r} run below =
        let small : start / 4096 + pag ≤ 2 ^ 20 = omega (arith, run.fits, run.ready.max_hi) in
        let tss1 = update k.tss_p n program_tss in
        let (m1, pm, e0, fills, _) =
          load_pages_lem pag 0 (start / 4096) pag k.mm (tss1 n).pag_mem h.ready.is_map (omega arith)
            small in
        let run0 = Fills-FreeRun fills below run in
        let c0 : 3 + r ≡ suc (2 + r) = omega arith in
        let c1 : 2 + r ≡ suc (1 + r) = omega arith in
        let c2 : 1 + r ≡ suc r = omega arith in
        let (m2, e1, mk1, r1) = request_lem {n = 2 + r} (subst (λ x. FreeRun m1 p x) c0 run0) in
        let (m3, e2, mk2, r2) = request_lem {n = 1 + r} (subst (λ x. FreeRun m2 (p + 1) x) c1 r1) in
        let (m4, e3, mk3, r3) = request_lem {n = r} (subst (λ x. FreeRun m3 (p + 1 + 1) x) c2 r2) in
        let last : p + 1 + 1 + 1 ≡ p + 3 = omega arith in
        let (gdt, e4, added) =
          set_desc_tss_lem (tss_addr l n) (4 + 2 * n) k.gdt (omega arith) h.gdt (omega arith) in
        let k' = program_kernel gdt m4 pm p (p + 1) (p + 1 + 1) in
        let at = update_self k.tss_p n program_tss in
        let before = λ (j : ℕ) (ne : n ≢ j). update_ne k.tss_p program_tss ne in
        (
          k',
          load_task-eq e0 e1 e2 e3 e4,
          entered k n h room k' l user_cs (v_user * 4096) running name tss1 _ refl added refl before
              (ap (λ (t : Tss). t.eip) at) (ap (λ (t : Tss). t.cs) at) refl,
          entered-HasTasks k n h room k' l user_cs (v_user * 4096) running name tss1 _ refl added
              refl before (ap (λ (t : Tss). t.eip) at) (ap (λ (t : Tss). t.cs) at) refl
              (omega arith) r3.ready,
          ap (λ (t : Tss). t.cr3) (update_self tss1 n _)
              ∙ omega (arith, run.fits, run.ready.max_hi),
          subst (λ x. FreeRun m4 x r) last r3,
        )

    -- A program of more than 14 pages is not started, and `exec` returns the free entry all the same.
    pub exec_cases :
        {p r : ℕ}
        → 0 < n
        → FreeRun k.mm p (3 + r)
        → start / 4096 + pag ≤ p
        → (k' : Kernel) × (exec l start end name k ≡ some (n, k'))
          × (((14 < pag) × (k' ≡ k))
              ⊎ ((pag ≤ 14)
                  × Enters k k' n user_cs (v_user * 4096) running name
                  × HasTasks k' (n + 1)
                  × ((k'.tss_p n).cr3 ≡ 4096 * p)
                  × FreeRun k'.mm (p + 3) r))
    exec_cases some_task run below = elim (dec_le pag 14) [
      | yes few ↦
          let (k', e, enters, tasks, cr3, left) = loads run below in
          let free = first_free k n h room in
          (
            k',
            exec-eq l k start end name (λ z. omega arith) few
                ∙ ap (λ id. load_task user_cs user_ds l start pag id name k) free
                ∙ e,
            inr (few, enters, tasks, cr3, left),
          )
      | no many ↦ (
        k,
        exec-large l k start end name (omega arith)
            ∙ ap (λ id. some (id, k)) (first_free k n h room),
        inl (omega arith, refl),
      )
    ]
