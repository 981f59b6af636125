-- ===== src/Kernel/Exec/Start.antt =====
-- What `exec` leaves: a task that runs in an address space of its own.
use silicio.Kernel.Exec.Started.{load_pages_lem, HasRoom, IsStarted, Marks-used}
use silicio.Strings.{Chars}
use silicio.Mm.{Mm}
use silicio.Mm.Bitmap.{Marks}
use silicio.Mm.Boot.{Fills}
use silicio.Mm.Paging.{request}
use silicio.Mm.Paging.Run.{FreeRun}
use silicio.Task.{Tss, running}
use silicio.Task.Gdt.{Gdt, set_desc_tss, set_desc_tss_lem}
use silicio.Task.TssTable.{set_tss_lem, fill_tss}
use silicio.Task.Space.{v_user, v_stack, build_space, check_word, check_addr}
use silicio.Task.Space.Build.{IsSpace, Placed, build_space-IsSpace}
use silicio.Task.Space.Isolation.{page_of, in_page, check_word-IsSpace}
use silicio.Kernel.{Kernel, Layout, tarea_libre}
use silicio.Kernel.Exec.Steps.{from_start, three_requests, exec-eq}
use silicio.Kernel.Exec.{
  tss_addr, page_count, load_pages, load_task, exec, enter_task, user_cs, user_ds,
}
use silicio.Base.{ℕ, ap, true, some, arith, ltb, leb, update, update_self, update_ne, u32}
use silicio.Base.{◌+◌, ◌-◌, ◌*◌, ◌/◌, ◌^◌, ◌≤◌, ◌<◌, ◌≡◌, ◌⊎◌, ◌∙◌, ◌&&◌, if◌then◌else◌}

module _ (l : Layout) (k : Kernel) (t n d p start pag : ℕ) (name : Chars)
    (room : HasRoom k t n d) where
  abbrev id : ℕ
  id = tarea_libre k.r_tareas

  -- The entry that `set_tss` fills, and the table after it.
  abbrev filled : Tss
  filled =
      fill_tss (v_user * 4096) user_cs user_ds (v_stack * 4096 + 0xfff) 0x200
        (u32 (l.int_pila + 200 * id + 199)) 0x10 (k.tss_p t)

  abbrev tss1 : ℕ → Tss
  tss1 = update k.tss_p t filled

  abbrev final_tss : (ℕ → ℕ) → Tss
  final_tss pm = record (tss1 t) {
    pag_mem = pm;
    pag_virtual = update (update (tss1 t).pag_virtual 0 p) 1 (p + 1);
    pag_stack = p + 2;
    cr3 = u32 (4096 * p);
  }

  abbrev loaded : Gdt → Mm → (ℕ → ℕ) → Kernel
  loaded gdt m4 pm = record k {
    r_tareas = update k.r_tareas id (enter_task (n + 1) t running name (k.r_tareas id));
    gdt = gdt;
    mm = m4;
    words = build_space pag pm p (p + 1) (p + 2) k.tables k.words;
    tss_p = update tss1 t (final_tss pm);
  }

  load_task-eq :
      {m1 m2 m3 m4 : Mm} {pm : ℕ → ℕ} {gdt : Gdt}
      → load_pages pag 0 (start / 4096) k.mm (tss1 t).pag_mem ≡ some (m1, pm)
      → request m1 ≡ some (p, m2)
      → request m2 ≡ some (p + 1, m3)
      → request m3 ≡ some (p + 2, m4)
      → set_desc_tss (tss_addr l t) k.gdt ≡ (n + 1, gdt)
      → load_task user_cs user_ds l start pag id name k ≡ some (id, loaded gdt m4 pm)
  unfolding load_task
  load_task-eq e0 e1 e2 e3 e4 = rw (
    set_tss_lem (v_user * 4096) user_cs user_ds (v_stack * 4096 + 0xfff) 0x200
        (u32 (l.int_pila + 200 * id + 199)) 0x10 k.tss_p t room.tss_free room.tss_in,
    e0,
    e1,
    e2,
    e3,
    e4,
  )

  module _ (m4 : Mm) (pm : ℕ → ℕ) (gdt : Gdt) (few : pag ≤ 14) (small : start / 4096 + pag ≤ 2 ^ 20)
      (apart : (p + 2 < d) ⊎ (d + 1025 ≤ p)) (inside : p + 3 ≤ 2 ^ 20)
      (at : (j : ℕ) → j < pag → pm j ≡ start / 4096 + j) where
    placed : Placed p (p + 1) (p + 2) d
    placed = record {
      dir_out = ground arith;
      tab_out = ground arith;
      differ = omega arith;
      dir_in = omega arith;
      tab_in = omega arith;
      stack_in = omega arith;
      kernel_in = room.fits;
    }

    pm_small : (j : ℕ) → j < pag → pm j < 2 ^ 20
    pm_small j h = omega (arith, at j h)

    space : IsSpace pag pm p (p + 1) (p + 2) d (loaded gdt m4 pm).words
    space =
        rw room.at
          (build_space-IsSpace pag pm p (p + 1) (p + 2) d k.words room.identity placed few pm_small)

    final_at : (loaded gdt m4 pm).tss_p t ≡ final_tss pm
    final_at = update_self tss1 t (final_tss pm)

    cr3_at : ((loaded gdt m4 pm).tss_p t).cr3 ≡ p * 4096
    cr3_at = ap (λ r. r.cr3) final_at ∙ omega arith

    run_at : (loaded gdt m4 pm).r_tareas id ≡ enter_task (n + 1) t running name (k.r_tareas id)
    run_at = update_self k.r_tareas id (enter_task (n + 1) t running name (k.r_tareas id))

    pages_at : (v : ℕ) → page_of pag pm (p + 2) v ≡ page_of pag (λ j. start / 4096 + j) (p + 2) v
    pages_at v = ground (arith, at (v - v_user))

    reaches :
        (addr : ℕ)
        → addr < 2 ^ 32
        → check_addr
            (loaded gdt m4 pm).tss_p
            (loaded gdt m4 pm).words
            addr
            ((loaded gdt m4 pm).r_tareas id)
          ≡ some (in_page (page_of pag (λ j. start / 4096 + j) (p + 2) (addr / 4096)) addr)
    unfolding check_addr enter_task
    reaches addr h =
        let shown : page_of pag pm (p + 2) (addr / 4096)
            ≡ page_of pag (λ j. start / 4096 + j) (p + 2) (addr / 4096) =
          pages_at (addr / 4096) in
        ap (check_addr (loaded gdt m4 pm).tss_p (loaded gdt m4 pm).words addr) run_at
        ∙ ap (λ c. some (check_word (loaded gdt m4 pm).words c addr)) cr3_at
        ∙ ap some (
            check_word-IsSpace pag pm p (p + 1) (p + 2) d _ space placed few pm_small addr h
            ∙ ap (λ o. in_page o addr) shown)

    loaded-IsStarted :
        {m1 m2 m3 : Mm}
        → Fills k.mm (start / 4096) (start / 4096 + pag) true m1
        → Marks m1 p true m2
        → Marks m2 (p + 1) true m3
        → Marks m3 (p + 2) true m4
        → IsStarted k (loaded gdt m4 pm) t n (start / 4096) pag p
    unfolding enter_task fill_tss
    loaded-IsStarted f k1 k2 k3 = record {
      status = ap (λ r. r.status) run_at;
      task = ap (λ r. r.task) run_at ∙ omega (arith, room.gdt_in);
      eip = ap (λ r. r.eip) final_at ∙ ap (λ r. r.eip) (update_self k.tss_p t filled);
      cr3 = cr3_at;
      code = ap (λ r. r.cs) final_at ∙ ap (λ r. r.cs) (update_self k.tss_p t filled);
      reaches = reaches;
      program = λ q lo hi. Marks-used k3 q (Marks-used k2 q (Marks-used k1 q (f.inside q lo hi)));
      tables = (Marks-used k3 p (Marks-used k2 p k1.here), Marks-used k3 (p + 1) k2.here, k3.here);
      others = λ j ne. update_ne k.r_tareas (enter_task (n + 1) t running name (k.r_tareas id)) ne;
      other_tss = λ j ne. update_ne tss1 (final_tss pm) ne ∙ update_ne k.tss_p filled ne;
    }

exec_of :
    (l : Layout) (k : Kernel) (start end t n d p : ℕ) (name : Chars) (room : HasRoom k t n d)
    → page_count start end ≤ 14
    → start / 4096 + page_count start end ≤ 2 ^ 20
    → (p + 2 < d) ⊎ (d + 1025 ≤ p)
    → {m1 : Mm} {pm : ℕ → ℕ}
    → load_pages
        (page_count start end)
        0
        (start / 4096)
        k.mm
        (tss1 l k t n d p start (page_count start end) name room t).pag_mem
      ≡ some (m1, pm)
    → Fills k.mm (start / 4096 + 0) (start / 4096 + page_count start end) true m1
    → ((j : ℕ)
        → pm j ≡ (
            if leb 0 j && ltb j (page_count start end)
            then start / 4096 + j
            else (tss1 l k t n d p start (page_count start end) name room t).pag_mem j))
    → FreeRun m1 p 3
    → (k' : Kernel) × (exec l start end name k ≡ some (tarea_libre k.r_tareas, k'))
      × IsStarted k k' t n (start / 4096) (page_count start end) p
exec_of l k start end t n d p name room few small apart {m1} {pm} e0 fills at run =
    let (m2, m3, m4, e1, e2, e3, k1, k2, k3) = three_requests run in
    let (gdt, e4, adds) =
      set_desc_tss_lem (tss_addr l t) n k.gdt (omega arith) room.gdt_free room.gdt_in in
    (
      loaded l k t n d p start (page_count start end) name room gdt m4 pm,
      exec-eq l k start end name room.slot few
          ∙ load_task-eq l k t n d p start (page_count start end) name room e0 e1 e2 e3 e4,
      loaded-IsStarted l k t n d p start (page_count start end) name room m4 pm gdt few small apart
          (omega (arith, run.fits, run.ready.max_hi)) (λ j h. ground (arith, at j))
          (from_start fills) k1 k2 k3,
    )

-- In a kernel that has room (a free task entry, a free `tss` below entry 99, `n` GDT entries in
-- use with `n` below 200, a proper page map, and the kernel tables that `ini_pag` makes at page
-- `d`), for a program of at most 14 pages inside the 4 GB, where after its pages are marked the
-- first free page is `p` with two more free pages behind it, all three apart from the kernel
-- tables: `exec` returns the free entry, the task runs at `V_USER` on its own directory,
-- `check_addr` gives it its own pages and its stack and nothing else, the pages it uses are
-- taken, and no other entry of the two tables has changed.
pub exec_lem :
    (l : Layout) (k : Kernel) (start end t n d p : ℕ) (name : Chars)
    → HasRoom k t n d
    → page_count start end ≤ 14
    → start / 4096 + page_count start end ≤ 2 ^ 20
    → ((m : Mm)
        → Fills k.mm (start / 4096) (start / 4096 + page_count start end) true m
        → FreeRun m p 3)
    → (p + 2 < d) ⊎ (d + 1025 ≤ p)
    → (k' : Kernel) × (exec l start end name k ≡ some (tarea_libre k.r_tareas, k'))
      × IsStarted k k' t n (start / 4096) (page_count start end) p
exec_lem l k start end t n d p name room few small run apart =
    let (m1, pm, e0, fills, at) =
      load_pages_lem (page_count start end) 0 (start / 4096) (page_count start end) k.mm
        (tss1 l k t n d p start (page_count start end) name room t).pag_mem room.map (omega arith)
        small in
    exec_of l k start end t n d p name room few small apart e0 fills at (run m1 (from_start fills))
