-- ===== src/Start/Modules.antt =====
-- Which tasks the modules become in `_main` of main/main.c.
use mathlib.Core.Path.{subst}
use native.Mathlib.Decide.{ℕ_discrete}
use silicio.Strings.{strcpy, from}
use silicio.Multiboot.{Loader}
use silicio.Mm.Search.{IsReady}
use silicio.Mm.Paging.Run.{FreeRun}
use silicio.Mm.Paging.Total.{FreeRun-less}
use silicio.Task.{running}
use silicio.Task.Space.{v_user}
use silicio.Kernel.{Kernel}
use silicio.Kernel.Exec.{page_count, user_cs}
use silicio.Kernel.Exec.Enters.{HasTasks, Enters}
use silicio.Start.{Image}
use silicio.Base.{ℕ, refl, sym, ap, inl, inr, Bool, some, List, [], arith, leb, length}
use silicio.Base.{length-append, ◌+◌, ◌-◌, ◌*◌, ◌/◌, ◌≤◌, ◌<◌, ◌≡◌, ◌⊎◌, ◌∙◌, ◌∷◌, ◌++◌}

-- The end of the last module.
abbrev pub modules_end : Loader → ℕ
modules_end loader = (loader.mods (loader.multi.mods_count - 1)).mod_end

-- The first free pages are `r` in a row, behind the last module.
pub record HasPages (loader : Loader) (k : Kernel) (r : ℕ) : Type 0 where
  pub page : ℕ
  pub behind : modules_end loader / 4096 < page
  pub run : FreeRun k.mm page r

pub HasPages-less :
    {loader : Loader} {k : Kernel} {n r : ℕ} → r ≤ n → HasPages loader k n → HasPages loader k r
HasPages-less le h = record { page = h.page; behind = h.behind; run = FreeRun-less le h.run }

module _ (image : Image) (loader : Loader) (bytes : ℕ → ℕ) where
  -- Module `i` has at most 14 pages, which `exec` asks for.
  abbrev pub fits : ℕ → Bool
  fits i = leb (page_count (loader.mods i).mod_start (loader.mods i).mod_end) 14

  -- The pages of module `i` do not go past those of the last module.
  abbrev pub IsInside : ℕ → Type 0
  IsInside i =
      (loader.mods i).mod_start / 4096
        + page_count (loader.mods i).mod_start (loader.mods i).mod_end
      ≤ modules_end loader / 4096 + 1

  -- Entry `j` of `k'` is the task of module `i`: it is running, its `eip` is the start of the user
  -- space, its directory is at a page behind the last module, which the allocator gave, and it has
  -- the name of the module, over what the entry had for a name in `k`.
  pub record IsModule (k k' : Kernel) (j i : ℕ) : Type 0 where
    pub status : (k'.r_tareas j).status ≡ running
    pub task : (k'.r_tareas j).task ≡ 8 * (2 * j + 5)
    pub task_tss : (k'.r_tareas j).task_tss ≡ some j
    pub name :
        (k'.r_tareas j).name ≡ (strcpy (from bytes (loader.mods i).string) (k.r_tareas j).name).1
    pub gate : (k'.gdt (2 * j + 5)).base_l ≡ 8 * (2 * j + 4)
    pub eip : (k'.tss_p j).eip ≡ v_user * 4096
    pub code : (k'.tss_p j).cs ≡ user_cs
    pub space : (p : ℕ) × (modules_end loader / 4096 < p) × ((k'.tss_p j).cr3 ≡ 4096 * p)

  -- The entries from `n` on are the modules of the list, in order.
  abbrev pub Modules : Kernel → Kernel → ℕ → List ℕ → Type 0
  Modules k k' n [] = Unit
  Modules k k' n (i ∷ is) = IsModule k k' n i × Modules k k' (n + 1) is

  -- From `k` to `k'` these modules have become tasks, and no other entry has changed.
  pub record Runs (k k' : Kernel) (n : ℕ) (is : List ℕ) : Type 0 where
    pub tasks : HasTasks k' (n + length is)
    pub modules : Modules k k' n is
    pub others : (j : ℕ) → (j < n) ⊎ (n + length is ≤ j) → k'.r_tareas j ≡ k.r_tareas j
    pub other_tss : (j : ℕ) → (j < n) ⊎ (n + length is ≤ j) → k'.tss_p j ≡ k.tss_p j
    pub other_gdt : (j : ℕ) → j < 4 + 2 * n → k'.gdt j ≡ k.gdt j
    pub bytes_same : k'.bytes ≡ k.bytes

  -- What later steps leave alone stays.
  Modules-later :
      (k k1 k2 : Kernel) (n : ℕ) (is : List ℕ)
      → Modules k k1 n is
      → ((j : ℕ) → j < n + length is → k2.r_tareas j ≡ k1.r_tareas j)
      → ((j : ℕ) → j < n + length is → k2.tss_p j ≡ k1.tss_p j)
      → ((j : ℕ) → j < 4 + 2 * (n + length is) → k2.gdt j ≡ k1.gdt j)
      → Modules k k2 n is
  Modules-later k k1 k2 n [] m same same_tss same_gdt = tt
  Modules-later k k1 k2 n (i ∷ is) (m, ms) same same_tss same_gdt =
      let e'' : k2.gdt (2 * n + 5) ≡ k1.gdt (2 * n + 5) = same_gdt (2 * n + 5) (omega arith) in
      let e : k2.r_tareas n ≡ k1.r_tareas n = same n (omega arith) in
      let e' : k2.tss_p n ≡ k1.tss_p n = same_tss n (omega arith) in
      (
        record {
          status = rw e m.status;
          task = rw e m.task;
          task_tss = rw e m.task_tss;
          name = rw e m.name;
          gate = rw e'' m.gate;
          eip = rw e' m.eip;
          code = rw e' m.code;
          space = let (p, lo, at) = m.space in (p, lo, rw e' at);
        },
        Modules-later k k1 k2 (n + 1) is ms (λ j l. same j (omega arith))
            (λ j l. same_tss j (omega arith)) (λ j l. same_gdt j (omega arith)),
      )

  Modules-earlier :
      (k k1 k2 : Kernel) (n : ℕ) (is : List ℕ)
      → Modules k1 k2 n is
      → ((j : ℕ) → n ≤ j → k1.r_tareas j ≡ k.r_tareas j)
      → Modules k k2 n is
  Modules-earlier k k1 k2 n [] m same = tt
  Modules-earlier k k1 k2 n (i ∷ is) (m, ms) same = (
    record {
      status = m.status;
      task = m.task;
      task_tss = m.task_tss;
      name =
          m.name
          ∙ ap (λ r. (strcpy (from bytes (loader.mods i).string) r.name).1) (same n (omega arith));
      gate = m.gate;
      eip = m.eip;
      code = m.code;
      space = m.space;
    },
    Modules-earlier k k1 k2 (n + 1) is ms (λ j l. same j (omega arith)),
  )

  Modules-append :
      (k k' : Kernel) (n : ℕ) (is js : List ℕ)
      → Modules k k' n is
      → Modules k k' (n + length is) js
      → Modules k k' n (is ++ js)
  Modules-append k k' n [] js m m' = subst (λ x. Modules k k' x js) (omega arith) m'
  Modules-append k k' n (i ∷ is) js (m, ms) m' =
      (m, Modules-append k k' (n + 1) is js ms (subst (λ x. Modules k k' x js) (omega arith) m'))

  pub Runs-append :
      {k k1 k2 : Kernel} {n : ℕ} {is js : List ℕ}
      → Runs k k1 n is
      → Runs k1 k2 (n + length is) js
      → Runs k k2 n (is ++ js)
  Runs-append {k} {k1} {k2} {n} {is} {js} r r' =
      let len : n + length (is ++ js) ≡ n + length is + length js =
        omega (arith, length-append is js) in
      record {
        tasks = subst (HasTasks k2) (sym len) r'.tasks;
        modules =
            Modules-append k k2 n is js
              (Modules-later k k1 k2 n is r.modules (λ j l. r'.others j (inl l))
                (λ j l. r'.other_tss j (inl l)) r'.other_gdt)
              (Modules-earlier k k1 k2 (n + length is) js r'.modules (λ j l. r.others j (inr l)));
        others = λ j far.
            r'.others j (ground (arith, length-append is js))
            ∙ r.others j (ground (arith, length-append is js));
        other_tss = λ j far.
            r'.other_tss j (ground (arith, length-append is js))
            ∙ r.other_tss j (ground (arith, length-append is js));
        other_gdt = λ j l. r'.other_gdt j (omega arith) ∙ r.other_gdt j l;
        bytes_same = r'.bytes_same ∙ r.bytes_same;
      }

  pub Runs-nil : {k : Kernel} {n : ℕ} → HasTasks k n → Runs k k n []
  Runs-nil {k} {n} h = record {
    tasks = subst (HasTasks k) (omega arith) h;
    modules = tt;
    others = λ j far. refl;
    other_tss = λ j far. refl;
    other_gdt = λ j l. refl;
    bytes_same = refl;
  }

  pub Runs-one :
      {k k' : Kernel} {n i p : ℕ}
      → modules_end loader / 4096 < p
      → (k'.tss_p n).cr3 ≡ 4096 * p
      → HasTasks k' (n + 1)
      → Enters k k' n user_cs (v_user * 4096) running (from bytes (loader.mods i).string)
      → Runs k k' n (i ∷ [])
  Runs-one {k} {k'} {n} {i} {p} behind cr3 h e = record {
    tasks = h;
    modules = (
      record {
        status = e.status_at;
        task = e.task ∙ omega arith;
        task_tss = e.task_tss;
        name = e.name_at;
        gate = e.gate;
        eip = e.eip_at;
        code = e.cs_at;
        space = (p, behind, cr3);
      },
      tt,
    );
    others = λ j far. e.others j (ground arith);
    other_tss = λ j far. e.other_tss j (ground arith);
    other_gdt = e.other_gdt;
    bytes_same = e.bytes_same;
  }

  -- A step that leaves the tables and the memory alone, and the allocator ready.
  pub Runs-control :
      {k k1 k2 : Kernel} {n : ℕ} {is : List ℕ}
      → Runs k k1 n is
      → k2.r_tareas ≡ k1.r_tareas
      → k2.tss_p ≡ k1.tss_p
      → k2.gdt ≡ k1.gdt
      → k2.bytes ≡ k1.bytes
      → IsReady k2.mm
      → Runs k k2 n is
  Runs-control {k} {k1} {k2} {n} {is} r tasks tss gdt bytes ready = record {
    tasks = record {
      taken = rw tasks r.tasks.taken;
      free = rw tasks r.tasks.free;
      tss_taken = rw tss r.tasks.tss_taken;
      tss_free = rw tss r.tasks.tss_free;
      gdt = rw gdt r.tasks.gdt;
      ready = ready;
    };
    modules =
        Modules-later k k1 k2 n is r.modules (λ j l. ap (λ t. t j) tasks) (λ j l. ap (λ t. t j) tss)
          (λ j l. ap (λ t. t j) gdt);
    others = λ j far. ap (λ t. t j) tasks ∙ r.others j far;
    other_tss = λ j far. ap (λ t. t j) tss ∙ r.other_tss j far;
    other_gdt = λ j l. ap (λ t. t j) gdt ∙ r.other_gdt j l;
    bytes_same = bytes ∙ r.bytes_same;
  }

  -- An entry of the modules, by its number.
  pub Modules-at :
      {k k' : Kernel} (n : ℕ) (is : List ℕ) (j : ℕ)
      → Modules k k' n is
      → n ≤ j
      → j < n + length is
      → (i : ℕ) × IsModule k k' j i
  Modules-at n [] j m lo hi = absurd (omega arith)
  Modules-at {k} {k'} n (i ∷ is) j (m, ms) lo hi = elim (ℕ_discrete n j) [
    | yes e ↦ (i, subst (λ x. IsModule k k' x i) e m)
    | no ne ↦ Modules-at (n + 1) is j ms (omega arith) (omega arith)
  ]
