-- ===== src/Kernel/Exec/Started.antt =====
-- What `exec` of exec/exec.c finds and what it leaves.
use native.Mathlib.Decide.{ℕ_discrete}
use silicio.Mm.{Mm}
use silicio.Mm.Bitmap.{used, IsMap, Marks, set_mem_lem}
use silicio.Mm.Boot.{Fills, Fills-nil, Fills-cons}
use silicio.Mm.Paging.Identity.{IsIdentity, tables_at}
use silicio.Task.{running, max_gdt}
use silicio.Task.Gdt.{IsPrefix}
use silicio.Task.TssTable.{IsFirstTss}
use silicio.Task.Space.{v_user, check_addr}
use silicio.Task.Space.Isolation.{page_of, in_page}
use silicio.Kernel.{Kernel, tarea_libre}
use silicio.Kernel.Exec.{load_pages, user_cs}
use silicio.Base.{ℕ, zero, suc, refl, true, some, arith, ltb, leb, update, ◌+◌, ◌*◌, ◌/◌}
use silicio.Base.{◌^◌, ◌≤◌, ◌<◌, ◌≡◌, ◌≢◌, ◌∙◌, ◌&&◌, if◌then◌else◌}

-- The pages are taken, and noted in order.
pub load_pages_lem :
    (left cont first hi : ℕ) (m : Mm) (pm : ℕ → ℕ)
    → IsMap m
    → cont + left ≡ hi
    → first + hi ≤ 2 ^ 20
    → (m' : Mm) × (pm' : ℕ → ℕ) × (load_pages left cont first m pm ≡ some (m', pm'))
      × Fills m (first + cont) (first + hi) true m'
      × ((j : ℕ) → pm' j ≡ (if leb cont j && ltb j hi then first + j else pm j))
unfolding load_pages
load_pages_lem zero cont first hi m pm h e small =
    (m, pm, refl, Fills-nil m (first + cont) (first + hi) true h (omega arith), λ j. ground arith)
load_pages_lem (suc left) cont first hi m pm h e small =
    let (m1, eq, marks) = set_mem_lem (first + cont) m h (omega arith) in
    let (m2, pm2, eq2, fills, at) =
      load_pages_lem left (cont + 1) first hi m1 (update pm cont (first + cont)) marks.is_map
        (omega arith) small in
    let next : first + (cont + 1) ≡ first + cont + 1 = omega arith in
    (
      m2,
      pm2,
      rw eq eq2,
      Fills-cons (omega arith) marks (rw next at fills),
      λ j. ground (arith, at j),
    )

-- What `exec` finds: a free place in each table, and the kernel's tables as `ini_pag` left them, at
-- the pages from `d` on.
pub record HasRoom (k : Kernel) (t n d : ℕ) : Type 0 where
  pub slot : tarea_libre k.r_tareas ≢ 0
  pub tss_free : IsFirstTss k.tss_p t
  pub tss_in : t < 99
  pub gdt_free : IsPrefix k.gdt n
  pub gdt_in : n < max_gdt
  pub map : IsMap k.mm
  pub identity : IsIdentity k.words d
  pub at : k.tables ≡ tables_at d
  pub fits : d + 1025 ≤ 2 ^ 20

-- The task that `exec` has made in entry `id`: it may run, its `tss` starts at `V_USER` on its own
-- directory, and what it may hand to the kernel is its `pag` pages from `first` on and its stack.
pub record IsStarted (k k' : Kernel) (t n first pag p : ℕ) : Type 0 where
  pub status : (k'.r_tareas (tarea_libre k.r_tareas)).status ≡ running
  pub task : (k'.r_tareas (tarea_libre k.r_tareas)).task ≡ 8 * (n + 1)
  pub eip : (k'.tss_p t).eip ≡ v_user * 4096
  pub cr3 : (k'.tss_p t).cr3 ≡ p * 4096
  pub code : (k'.tss_p t).cs ≡ user_cs
  pub reaches :
      (addr : ℕ)
      → addr < 2 ^ 32
      → check_addr k'.tss_p k'.words addr (k'.r_tareas (tarea_libre k.r_tareas))
        ≡ some (in_page (page_of pag (λ j. first + j) (p + 2) (addr / 4096)) addr)
  pub program : (q : ℕ) → first ≤ q → q < first + pag → used k'.mm q ≡ true
  pub tables : (used k'.mm p ≡ true) × (used k'.mm (p + 1) ≡ true) × (used k'.mm (p + 2) ≡ true)
  pub others : (j : ℕ) → tarea_libre k.r_tareas ≢ j → k'.r_tareas j ≡ k.r_tareas j
  pub other_tss : (j : ℕ) → t ≢ j → k'.tss_p j ≡ k.tss_p j

-- What is taken stays taken.
pub Marks-used :
    {m m' : Mm} {p : ℕ} → Marks m p true m' → (q : ℕ) → used m q ≡ true → used m' q ≡ true
Marks-used {p = p} k q h = elim (ℕ_discrete q p) [
  | yes e ↦ rw e k.here
  | no ne ↦ k.others q (ground arith) ∙ h
]
