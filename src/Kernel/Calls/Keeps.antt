-- ===== src/Kernel/Calls/Keeps.antt =====
-- What no system call of exec/exec.c changes.
use silicio.Mm.Bitmap.{used, IsMap}
use silicio.Task.{Tss, Run}
use silicio.Kernel.{Kernel, Drv, SysParam}
use silicio.Kernel.Calls.{sys_wait, set_eax, set_status}
use silicio.Base.{ℕ, refl, sym, ap, inl, inr, true, some, arith, Bool-cases, Option-cases, update}
use silicio.Base.{u32, ◌≡◌, ◌≢◌, ◌∙◌, ◌==◌}

-- From `k` to `k'` no task's selector or `tss` is exchanged, and in a `tss` only `eax` differs: its
-- address space, its stack, its code and its ports are as they were; nor are the GDT, the tables
-- of interrupts, ports and pipes. A driver keeps its entry, and a page that was taken stays taken.
pub record Keeps (k k' : Kernel) : Type 0 where
  pub index : k'.t_indice ≡ k.t_indice
  pub gdt_same : k'.gdt ≡ k.gdt
  pub int_same : k'.r_int ≡ k.r_int
  pub port_same : k'.r_port ≡ k.r_port
  pub pipe_same : k'.r_pipe ≡ k.r_pipe
  pub tables_same : k'.tables ≡ k.tables
  pub tss_same : (j : ℕ) → k'.tss_p j ≡ record (k.tss_p j) { eax = (k'.tss_p j).eax }
  pub task_same : (j : ℕ) → (k'.r_tareas j).task ≡ (k.r_tareas j).task
  pub task_tss_same : (j : ℕ) → (k'.r_tareas j).task_tss ≡ (k.r_tareas j).task_tss
  pub owner_same : (j : ℕ) → (k.r_drv j).id_drv ≢ 0 → (k'.r_drv j).id_drv ≡ (k.r_drv j).id_drv
  pub pages : (p : ℕ) → used k.mm p ≡ true → used k'.mm p ≡ true
  pub is_map : IsMap k.mm → IsMap k'.mm

-- The statuses of tasks may change.
pub record SameTasks (r r' : ℕ → Run) : Type 0 where
  pub selector : (j : ℕ) → (r' j).task ≡ (r j).task
  pub segment : (j : ℕ) → (r' j).task_tss ≡ (r j).task_tss

-- An entry with a driver keeps it.
unfoldable pub SameOwners : (ℕ → Drv) → (ℕ → Drv) → Type 0
SameOwners r r' = (j : ℕ) → (r j).id_drv ≢ 0 → (r' j).id_drv ≡ (r j).id_drv

-- Every change but one of an `eax` or of the map of pages.
pub changed-Keeps :
    (k : Kernel) (r : ℕ → Run) (d : ℕ → Drv) (w b : ℕ → ℕ) (p : ℕ → SysParam)
    → SameTasks k.r_tareas r
    → SameOwners k.r_drv d
    → Keeps k (record k { r_tareas = r; r_drv = d; words = w; bytes = b; params = p })
unfolding SameOwners
changed-Keeps k r d w b p st so = record {
  index = refl;
  gdt_same = refl;
  int_same = refl;
  port_same = refl;
  pipe_same = refl;
  tables_same = refl;
  tss_same = λ j. refl;
  task_same = st.selector;
  task_tss_same = st.segment;
  owner_same = so;
  pages = λ p h. h;
  is_map = λ h. h;
}

pub unchanged-SameTasks : (r : ℕ → Run) → SameTasks r r
unchanged-SameTasks r = record { selector = λ j. refl; segment = λ j. refl }

pub set_status-SameTasks :
    (i v : ℕ) (r r' : ℕ → Run) → SameTasks r r' → SameTasks r (set_status i v r')
set_status-SameTasks i v r r' h = record {
  selector = λ j. ground (arith, h.selector j);
  segment = λ j. ground (arith, h.segment j);
}

pub Keeps-refl : (k : Kernel) → Keeps k k
unfolding SameOwners
Keeps-refl k =
    changed-Keeps k k.r_tareas k.r_drv k.words k.bytes k.params (unchanged-SameTasks k.r_tareas)
      (λ j ne. refl)

pub Keeps-trans : {a b c : Kernel} → Keeps a b → Keeps b c → Keeps a c
Keeps-trans {a} {b} {c} f g = record {
  index = g.index ∙ f.index;
  gdt_same = g.gdt_same ∙ f.gdt_same;
  int_same = g.int_same ∙ f.int_same;
  port_same = g.port_same ∙ f.port_same;
  pipe_same = g.pipe_same ∙ f.pipe_same;
  tables_same = g.tables_same ∙ f.tables_same;
  tss_same =
      λ j. g.tss_same j ∙ ap (λ (t : Tss). record t { eax = (c.tss_p j).eax }) (f.tss_same j);
  task_same = λ j. g.task_same j ∙ f.task_same j;
  task_tss_same = λ j. g.task_tss_same j ∙ f.task_tss_same j;
  owner_same = λ j ne. g.owner_same j (λ e. ne (sym (f.owner_same j ne) ∙ e)) ∙ f.owner_same j ne;
  pages = λ p h. g.pages p (f.pages p h);
  is_map = λ h. g.is_map (f.is_map h);
}

-- One store into an `eax`.
abbrev with_eax : Tss → ℕ → Tss
with_eax r v = record r { eax = v }

eax-only :
    (tss_p : ℕ → Tss) (t v j : ℕ)
    → update tss_p t (with_eax (tss_p t) v) j
      ≡ with_eax (tss_p j) (update tss_p t (with_eax (tss_p t) v) j).eax
eax-only tss_p t v j = elim (Bool-cases (t == j)) [
  | inl z ↦ let e : t ≡ j = ground arith in rw (z) (ap (λ i. with_eax (tss_p i) v) e)
  | inr z ↦ rw (z) refl
]

stored-Keeps :
    (k : Kernel) (t v : ℕ)
    → Keeps k (record k { tss_p = update k.tss_p t (with_eax (k.tss_p t) v) })
stored-Keeps k t v = record {
  index = refl;
  gdt_same = refl;
  int_same = refl;
  port_same = refl;
  pipe_same = refl;
  tables_same = refl;
  tss_same = λ j. eax-only k.tss_p t v j;
  task_same = λ j. refl;
  task_tss_same = λ j. refl;
  owner_same = λ j ne. refl;
  pages = λ p h. h;
  is_map = λ h. h;
}

pub set_eax-Keeps : (i v : ℕ) (k k' : Kernel) → set_eax i v k ≡ some k' → Keeps k k'
unfolding set_eax
set_eax-Keeps i v k k' h = elim (Option-cases (k.r_tareas i).task_tss) [
  | inl z ↦ absurd (ground arith)
  | inr (t, z) ↦
      let e : record k { tss_p = update k.tss_p t (with_eax (k.tss_p t) (u32 v)) } ≡ k' =
        ground arith in
      rw (sym e) (stored-Keeps k t (u32 v))
]

pub set_eax-r_tareas :
    (i v : ℕ) (k k' : Kernel) → set_eax i v k ≡ some k' → k'.r_tareas ≡ k.r_tareas
unfolding set_eax
set_eax-r_tareas i v k k' h = elim (Option-cases (k.r_tareas i).task_tss) [
  | inl z ↦ absurd (ground arith)
  | inr (t, z) ↦
      let e : record k { tss_p = update k.tss_p t (with_eax (k.tss_p t) (u32 v)) } ≡ k' =
        ground arith in
      rw (sym e) refl
]

pub sys_wait-Keeps : (k : Kernel) → Keeps k (sys_wait k)
unfolding sys_wait SameOwners
sys_wait-Keeps k =
    changed-Keeps k _ k.r_drv k.words k.bytes k.params
      (set_status-SameTasks _ _ k.r_tareas _ (unchanged-SameTasks k.r_tareas)) (λ j ne. refl)
