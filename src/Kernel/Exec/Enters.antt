-- ===== src/Kernel/Exec/Enters.antt =====
-- The tables of exec/exec.c while one task is started after the other.
use mathlib.Core.Path.{subst}
use native.Mathlib.Decide.{ℕ_discrete}
use silicio.Strings.{Chars, strcpy}
use silicio.Mm.Search.{IsReady}
use silicio.Task.{Tss, Run}
use silicio.Task.Gdt.{IsPrefix, Adds}
use silicio.Task.TssTable.{IsFirstTss}
use silicio.Kernel.{Kernel, Layout, free_task, tarea_libre}
use silicio.Kernel.Exec.{tss_addr, enter_task}
use silicio.Base.{ℕ, zero, suc, ap, inl, true, false, some, arith, update, update_self, update_ne}
use silicio.Base.{◌+◌, ◌*◌, ◌≤◌, ◌<◌, ◌≡◌, ◌≢◌, ◌∙◌, ◌==◌}

-- The first `n` entries of the task table and of the table of `tss` are in use and no other, the GDT
-- holds two entries for each from entry 4 on, and the allocator is ready.
pub record HasTasks (k : Kernel) (n : ℕ) : Type 0 where
  pub taken : (j : ℕ) → j < n → (k.r_tareas j).task ≢ 0
  pub free : (j : ℕ) → n ≤ j → j < 100 → (k.r_tareas j).task ≡ 0
  pub tss_taken : (j : ℕ) → j < n → (k.tss_p j).cs ≢ 0
  pub tss_free : (j : ℕ) → n ≤ j → j < 100 → (k.tss_p j).cs ≡ 0
  pub gdt : IsPrefix k.gdt (4 + 2 * n)
  pub ready : IsReady k.mm

-- `k'` is `k` with a task in entry `n` of both tables: its selector is that of the gate, which leads
-- to its `tss`, the task starts at `eip`, and the other entries and the memory are as they were.
pub record Enters (k k' : Kernel) (n code eip status : ℕ) (name : Chars) : Type 0 where
  pub task : (k'.r_tareas n).task ≡ 8 * (2 * n + 5)
  pub task_tss : (k'.r_tareas n).task_tss ≡ some n
  pub status_at : (k'.r_tareas n).status ≡ status
  pub name_at : (k'.r_tareas n).name ≡ (strcpy name (k.r_tareas n).name).1
  pub gate : (k'.gdt (2 * n + 5)).base_l ≡ 8 * (2 * n + 4)
  pub eip_at : (k'.tss_p n).eip ≡ eip
  pub cs_at : (k'.tss_p n).cs ≡ code
  pub others : (j : ℕ) → n ≢ j → k'.r_tareas j ≡ k.r_tareas j
  pub other_tss : (j : ℕ) → n ≢ j → k'.tss_p j ≡ k.tss_p j
  pub other_gdt : (j : ℕ) → j < 4 + 2 * n → k'.gdt j ≡ k.gdt j
  pub bytes_same : k'.bytes ≡ k.bytes

free_task-at :
    (left i n : ℕ) (r : ℕ → Run)
    → ((j : ℕ) → j < n → (r j).task ≢ 0)
    → (r n).task ≡ 0
    → i ≤ n
    → n < i + left
    → free_task left i r ≡ n
unfolding free_task
free_task-at zero i n r taken free lo hi = absurd (omega arith)
free_task-at (suc left) i n r taken free lo hi = elim (ℕ_discrete i n) [
  | yes e ↦ let z : ((r i).task == 0) ≡ true = rw e (ground (arith, free)) in rw (z, free_task) e
  | no ne ↦
      let z : ((r i).task == 0) ≡ false = ground (arith, taken i) in
      rw (z, free_task) (free_task-at left (i + 1) n r taken free (omega arith) (omega arith))
]

module _ (k : Kernel) (n : ℕ) (h : HasTasks k n) (room : n < 98) where
  pub first_free : tarea_libre k.r_tareas ≡ n
  unfolding tarea_libre
  first_free =
      free_task-at 100 0 n k.r_tareas h.taken (h.free n (omega arith) (omega arith)) (omega arith)
        (omega arith)

  pub first_tss : IsFirstTss k.tss_p n
  first_tss = record { free = h.tss_free n (omega arith) (omega arith); before = h.tss_taken }

  -- A kernel that differs in these is one with the task.
  module _ (k' : Kernel) (l : Layout) (code eip status : ℕ) (name : Chars) (tss1 : ℕ → Tss)
      (t : Tss)
      (tasks : k'.r_tareas
        ≡ update k.r_tareas n (enter_task (4 + 2 * n + 1) n status name (k.r_tareas n)))
      (added : Adds (tss_addr l n) (4 + 2 * n) k.gdt k'.gdt) (filled : k'.tss_p ≡ update tss1 n t)
      (before : (j : ℕ) → n ≢ j → tss1 j ≡ k.tss_p j) (starts : t.eip ≡ eip) (segment : t.cs ≡ code)
      (bytes : k'.bytes ≡ k.bytes) where
    abbrev entry : Run
    entry = enter_task (4 + 2 * n + 1) n status name (k.r_tareas n)

    tasks_at : k'.r_tareas n ≡ entry
    tasks_at = rw tasks (update_self k.r_tareas n entry)

    tss_at : k'.tss_p n ≡ t
    tss_at = rw filled (update_self tss1 n t)

    pub entered : Enters k k' n code eip status name
    unfolding enter_task
    entered = record {
      task = ap (λ r. r.task) tasks_at ∙ omega arith;
      task_tss = ap (λ r. r.task_tss) tasks_at;
      status_at = ap (λ r. r.status) tasks_at;
      name_at = ap (λ r. r.name) tasks_at;
      gate = ap (λ i. (k'.gdt i).base_l) (omega arith) ∙ added.gate ∙ omega arith;
      eip_at = ap (λ r. r.eip) tss_at ∙ starts;
      cs_at = ap (λ r. r.cs) tss_at ∙ segment;
      others = λ j ne. rw tasks (update_ne k.r_tareas entry ne);
      other_tss = λ j ne. rw filled (update_ne tss1 t ne ∙ before j ne);
      other_gdt = λ j lt. added.others j (inl lt);
      bytes_same = bytes;
    }

    pub entered-HasTasks : code ≢ 0 → IsReady k'.mm → HasTasks k' (n + 1)
    entered-HasTasks some_code ready = record {
      taken = λ j lt. elim (ℕ_discrete n j) [
        | yes e ↦ rw (← e) (omega (arith, entered.task))
        | no ne ↦ rw (entered.others j ne) (h.taken j (omega arith))
      ];
      free = λ j lo hi. rw (entered.others j (omega arith)) (h.free j (omega arith) hi);
      tss_taken = λ j lt. elim (ℕ_discrete n j) [
        | yes e ↦ rw (← e) (omega (arith, entered.cs_at))
        | no ne ↦ rw (entered.other_tss j ne) (h.tss_taken j (omega arith))
      ];
      tss_free = λ j lo hi. rw (entered.other_tss j (omega arith)) (h.tss_free j (omega arith) hi);
      gdt =
          let e : 4 + 2 * n + 2 ≡ 4 + 2 * (n + 1) = omega arith in
          subst (λ x. IsPrefix k'.gdt x) e added.in_front;
      ready = ready;
    }
