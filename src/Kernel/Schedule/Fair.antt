-- ===== src/Kernel/Schedule/Fair.antt =====
-- Every task that may run comes to its turn in `task_control` of exec/exec.c.
use mathlib.Core.Path.{subst}
use native.Mathlib.Decide.{dec_lt, ℕ_discrete}
use silicio.Task.{Run}
use silicio.Kernel.{Kernel}
use silicio.Interrupts.{Pic, outb}
use silicio.Mm.Search.{IsReady}
use silicio.Kernel.Schedule.{can_run, select_task, control_rounds, task_control}
use silicio.Kernel.Schedule.Control.{start_control-returns}
use silicio.Kernel.Schedule.Jump.{IsLinked, left_for, after_turn, control_turn_lem}
use silicio.Kernel.Schedule.Turn.{IsTable, IsNext}
use silicio.Base.{ℕ, zero, suc, refl, sym, ap, inl, inr, true, some, arith, ltb, ◌+◌, ◌-◌, ◌*◌}
use silicio.Base.{◌≤◌, ◌<◌, ◌≡◌, ◌≢◌, ◌⊎◌, ◌∙◌, if◌then◌else◌}

-- The turns from `t` to `j`.
abbrev turns : (n j t : ℕ) → ℕ
turns n j t = if ltb t j then j - t else j + n - t

-- A selection that is not `j` comes nearer to it.
nearer :
    (r : ℕ → Run) (n j t i : ℕ)
    → IsNext r n t i
    → t < n
    → 1 ≤ j
    → j < n
    → can_run r j ≡ true
    → i ≢ j
    → turns n j i < turns n j t
nearer r n j t i next ht lo hi on ne = elim (next.turn) [
  | inl (lt, idle) ↦
      let out : (j ≤ t) ⊎ (i ≤ j) = elim (dec_lt t j) [
        | yes a ↦ elim (dec_lt j i) [
          | yes b ↦ absurd (ground (arith, idle j (omega arith) b))
          | no b ↦ inr (omega arith)
        ]
        | no a ↦ inl (omega arith)
      ] in
      ground (arith, next.high)
  | inr (back, behind, before) ↦
      let not_behind : j ≤ t = elim (dec_lt t j) [
        | yes a ↦ absurd (ground (arith, behind j (omega arith) hi))
        | no a ↦ omega arith
      ] in
      let not_before : i ≤ j = elim (dec_lt j i) [
        | yes a ↦ absurd (ground (arith, before j lo a))
        | no a ↦ omega arith
      ] in
      ground (arith, next.low)
]

-- What the tasks do between a jump and the jump back: they keep the tables linked and `t_indice`, and
-- task `j` may run after it.
pub record KeepsLinked (jump : ℕ → Kernel × Pic → Kernel × Pic) (n j : ℕ) : Type 0 where
  pub linked : (des : ℕ) (s : Kernel × Pic) → IsLinked s.0 n → IsLinked (jump des s).0 n
  pub runs :
      (des : ℕ) (s : Kernel × Pic)
      → can_run s.0.r_tareas j ≡ true
      → can_run (jump des s).0.r_tareas j ≡ true
  pub index : (des : ℕ) (s : Kernel × Pic) → (jump des s).0.t_indice ≡ s.0.t_indice

module _ (jump : ℕ → Kernel × Pic → Kernel × Pic) (n j : ℕ) (lo : 1 ≤ j) (hi : j < n)
    (keeps : KeepsLinked jump n j) where
  -- After the jump to task `i` the next round begins in such a state again.
  next_round :
      (s : Kernel × Pic) (i : ℕ)
      → IsLinked s.0 n
      → can_run s.0.r_tareas j ≡ true
      → (IsLinked (after_turn jump i s).0 n)
        × (can_run (after_turn jump i s).0.r_tareas j ≡ true)
        × ((after_turn jump i s).0.t_indice ≡ i)
  next_round s i h on =
      let s1 = left_for i s in
      let h1 : IsLinked s1.0 n = record { table = h.table; task = h.task; gate = h.gate } in
      let h2 = keeps.linked (8 * (2 * i + 5)) s1 h1 in
      (
        record { table = h2.table; task = h2.task; gate = λ x a b. ground (arith, h2.gate x a b) },
        keeps.runs (8 * (2 * i + 5)) s1 on,
        keeps.index (8 * (2 * i + 5)) s1,
      )

  rounds_to :
      (d : ℕ) (s : Kernel × Pic)
      → IsLinked s.0 n
      → s.0.t_indice < n
      → can_run s.0.r_tareas j ≡ true
      → turns n j s.0.t_indice ≤ d
      → (r : ℕ) × (s' : Kernel × Pic) × (r < d)
        × (control_rounds r jump s ≡ some s')
        × (select_task s'.0 ≡ some (8 * (2 * j + 5), record s'.0 { t_indice = j }))
  unfolding control_rounds
  rounds_to zero s h ht on near = absurd (ground arith)
  rounds_to (suc d) s h ht on near =
      let (i, e, next, eq) = control_turn_lem jump n j lo hi s h ht on in
      elim (ℕ_discrete i j) [
        | yes same ↦ (
          0,
          s,
          omega arith,
          refl,
          e ∙ ap (λ x. some (8 * (2 * x + 5), record s.0 { t_indice = x })) same,
        )
        | no ne ↦
            let (h', on', at) = next_round s i h on in
            let less = nearer s.0.r_tareas n j s.0.t_indice i next ht lo hi on ne in
            let (r, s', a, e', found) =
              rounds_to d (after_turn jump i s) h' (omega (arith, next.high)) on'
                (rw at (omega arith)) in
            (suc r, s', omega arith, rw eq e', found)
      ]

  pub task_control-fair :
      (k : Kernel) (pic : Pic)
      → IsReady k.mm
      → IsLinked k n
      → can_run k.r_tareas j ≡ true
      → (r : ℕ) × (s : Kernel × Pic) × (r < n)
        × (task_control r jump (k, pic) ≡ some s)
        × (select_task s.0 ≡ some (8 * (2 * j + 5), record s.0 { t_indice = j }))
  unfolding task_control
  task_control-fair k pic ready h on =
      let (k', e, tasks, tss, gdt, bytes, at_0, ready') = start_control-returns k ready in
      let h' : IsLinked k' n = record {
        table = subst (λ t. IsTable t n) (sym tasks) h.table;
        task = rw tasks h.task;
        gate = rw gdt h.gate;
      } in
      let (r, s, a, e', found) =
        rounds_to n (k', outb 0x21 0xdc pic) h' (omega (arith, at_0)) (rw tasks on)
          (rw at_0 (ground arith)) in
      (r, s, a, rw e e', found)
