-- ===== src/Kernel/Calls/Registry/Keeps.antt =====
-- What `sys_reg` of exec/exec.c leaves as it was.
use silicio.Strings.{Chars, from}
use silicio.Kernel.{Kernel, max_drivers}
use silicio.Kernel.Calls.{check, find_drv}
use silicio.Kernel.Calls.Keeps.{Keeps, Keeps-refl, changed-Keeps, SameOwners}
use silicio.Kernel.Calls.Keeps.{unchanged-SameTasks, set_status-SameTasks}
use silicio.Kernel.Calls.Registry.{enter_driver, reg_record, sys_reg}
use silicio.Kernel.Calls.Registry.Unique.{find_drv-outcome}
use silicio.Base.{ℕ, sym, inl, inr, some, arith, ltb, Bool-cases, Option-cases, ◌≡◌, ◌⊎◌, ◌==◌}

-- Into an entry with no driver.
enter_driver-Keeps :
    (i q : ℕ) (arch : Chars) (b : ℕ) (k : Kernel)
    → (k.r_drv i).id_drv ≡ 0
    → Keeps k (enter_driver i q arch b k)
unfolding enter_driver SameOwners
enter_driver-Keeps i q arch b k free =
    changed-Keeps k _ _ k.words k.bytes k.params
      (set_status-SameTasks _ _ k.r_tareas _ (unchanged-SameTasks k.r_tareas))
      (λ j live. ground arith)

reg_record-Keeps :
    (i q r : ℕ) (k k' : Kernel)
    → (k.r_drv i).id_drv ≡ 0
    → reg_record i q k ≡ some (r, k')
    → Keeps k k'
unfolding reg_record
reg_record-Keeps i q r k k' free h =
    let sys = k.params q in
    elim (Option-cases (check sys.arch k)) [
      | inl z ↦ absurd (ground arith)
      | inr (a, za) ↦ elim (Option-cases (check sys.buf k)) [
        | inl z ↦ absurd (ground arith)
        | inr (b, zb) ↦
            let either : (k' ≡ k) ⊎ (enter_driver i q (from k.bytes a) b k ≡ k') = ground arith in
            elim either [
              | inl e ↦ rw e (Keeps-refl k)
              | inr e ↦ rw (sym e) (enter_driver-Keeps i q (from k.bytes a) b k free)
            ]
      ]
    ]

pub sys_reg-Keeps : (ebx r : ℕ) (k k' : Kernel) → sys_reg ebx k ≡ some (r, k') → Keeps k k'
unfolding sys_reg
sys_reg-Keeps ebx r k k' h =
    let i = find_drv 7 3 0 k.r_drv in
    let kept : k' ≡ k → Keeps k k' = λ e. rw e (Keeps-refl k) in
    elim (find_drv-outcome 7 3 0 k.r_drv) [
      | inl full ↦ kept (ground (arith, full.0))
      | inr free ↦ elim (Option-cases (check ebx k)) [
        | inl z ↦ kept (ground (arith, free.0))
        | inr (q, z) ↦ elim (Bool-cases (ltb (find_drv 7 3 k.t_indice k.r_drv) max_drivers)) [
          | inl own ↦ kept (ground (arith, free.0))
          | inr none_yet ↦ elim (Bool-cases (q == 0)) [
            | inl z0 ↦ kept (ground (arith, free.0))
            | inr n0 ↦ reg_record-Keeps i q r k k' free.2 (ground (arith, free.0))
          ]
        ]
      ]
    ]
