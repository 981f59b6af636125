-- ===== src/Kernel/Calls/Registry/Unique.antt =====
-- `sys_reg` of exec/exec.c on the table of drivers: no task gets two entries.
use native.Mathlib.Decide.{ℕ_discrete}
use silicio.Kernel.{Kernel, Drv, max_drivers}
use silicio.Kernel.Calls.{check, find_drv}
use silicio.Kernel.Calls.Registry.{enter_driver, reg_record, sys_reg}
use silicio.Base.{ℕ, zero, suc, sym, ap, inl, inr, true, false, some, arith, Bool-cases}
use silicio.Base.{Option-cases, ◌+◌, ◌≤◌, ◌<◌, ◌≡◌, ◌≢◌, ◌⊎◌, ◌∙◌, ◌==◌}

-- The search finds the first entry of `id`, or there is none.
pub find_drv-outcome :
    (left lo id : ℕ) (r_drv : ℕ → Drv)
    → ((find_drv left lo id r_drv ≡ lo + left)
        × ((j : ℕ) → lo ≤ j → j < lo + left → (r_drv j).id_drv ≢ id))
      ⊎ ((find_drv left lo id r_drv < lo + left)
          × (lo ≤ find_drv left lo id r_drv)
          × ((r_drv (find_drv left lo id r_drv)).id_drv ≡ id))
unfolding find_drv
find_drv-outcome zero lo id r_drv = inl (omega arith, λ j a b. absurd (omega arith))
find_drv-outcome (suc left) lo id r_drv = elim (ℕ_discrete (r_drv lo).id_drv id) [
  | yes e ↦
      let z : ((r_drv lo).id_drv == id) ≡ true = ground arith in
      rw (z, find_drv) (inr (omega arith, omega arith, e))
  | no ne ↦
      let z : ((r_drv lo).id_drv == id) ≡ false = ground arith in
      let later = find_drv-outcome left (lo + 1) id r_drv in
      rw (z, find_drv)
        (elim later [
          | inl h ↦ inl (
            omega (arith, h.0),
            λ j a b. elim (ℕ_discrete j lo) [
              | yes e ↦ λ d. ne (ap (λ t. (r_drv t).id_drv) (sym e) ∙ d)
              | no d ↦ h.1 j (omega arith) (omega arith)
            ],
          )
          | inr h ↦ inr (omega (arith, h.0), omega (arith, h.1), h.2)
        ])
]

-- No two entries from 3 on have the same driver.
unfoldable pub IsUnique : (ℕ → Drv) → Type 0
IsUnique r_drv =
    (i j : ℕ)
    → 3 ≤ i
    → i < max_drivers
    → 3 ≤ j
    → j < max_drivers
    → (r_drv i).id_drv ≢ 0
    → (r_drv i).id_drv ≡ (r_drv j).id_drv
    → i ≡ j

-- What may have changed where the call comes back: nothing, or the entry `i`, to the task.
record Entered (i r : ℕ) (k k' : Kernel) : Type 0 where
  result : r ≡ i
  mine : (k'.r_drv i).id_drv ≡ k.t_indice
  others : (j : ℕ) → j ≢ i → k'.r_drv j ≡ k.r_drv j

reg_record-outcome :
    (i q r : ℕ) (k k' : Kernel) → reg_record i q k ≡ some (r, k') → (k' ≡ k) ⊎ Entered i r k k'
unfolding reg_record enter_driver
reg_record-outcome i q r k k' h = ground arith

-- The new entry of a task that had none keeps the entries apart.
Entered-IsUnique :
    (i r : ℕ) (k k' : Kernel)
    → IsUnique k.r_drv
    → ((j : ℕ) → 3 ≤ j → j < 10 → (k.r_drv j).id_drv ≢ k.t_indice)
    → Entered i r k k'
    → IsUnique k'.r_drv
unfolding IsUnique
Entered-IsUnique i r k k' u none_yet h a b a3 a10 b3 b10 live e =
    let same : (j : ℕ) → j ≢ i → (k'.r_drv j).id_drv ≡ (k.r_drv j).id_drv =
      λ j ne. ap (λ (d : Drv). d.id_drv) (h.others j ne) in
    let mine : (j : ℕ) → j ≡ i → (k'.r_drv j).id_drv ≡ k.t_indice =
      λ j d. ap (λ t. (k'.r_drv t).id_drv) d ∙ h.mine in
    elim (ℕ_discrete a i) [
      | yes ai ↦ elim (ℕ_discrete b i) [
        | yes bi ↦ ai ∙ sym bi
        | no bn ↦ absurd (none_yet b b3 b10 (sym (same b bn) ∙ sym e ∙ mine a ai))
      ]
      | no an ↦ elim (ℕ_discrete b i) [
        | yes bi ↦ absurd (none_yet a a3 a10 (sym (same a an) ∙ e ∙ mine b bi))
        | no bn ↦ u a b a3 a10 b3 b10 (λ z. live (same a an ∙ z)) (sym (same a an) ∙ e ∙ same b bn)
      ]
    ]

-- Where no two entries from 3 on have the same driver, `sys_reg`, on whatever branch it comes
-- back, keeps it so.
pub sys_reg-IsUnique :
    (ebx r : ℕ) (k k' : Kernel)
    → IsUnique k.r_drv
    → sys_reg ebx k ≡ some (r, k')
    → IsUnique k'.r_drv
unfolding sys_reg
sys_reg-IsUnique ebx r k k' u h =
    let i = find_drv 7 3 0 k.r_drv in
    let free = find_drv-outcome 7 3 0 k.r_drv in
    let kept : k' ≡ k → IsUnique k'.r_drv = λ e. rw e u in
    elim (find_drv-outcome 7 3 k.t_indice k.r_drv) [
      | inr own ↦ kept (ground (arith, own.0))
      | inl own ↦ elim (Option-cases (check ebx k)) [
        | inl z ↦ kept (ground (arith, own.0))
        | inr (q, z) ↦ elim (Bool-cases (q == 0)) [
          | inl z0 ↦ kept (ground (arith, own.0))
          | inr n0 ↦ elim (Bool-cases (i == max_drivers)) [
            | inl full ↦ kept (ground (arith, own.0))
            | inr room ↦
                let done : reg_record i q k ≡ some (r, k') = ground (arith, own.0) in
                elim (reg_record-outcome i q r k k' done) [
                  | inl e ↦ kept e
                  | inr e ↦ Entered-IsUnique i r k k' u own.1 e
                ]
          ]
        ]
      ]
    ]
