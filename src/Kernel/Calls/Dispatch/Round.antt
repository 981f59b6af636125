-- ===== src/Kernel/Calls/Dispatch/Round.antt =====
-- What one round of `sys_call` of exec/exec.c leaves as it was.
use silicio.Mm.Bitmap.{IsMap}
use silicio.Task.{Tss}
use silicio.Kernel.{Kernel}
use silicio.Kernel.Calls.{set_eax, sys_wait}
use silicio.Kernel.Calls.Keeps.{Keeps, Keeps-refl, Keeps-trans, set_eax-Keeps, sys_wait-Keeps}
use silicio.Kernel.Calls.Transfer.{sys_seek}
use silicio.Kernel.Calls.Transfer.Keeps.{sys_read-Keeps, sys_write-Keeps, sys_seek-Keeps}
use silicio.Kernel.Calls.Transfer.Keeps.{sys_ret-Keeps}
use silicio.Kernel.Calls.Memory.Keeps.{sys_mem-Keeps}
use silicio.Kernel.Calls.Registry.{sys_open}
use silicio.Kernel.Calls.Registry.Keeps.{sys_reg-Keeps}
use silicio.Kernel.Calls.Dispatch.{answered, dropped, dispatch, sys_call}
use silicio.Base.{ℕ, sym, inl, inr, Option, some, arith, Option-cases, either_branch, ◌≡◌, ◌>>=◌}

module _ (k : Kernel) (o : Option (ℕ × Kernel))
    (keeps : (r : ℕ) (k1 : Kernel) → o ≡ some (r, k1) → Keeps k k1) (k' : Kernel) where
  answered-Keeps : answered o ≡ some k' → Keeps k k'
  unfolding answered
  answered-Keeps h = elim (Option-cases o) [
    | inl z ↦ absurd (ground arith)
    | inr (p, z) ↦
        let back : set_eax p.1.t_indice p.0 p.1 ≡ some k' = ground arith in
        Keeps-trans (keeps p.0 p.1 z) (set_eax-Keeps _ _ p.1 k' back)
  ]

  dropped-Keeps : dropped o ≡ some k' → Keeps k k'
  unfolding dropped
  dropped-Keeps h = elim (Option-cases o) [
    | inl z ↦ absurd (ground arith)
    | inr (p, z) ↦ let e : p.1 ≡ k' = ground arith in rw (sym e) (keeps p.0 p.1 z)
  ]

opened-Keeps :
    (junk : ℕ → ℕ) (ebx ecx : ℕ) (k k' : Kernel)
    → (sys_open junk ebx ecx k >>= λ ret. set_eax k.t_indice ret k) ≡ some k'
    → Keeps k k'
opened-Keeps junk ebx ecx k k' h = elim (Option-cases (sys_open junk ebx ecx k)) [
  | inl z ↦ absurd (ground arith)
  | inr (ret, z) ↦ set_eax-Keeps k.t_indice ret k k' (ground arith)
]

dispatch-Keeps :
    (junk : ℕ → ℕ) (r : Tss) (k k' : Kernel) → IsMap k.mm → dispatch junk r k ≡ some k' → Keeps k k'
unfolding dispatch
dispatch-Keeps junk r k k' is_map = either_branch _ _ _ (opened-Keeps junk r.ebx r.ecx k k') (
    either_branch _ _ _
      (dropped-Keeps k _ (λ v k1. sys_read-Keeps r.eax r.ebx r.ecx r.edx v k k1) k')
      (either_branch _ _ _
        (dropped-Keeps k _ (λ v k1. sys_write-Keeps r.eax r.ebx r.ecx r.edx v k k1) k')
        (either_branch _ _ _ (answered-Keeps k _ (λ v k1. sys_reg-Keeps r.ebx v k k1) k') (
          either_branch _ _ _ (dropped-Keeps k _ (λ v k1. sys_ret-Keeps r.ebx v k k1) k') (
            either_branch _ _ _ (at_once (sys_wait k) (sys_wait-Keeps k)) (
              either_branch _ _ _
                (answered-Keeps k _ (λ v k1. sys_mem-Keeps r.ebx v k k1 is_map) k')
                (either_branch _ _ _
                  (at_once (sys_seek r.eax r.ebx k).1 (sys_seek-Keeps r.eax r.ebx k))
                  (at_once k (Keeps-refl k)))))))))
  where
    at_once : (k1 : Kernel) → Keeps k k1 → some k1 ≡ some k' → Keeps k k'
    at_once k1 kept h = let e : k1 ≡ k' = cc in rw (sym e) kept

-- On a map of bytes, whatever call a task makes with whatever arguments, where `sys_call` comes
-- to its jump without copying bytes over the kernel's own (`own`), which the code does not
-- prevent, and with the records of the drivers off the kernel's memory, it has kept what `Keeps`
-- says: the selectors and the `tss` of all tasks but for `eax`, the GDT, the tables of
-- interrupts, ports and pipes, the entries of the drivers, and the pages that were taken.
pub sys_call-Keeps :
    (junk : ℕ → ℕ) (k k' : Kernel) → IsMap k.mm → sys_call junk k ≡ some k' → Keeps k k'
unfolding sys_call
sys_call-Keeps junk k k' is_map h = elim (Option-cases (k.r_tareas k.t_indice).task_tss) [
  | inl z ↦ absurd (ground arith)
  | inr (t, z) ↦ dispatch-Keeps junk (k.tss_p t) k k' is_map (ground arith)
]
