-- ===== src/Kernel/Calls/Transfer/Keeps.antt =====
-- What `sys_read`, `sys_write`, `sys_seek` and `sys_ret` of exec/exec.c leave as it was.
use silicio.Kernel.{Kernel, Drv, SysParam, max_drivers}
use silicio.Task.{running, waiting}
use silicio.Kernel.Calls.{sys_read_call, check, set_eax, set_status, find_drv, copy_bytes}
use silicio.Kernel.Calls.Keeps.{
  Keeps, Keeps-refl, Keeps-trans, changed-Keeps, set_eax-Keeps, set_eax-r_tareas,
}
use silicio.Kernel.Calls.Keeps.{SameTasks, SameOwners, unchanged-SameTasks, set_status-SameTasks}
use silicio.Kernel.Calls.Transfer.{with_buffer, start_read, start_write, start_seek, hand_over}
use silicio.Kernel.Calls.Transfer.{transfer_size}
use silicio.Kernel.Calls.{spares}
use silicio.Kernel.Calls.Transfer.{driver_error, answer, sys_read, sys_write, sys_seek, sys_ret}
use silicio.Base.{ℕ, refl, sym, inl, inr, Option, none, some, arith, Bool-cases, Option-cases}
use silicio.Base.{update, ◌≡◌, ◌⊎◌, ◌==◌, if◌then◌else◌}

-- The statuses that a call and its answer set.
hand_over-SameTasks : (ebx : ℕ) (k : Kernel) → SameTasks k.r_tareas (hand_over ebx k)
unfolding hand_over
hand_over-SameTasks ebx k =
    set_status-SameTasks _ _ k.r_tareas _
      (set_status-SameTasks _ _ k.r_tareas _ (unchanged-SameTasks k.r_tareas))

-- An entry whose driver stays.
entry-SameOwners :
    (r : ℕ → Drv) (i : ℕ) (e : Drv) → e.id_drv ≡ (r i).id_drv → SameOwners r (update r i e)
unfolding SameOwners
entry-SameOwners r i e h j ne = ground (arith, h)

start_read-Keeps : (eax ebx edx p_data : ℕ) (k : Kernel) → Keeps k (start_read eax ebx edx p_data k)
unfolding start_read
start_read-Keeps eax ebx edx p_data k =
    changed-Keeps k (hand_over ebx k) _ k.words k.bytes _ (hand_over-SameTasks ebx k)
      (entry-SameOwners k.r_drv ebx _ refl)

start_write-Keeps :
    (eax ebx edx p_data : ℕ) (k : Kernel) → Keeps k (start_write eax ebx edx p_data k)
unfolding start_write
start_write-Keeps eax ebx edx p_data k =
    changed-Keeps k (hand_over ebx k) _ k.words _ _ (hand_over-SameTasks ebx k)
      (entry-SameOwners k.r_drv ebx _ refl)

start_seek-Keeps : (eax ebx : ℕ) (k : Kernel) → Keeps k (start_seek eax ebx k)
unfolding start_seek
start_seek-Keeps eax ebx k =
    changed-Keeps k (hand_over ebx k) _ k.words k.bytes _ (hand_over-SameTasks ebx k)
      (entry-SameOwners k.r_drv ebx _ refl)

-- Where `with_buffer` comes back it has changed nothing or made its last argument.
with_buffer-Keeps :
    (ecx edx : ℕ) (k : Kernel) (go : ℕ → Option (ℕ × Kernel)) (r : ℕ) (k' : Kernel)
    → ((p : ℕ) → go p ≡ some (r, k') → Keeps k k')
    → with_buffer ecx edx k go ≡ some (r, k')
    → Keeps k k'
unfolding with_buffer
with_buffer-Keeps ecx edx k go r k' keeps h = elim (Option-cases (check ecx k)) [
  | inl z ↦ absurd (ground arith)
  | inr (p, z) ↦
      let either : (k' ≡ k) ⊎ (go p ≡ some (r, k')) = ground arith in
      elim either [ inl e ↦ rw e (Keeps-refl k) | inr e ↦ keeps p e ]
]

module _ (eax ebx ecx edx r : ℕ) (k k' : Kernel) where
  pub sys_read-Keeps : sys_read eax ebx ecx edx k ≡ some (r, k') → Keeps k k'
  unfolding sys_read
  sys_read-Keeps h = elim (Bool-cases (driver_error ebx k == 0)) [
    | inl z ↦
        with_buffer-Keeps ecx edx k (λ p. some (0, start_read eax ebx edx p k)) r k'
          (λ p e.
            let done : start_read eax ebx edx p k ≡ k' = ground arith in
            rw (sym done) (start_read-Keeps eax ebx edx p k))
          (ground arith)
    | inr z ↦ let e : k' ≡ k = ground arith in rw e (Keeps-refl k)
  ]

  pub sys_write-Keeps : sys_write eax ebx ecx edx k ≡ some (r, k') → Keeps k k'
  unfolding sys_write
  sys_write-Keeps h = elim (Bool-cases (driver_error ebx k == 0)) [
    | inl z ↦
        let size = transfer_size (k.r_drv ebx).size edx in
        with_buffer-Keeps ecx edx k
          (λ p.
            if spares size 0 (k.r_drv ebx).buf k.own
            then some (0, start_write eax ebx edx p k)
            else none)
          r k'
          (λ p e.
            let done : start_write eax ebx edx p k ≡ k' = ground arith in
            rw (sym done) (start_write-Keeps eax ebx edx p k))
          (ground arith)
    | inr z ↦ let e : k' ≡ k = ground arith in rw e (Keeps-refl k)
  ]

pub sys_seek-Keeps : (eax ebx : ℕ) (k : Kernel) → Keeps k (sys_seek eax ebx k).1
unfolding sys_seek
sys_seek-Keeps eax ebx k = elim (Bool-cases (driver_error ebx k == 0)) [
  | inl z ↦ rw z (start_seek-Keeps eax ebx k)
  | inr z ↦ rw z (Keeps-refl k)
]

answer-Keeps : (i : ℕ) (sys : SysParam) (k k' : Kernel) → answer i sys k ≡ some k' → Keeps k k'
unfolding answer SameOwners
answer-Keeps i sys k k' h = elim (Option-cases (set_eax (k.r_drv i).id_ret sys.ret k)) [
  | inl z ↦ absurd (ground arith)
  | inr (k1, z) ↦
      let e = k.r_drv i in
      let count = if e.call == sys_read_call then (k.params e.sys).count else 0 in
      let b = copy_bytes count 0 e.buf e.buf_ret k.bytes in
      let r = set_status k.t_indice waiting (set_status e.id_ret running k.r_tareas) in
      let tasks : SameTasks k1.r_tareas r = rw (set_eax-r_tareas _ _ k k1 z) (
        set_status-SameTasks _ _ k.r_tareas _
          (set_status-SameTasks _ _ k.r_tareas _ (unchanged-SameTasks k.r_tareas))) in
      let done : record k1 { bytes = b; r_tareas = r } ≡ k' = ground arith in
      rw (sym done) (
        Keeps-trans (set_eax-Keeps _ _ k k1 z)
          (changed-Keeps k1 r k1.r_drv k1.words b k1.params tasks (λ j ne. refl)))
]

pub sys_ret-Keeps : (ebx r : ℕ) (k k' : Kernel) → sys_ret ebx k ≡ some (r, k') → Keeps k k'
unfolding sys_ret
sys_ret-Keeps ebx r k k' h =
    let i = find_drv max_drivers 0 k.t_indice k.r_drv in
    let kept : k' ≡ k → Keeps k k' = λ e. rw e (Keeps-refl k) in
    elim (Bool-cases (i == max_drivers)) [
      | inl full ↦ kept (ground arith)
      | inr found ↦ elim (Option-cases (check ebx k)) [
        | inl z ↦ absurd (ground arith)
        | inr (q, z) ↦ elim (Option-cases (answer i (k.params q) k)) [
          | inl n ↦ kept (ground arith)
          | inr (k1, a) ↦ elim (Bool-cases (q == 0)) [
            | inl z0 ↦ kept (ground arith)
            | inr n0 ↦ let e : k' ≡ k1 = ground arith in rw e (answer-Keeps i (k.params q) k k1 a)
          ]
        ]
      ]
    ]
