-- ===== src/Kernel/Soft/Kept.antt =====
-- What the calls of `int_soft_speed` of exec/exec.c leave as it was.
use silicio.Task.{Tss}
use silicio.Kernel.{Kernel, IntEntry}
use silicio.Kernel.Ports.{store_port, set_port, unset_port}
use silicio.Kernel.Soft.{Machine, take_int, write_pipe, on_kernel}
use silicio.Base.{ℕ, bit_and, bit_or, refl, sym, inl, inr, Option, some, arith, Bool-cases}
use silicio.Base.{Option-cases, update, bit_not, ◌/◌, ◌%◌, ◌^◌, ◌≡◌, ◌≢◌, ◌⊎◌, ◌==◌}

-- From `k` to `k'` an interrupt that has an owner keeps its entry; the tasks, the drivers, the GDT,
-- the map of pages and memory are as they were; and no `tss` is moved to another address space.
pub record Kept (k k' : Kernel) : Type 0 where
  pub owned : (n : ℕ) → (k.r_int n).tarea ≢ 0 → k'.r_int n ≡ k.r_int n
  pub index : k'.t_indice ≡ k.t_indice
  pub tasks : k'.r_tareas ≡ k.r_tareas
  pub drivers : k'.r_drv ≡ k.r_drv
  pub descriptors : k'.gdt ≡ k.gdt
  pub pages : k'.mm ≡ k.mm
  pub words_same : k'.words ≡ k.words
  pub bytes_same : k'.bytes ≡ k.bytes
  pub space : (j : ℕ) → (k'.tss_p j).cr3 ≡ (k.tss_p j).cr3

changed-Kept :
    (k : Kernel) (ints : ℕ → IntEntry) (ports pipes : ℕ → ℕ) (tss : ℕ → Tss)
    → ((n : ℕ) → (k.r_int n).tarea ≢ 0 → ints n ≡ k.r_int n)
    → ((j : ℕ) → (tss j).cr3 ≡ (k.tss_p j).cr3)
    → Kept k (record k { r_int = ints; r_port = ports; r_pipe = pipes; tss_p = tss })
changed-Kept k ints ports pipes tss h c = record {
  owned = h;
  index = refl;
  tasks = refl;
  drivers = refl;
  descriptors = refl;
  pages = refl;
  words_same = refl;
  bytes_same = refl;
  space = c;
}

pub Kept-refl : (k : Kernel) → Kept k k
Kept-refl k = changed-Kept k k.r_int k.r_port k.r_pipe k.tss_p (λ n ne. refl) (λ j. refl)

store_port-Kept : (t aux r b : ℕ) (k : Kernel) → Kept k (store_port t aux r b k)
unfolding store_port
store_port-Kept t aux r b k = changed-Kept k k.r_int _ k.r_pipe _ (λ n ne. refl) (λ j. ground arith)

pub take_int-Kept :
    (varb varc i : ℕ) (m m' : Machine)
    → take_int varb varc m ≡ some (i, m')
    → Kept m.kernel m'.kernel
unfolding take_int
take_int-Kept varb varc i m m' h =
    let k = m.kernel in
    elim (Option-cases (k.r_tareas k.t_indice).task_tss) [
      | inl z ↦ let e : m.kernel ≡ m'.kernel = ground arith in rw (sym e) (Kept-refl k)
      | inr (t, z) ↦ elim (Bool-cases ((k.r_int varb).tarea == 0)) [
        | inr owned ↦ let e : m.kernel ≡ m'.kernel = ground arith in rw (sym e) (Kept-refl k)
        | inl free ↦
            let e : IntEntry = record { tarea = k.t_indice; func = varc; cr3 = (k.tss_p t).cr3 } in
            let done : record k { r_int = update k.r_int varb e } ≡ m'.kernel = ground arith in
            rw (sym done) (
              changed-Kept k (update k.r_int varb e) k.r_port k.r_pipe k.tss_p
                (λ n ne. ground arith) (λ j. refl))
      ]
    ]

pub write_pipe-Kept :
    (junk varb varc i : ℕ) (m m' : Machine)
    → write_pipe junk varb varc m ≡ some (i, m')
    → Kept m.kernel m'.kernel
unfolding write_pipe
write_pipe-Kept junk varb varc i m m' h =
    let k = m.kernel in
    let done : record k { r_pipe = update k.r_pipe varb varc } ≡ m'.kernel = ground arith in
    rw (sym done) (
      changed-Kept k k.r_int k.r_port (update k.r_pipe varb varc) k.tss_p (λ n ne. refl)
        (λ j. refl))

pub on_kernel-Kept :
    (o : Option (ℕ × Kernel)) (i : ℕ) (m m' : Machine)
    → ((r : ℕ) (k' : Kernel) → o ≡ some (r, k') → Kept m.kernel k')
    → on_kernel o m ≡ some (i, m')
    → Kept m.kernel m'.kernel
unfolding on_kernel
on_kernel-Kept o i m m' keeps h = elim (Option-cases o) [
  | inl z ↦ absurd (ground arith)
  | inr (p, z) ↦ let e : p.1 ≡ m'.kernel = ground arith in rw (sym e) (keeps p.0 p.1 z)
]

pub set_port-Kept : (p r : ℕ) (k k' : Kernel) → set_port p k ≡ some (r, k') → Kept k k'
unfolding set_port
set_port-Kept p r k k' h = elim (Option-cases (k.r_tareas k.t_indice).task_tss) [
  | inl z ↦ let e : k ≡ k' = ground arith in rw (sym e) (Kept-refl k)
  | inr (t, z) ↦
      let aux = p / 8 in
      let mask = bit_not (2 ^ (p % 8)) in
      let either : (k ≡ k')
          ⊎ (store_port t aux (bit_and (k.r_port aux) mask) (bit_and ((k.tss_p t).iobp aux) mask) k
              ≡ k') =
        ground arith in
      elim either [
        | inl e ↦ rw (sym e) (Kept-refl k)
        | inr e ↦ rw (sym e) (store_port-Kept t aux _ _ k)
      ]
]

pub unset_port-Kept : (p r : ℕ) (k k' : Kernel) → unset_port p k ≡ some (r, k') → Kept k k'
unfolding unset_port
unset_port-Kept p r k k' h = elim (Option-cases (k.r_tareas k.t_indice).task_tss) [
  | inl z ↦ absurd (ground arith)
  | inr (t, z) ↦
      let aux = p / 8 in
      let mask = 2 ^ (p % 8) in
      let e : store_port t aux (bit_or (k.r_port aux) mask) (bit_or ((k.tss_p t).iobp aux) mask) k
          ≡ k' =
        ground arith in
      rw (sym e) (store_port-Kept t aux _ _ k)
]
