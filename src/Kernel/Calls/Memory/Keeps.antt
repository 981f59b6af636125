-- ===== src/Kernel/Calls/Memory/Keeps.antt =====
-- What `sys_mem` of exec/exec.c leaves as it was.
use native.Mathlib.Decide.{dec_lt}
use silicio.Mm.{Mm, buscar_mem}
use silicio.Mm.Bitmap.{used, IsMap, Marks, set_mem_lem, set_mem_fault}
use silicio.Kernel.{Kernel}
use silicio.Kernel.Calls.Keeps.{Keeps, Keeps-refl}
use silicio.Kernel.Calls.Memory.{open_page, give_page, sys_mem}
use silicio.Base.{ℕ, bit_and, refl, sym, ap, inl, inr, true, some, arith, Bool-cases}
use silicio.Base.{Option-cases, ◌^◌, ◌≡◌, ◌∙◌, ◌==◌, if◌then◌else◌}

-- The map of pages, in which one page is taken, and the tables of pages.
taken-Keeps :
    (k : Kernel) (p : ℕ) (m : Mm) (w : ℕ → ℕ)
    → Marks k.mm p true m
    → Keeps k (record k { mm = m; words = w })
taken-Keeps k p m w h = record {
  index = refl;
  gdt_same = refl;
  int_same = refl;
  port_same = refl;
  pipe_same = refl;
  tables_same = refl;
  tss_same = λ j. refl;
  task_same = λ j. refl;
  task_tss_same = λ j. refl;
  owner_same = λ j ne. refl;
  pages = λ q u. elim (Bool-cases (q == p)) [
    | inl z ↦ ap (used m) (ground arith) ∙ h.here
    | inr z ↦ h.others q z ∙ u
  ];
  is_map = λ i. h.is_map;
}

give_page-Keeps : (p r : ℕ) (k k' : Kernel) → IsMap k.mm → give_page p k ≡ some (r, k') → Keeps k k'
unfolding give_page
give_page-Keeps p r k k' is_map h = elim (dec_lt p (2 ^ 20)) [
  | no hi ↦ absurd (ground (arith, set_mem_fault p k.mm (omega arith)))
  | yes lo ↦
      let (m, eq, marks) = set_mem_lem p k.mm is_map lo in
      elim (Bool-cases (used k.mm p)) [
        | inl u ↦
            let e : record k { mm = m } ≡ k' = ground arith in
            rw (sym e) (taken-Keeps k p m k.words marks)
        | inr u ↦ elim (Option-cases (k.r_tareas k.t_indice).task_tss) [
          | inl z ↦ absurd (ground arith)
          | inr (t, z) ↦
              let w = open_page (bit_and (k.tss_p t).cr3 0xffff_f000) p k.words in
              let e : record k { mm = m; words = w } ≡ k' = ground arith in
              rw (sym e) (taken-Keeps k p m w marks)
        ]
      ]
]

pub sys_mem-Keeps :
    (ebx r : ℕ) (k k' : Kernel) → IsMap k.mm → sys_mem ebx k ≡ some (r, k') → Keeps k k'
unfolding sys_mem
sys_mem-Keeps ebx r k k' is_map h =
    elim (Option-cases (if ebx == 0 then buscar_mem k.mm else some ebx)) [
      | inl z ↦ absurd (ground arith)
      | inr (p, z) ↦ elim (Bool-cases (p == 0)) [
        | inl z0 ↦ let e : k' ≡ k = ground arith in rw e (Keeps-refl k)
        | inr n0 ↦ give_page-Keeps p r k k' is_map (ground arith)
      ]
    ]
