-- ===== src/Kernel/Schedule/Turn.antt =====
-- Which task `task_control` of exec/exec.c selects.
use native.Mathlib.Decide.{dec_lt, ℕ_discrete}
use silicio.Task.{Run, max_task}
use silicio.Kernel.{Kernel}
use silicio.Kernel.Schedule.{select_fuel, advance, can_run, choose, select_task}
use silicio.Base.{ℕ, zero, suc, refl, ap, inl, inr, true, false, none, some, arith, Bool-cases}
use silicio.Base.{◌+◌, ◌≤◌, ◌<◌, ◌≡◌, ◌≢◌, ◌⊎◌, ◌∙◌}

-- The tasks in memory are those of the entries from 1 below `n`.
pub record IsTable (r_tareas : ℕ → Run) (n : ℕ) : Type 0 where
  pub some_task : 1 < n
  pub fits : n ≤ max_task
  pub taken : (j : ℕ) → 1 ≤ j → j < n → (r_tareas j).task ≢ 0
  pub ends : n < max_task → (r_tareas n).task ≡ 0

-- No entry from `lo` below `hi` may run.
abbrev pub Idle : (ℕ → Run) → ℕ → ℕ → Type 0
Idle r_tareas lo hi = (j : ℕ) → lo ≤ j → j < hi → can_run r_tareas j ≡ false

-- `i` is the first task behind `t`, round the end of the table, that may run.
pub record IsNext (r_tareas : ℕ → Run) (n t i : ℕ) : Type 0 where
  pub low : 1 ≤ i
  pub high : i < n
  pub runs : can_run r_tareas i ≡ true
  pub turn :
      ((t < i) × Idle r_tareas (t + 1) i) ⊎ ((i ≤ t) × Idle r_tareas (t + 1) n × Idle r_tareas 1 i)

module _ (r_tareas : ℕ → Run) (n : ℕ) (h : IsTable r_tareas n) where
  advance-inside : (t : ℕ) → t + 1 < n → advance t r_tareas ≡ t + 1
  unfolding advance
  advance-inside t l = ground (arith, h.fits, h.taken (t + 1))

  advance-last : (t : ℕ) → t + 1 ≡ n → advance t r_tareas ≡ 1
  unfolding advance
  advance-last t e = elim (ℕ_discrete n max_task) [
    | yes last ↦ ground arith
    | no ne ↦
        let free = ap (λ x. (r_tareas x).task) e ∙ h.ends (omega (arith, h.fits)) in ground arith
  ]

  Idle-more :
      (lo hi : ℕ) → can_run r_tareas lo ≡ false → Idle r_tareas (lo + 1) hi → Idle r_tareas lo hi
  Idle-more lo hi off rest j a b = elim (ℕ_discrete lo j) [
    | yes e ↦ rw (← e) off
    | no ne ↦ rest j (omega arith) b
  ]

  -- One round that goes on, and one that ends.
  choose-next :
      (left t i : ℕ)
      → advance t r_tareas ≡ i
      → can_run r_tareas i ≡ false
      → choose (suc left) t r_tareas ≡ choose left i r_tareas
  unfolding choose
  choose-next left t i e off =
      let passed : can_run r_tareas (advance t r_tareas) ≡ false = ap (can_run r_tareas) e ∙ off in
      rw (passed, choose) (ap (λ x. choose left x r_tareas) e)

  choose-stop :
      (left t i : ℕ)
      → advance t r_tareas ≡ i
      → can_run r_tareas i ≡ true
      → choose (suc left) t r_tareas ≡ some i
  unfolding choose
  choose-stop left t i e on =
      let found : can_run r_tareas (advance t r_tareas) ≡ true = ap (can_run r_tareas) e ∙ on in
      rw (found, choose) (ap some e)

  -- A task to come, up to `j`, that may run is found.
  find :
      (left t j : ℕ)
      → t < j
      → j < n
      → can_run r_tareas j ≡ true
      → j ≤ t + left
      → (i : ℕ) × (choose left t r_tareas ≡ some i)
        × (t < i)
        × (i ≤ j)
        × (can_run r_tareas i ≡ true)
        × Idle r_tareas (t + 1) i
  find zero t j lt hj on fuel = absurd (omega arith)
  find (suc left) t j lt hj on fuel =
      let e = advance-inside t (omega arith) in
      elim (Bool-cases (can_run r_tareas (t + 1))) [
        | inl here ↦ (
          t + 1,
          choose-stop left t (t + 1) e here,
          omega arith,
          omega arith,
          here,
          λ k a b. absurd (omega arith),
        )
        | inr off ↦
            let ne : t + 1 ≢ j = λ same. ground (arith, ap (can_run r_tareas) same) in
            let (i, got, lo, hi, runs, idle) =
              find left (t + 1) j (omega arith) hj on (omega arith) in
            (
              i,
              choose-next left t (t + 1) e off ∙ got,
              omega arith,
              hi,
              runs,
              Idle-more (t + 1) i off idle,
            )
      ]

  IsNext-here : (t : ℕ) → t + 1 < n → can_run r_tareas (t + 1) ≡ true → IsNext r_tareas n t (t + 1)
  IsNext-here t inside here = record {
    low = omega arith;
    high = inside;
    runs = here;
    turn = inl (omega arith, λ k a b. absurd (omega arith));
  }

  IsNext-first : (t : ℕ) → t < n → can_run r_tareas 1 ≡ true → n ≤ t + 1 → IsNext r_tareas n t 1
  IsNext-first t ht here last = record {
    low = omega arith;
    high = h.some_task;
    runs = here;
    turn =
        inr (
          omega (arith, h.some_task),
          λ k a b. absurd (omega arith),
          λ k a b. absurd (omega arith),
        );
  }

  IsNext-round :
      (t i j : ℕ)
      → can_run r_tareas 1 ≡ false
      → 1 < i
      → i ≤ j
      → j < n
      → can_run r_tareas i ≡ true
      → Idle r_tareas 2 i
      → n ≤ t + 1
      → IsNext r_tareas n t i
  IsNext-round t i j off a b hj runs idle last = record {
    low = omega arith;
    high = omega arith;
    runs = runs;
    turn = inr (omega arith, λ k a b. absurd (omega arith), Idle-more 1 i off idle);
  }

  IsNext-later :
      (t i : ℕ)
      → can_run r_tareas (t + 1) ≡ false
      → IsNext r_tareas n (t + 1) i
      → IsNext r_tareas n t i
  IsNext-later t i off next = record {
    low = next.low;
    high = next.high;
    runs = next.runs;
    turn = elim (next.turn) [
      | inl (lt, idle) ↦ inl (omega arith, Idle-more (t + 1) i off idle)
      | inr (le, behind, before) ↦
          let ne : i ≢ t + 1 = λ same. ground (arith, ap (can_run r_tareas) same, next.runs) in
          inr (omega arith, Idle-more (t + 1) n off behind, before)
    ];
  }

  -- From any task on, the pass to the end and the one from the start find a task that may run.
  choose_lem :
      (left t j : ℕ)
      → t < n
      → 1 ≤ j
      → j < n
      → can_run r_tareas j ≡ true
      → n + j ≤ t + left
      → (i : ℕ) × (choose left t r_tareas ≡ some i) × IsNext r_tareas n t i
  choose_lem zero t j ht lo hj on fuel = absurd (omega arith)
  choose_lem (suc left) t j ht lo hj on fuel = elim (dec_lt (t + 1) n) [
    | yes inside ↦
        let e = advance-inside t inside in
        elim (Bool-cases (can_run r_tareas (t + 1))) [
          | inl here ↦ (t + 1, choose-stop left t (t + 1) e here, IsNext-here t inside here)
          | inr off ↦
              let (i, got, next) = choose_lem left (t + 1) j inside lo hj on (omega arith) in
              (i, choose-next left t (t + 1) e off ∙ got, IsNext-later t i off next)
        ]
    | no out ↦
        let e = advance-last t (omega arith) in
        elim (Bool-cases (can_run r_tareas 1)) [
          | inl here ↦ (1, choose-stop left t 1 e here, IsNext-first t ht here (omega arith))
          | inr off ↦
              let ne : 1 ≢ j = λ same. ground (arith, ap (can_run r_tareas) same) in
              let (i, got, a, b, runs, idle) = find left 1 j (omega arith) hj on (omega arith) in
              (
                i,
                choose-next left t 1 e off ∙ got,
                IsNext-round t i j off a b hj runs idle (omega arith),
              )
        ]
  ]

-- Where the tasks in memory are the entries from 1 below `n`, at most 100, `t_indice` is below
-- `n`, and one of the tasks may run, the search of `task_control` ends within its rounds and
-- selects a task that may run: the first one behind `t_indice`, or, where none behind it may, the
-- first one of the table; it returns the selector of that task, and only `t_indice` has changed.
pub select_task_lem :
    (k : Kernel) (n j : ℕ)
    → IsTable k.r_tareas n
    → k.t_indice < n
    → 1 ≤ j
    → j < n
    → can_run k.r_tareas j ≡ true
    → (i : ℕ) × (select_task k ≡ some ((k.r_tareas i).task, record k { t_indice = i }))
      × IsNext k.r_tareas n k.t_indice i
unfolding select_task
select_task_lem k n j h ht lo hj on =
    let (i, got, next) =
      choose_lem k.r_tareas n h select_fuel k.t_indice j ht lo hj on (omega (arith, h.fits)) in
    (i, rw got, next)

-- Where the tasks in memory are the entries from 1 below `n`, the search starts below `n`, and no
-- task may run, the search of `task_control` does not end, however many rounds it is given.
pub choose-Idle :
    (r_tareas : ℕ → Run) (n left t : ℕ)
    → IsTable r_tareas n
    → t < n
    → Idle r_tareas 1 n
    → choose left t r_tareas ≡ none
unfolding choose
choose-Idle r_tareas n zero t h ht idle = refl
choose-Idle r_tareas n (suc left) t h ht idle = elim (dec_lt (t + 1) n) [
  | yes inside ↦
      choose-next r_tareas n h left t (t + 1) (advance-inside r_tareas n h t inside)
        (idle (t + 1) (omega arith) inside)
      ∙ choose-Idle r_tareas n left (t + 1) h inside idle
  | no out ↦
      choose-next r_tareas n h left t 1 (advance-last r_tareas n h t (omega arith))
        (idle 1 (omega arith) h.some_task)
      ∙ choose-Idle r_tareas n left 1 h h.some_task idle
]
