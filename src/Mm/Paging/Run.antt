-- ===== src/Mm/Paging/Run.antt =====
-- Requests of pages from a run of free pages, as `ini_pag` and `exec` make them.
use native.Mathlib.Decide.{dec_lt, ℕ_discrete}
use silicio.Mm.{Mm, buscar_mem}
use silicio.Mm.Bitmap.{used, Marks}
use silicio.Mm.Search.{
  search_lo, search_hi, IsReady, IsFirstFree, buscar_mem_lem, buscar_mem-set_mem,
}
use silicio.Mm.Paging.{request}
use silicio.Base.{ℕ, suc, ap, inl, inr, true, false, some, arith, ◌+◌, ◌≤◌, ◌<◌, ◌≡◌, ◌∙◌}

-- The first free page is `p`, and `n` pages from it on are free and in the search range.
pub record FreeRun (m : Mm) (p n : ℕ) : Type 0 where
  pub ready : IsReady m
  pub from : search_lo m ≤ p
  pub before : (q : ℕ) → search_lo m ≤ q → q < p → used m q ≡ true
  pub free : (q : ℕ) → p ≤ q → q < p + n → used m q ≡ false
  pub fits : p + n ≤ search_hi m

first_of_run : {m : Mm} {p n : ℕ} → FreeRun m p (suc n) → IsFirstFree m p
first_of_run {m} {p} {n} r = record {
  from = r.from;
  below = omega (arith, r.fits);
  free = r.free p (omega arith) (omega arith);
  before = r.before;
}

-- A first free page is the only one.
first_unique : {m : Mm} {p q : ℕ} → IsFirstFree m p → IsFirstFree m q → p ≡ q
first_unique {m} {p} {q} a b = elim (dec_lt p q) [
  | yes l ↦ cc (a.free, b.before p a.from l)
  | no l ↦ elim (dec_lt q p) [ yes l' ↦ cc (b.free, a.before q b.from l') | no l' ↦ omega arith ]
]

buscar_mem-first : {m : Mm} {p : ℕ} → IsReady m → IsFirstFree m p → buscar_mem m ≡ some p
buscar_mem-first {m} {p} h f = elim (buscar_mem_lem m h) [
  | inl (e, all) ↦ cc (f.free, all p f.from f.below)
  | inr (q, e, g) ↦ e ∙ ap some (first_unique g f)
]

-- A request takes the first page of the run and leaves the rest of it.
pub request_lem :
    {m : Mm} {p n : ℕ}
    → FreeRun m p (suc n)
    → (m' : Mm) × (request m ≡ some (p, m')) × Marks m p true m' × FreeRun m' (p + 1) n
unfolding request
request_lem {m} {p} {n} r =
    let f = first_of_run r in
    let (m', e, ready, marks, later) = buscar_mem-set_mem m p r.ready f in
    (
      m',
      rw (buscar_mem-first r.ready f, e),
      marks,
      record {
        ready = ready;
        from = omega (arith, r.from, marks.off_same);
        before = λ q a b. elim (ℕ_discrete q p) [
          | yes e ↦ rw e marks.here
          | no ne ↦
              marks.others q (ground arith)
              ∙ r.before q (omega (arith, a, marks.off_same)) (omega arith)
        ];
        free = λ q a b. marks.others q (ground arith) ∙ r.free q (omega arith) (omega arith);
        fits = omega (arith, r.fits, marks.max_same);
      },
    )
