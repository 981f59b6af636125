-- ===== src/Mm/Paging/Total.antt =====
-- From a run of free pages, the requests of mm/mm.c return, and leave the rest of the run.
use mathlib.Core.Path.{subst}
use native.Mathlib.Decide.{dec_lt}
use silicio.Mm.{Mm}
use silicio.Mm.Boot.{Fills}
use silicio.Mm.Search.{IsReady}
use silicio.Mm.Paging.{Words, Tables, store, fill_dir, fill_tables, ini_pag}
use silicio.Mm.Paging.Run.{FreeRun, request_lem}
use silicio.Mm.Paging.Identity.{IsIdentity, ini_pag-IsIdentity}
use silicio.Base.{ℕ, zero, suc, refl, sym, inl, inr, Bool, true, some, arith, u32, ◌+◌, ◌*◌, ◌^◌}
use silicio.Base.{◌≤◌, ◌≡◌, ◌∙◌}

fill_dir-FreeRun :
    (left aux_d : ℕ) {p n : ℕ} (m : Mm) (w : Words)
    → FreeRun m p (left + n)
    → (m' : Mm) × (w' : Words) × (fill_dir left aux_d m w ≡ some (m', w')) × FreeRun m' (p + left) n
unfolding fill_dir
fill_dir-FreeRun zero aux_d {p} {n} m w run =
    let at : p ≡ p + 0 = omega arith in
    let count : 0 + n ≡ n = omega arith in
    (m, w, refl, subst (λ x. FreeRun m x n) at (subst (λ x. FreeRun m p x) count run))
fill_dir-FreeRun (suc left) aux_d {p} {n} m w run =
    let count : suc left + n ≡ suc (left + n) = omega arith in
    let (m1, e1, marks, run1) = request_lem {n = left + n} (subst (λ x. FreeRun m p x) count run) in
    let (m2, w2, e2, run2) =
      fill_dir-FreeRun left (aux_d + 4) {p = p + 1} {n = n} m1
        (store w aux_d (u32 (p * 2 ^ 12) + 1)) run1 in
    let at : p + 1 + left ≡ p + suc left = omega arith in
    (m2, w2, rw (e1, e2) refl, subst (λ x. FreeRun m2 x n) at run2)

words_of : {a b : Tables × Mm × Words} → some a ≡ some b → a.2 ≡ b.2
words_of e = ground arith

pub FreeRun-less : {m : Mm} {p n r : ℕ} → r ≤ n → FreeRun m p n → FreeRun m p r
FreeRun-less le run = record {
  ready = run.ready;
  from = run.from;
  before = run.before;
  free = λ q a b. run.free q a (omega arith);
  fits = omega (arith, run.fits);
}

pub ini_pag-FreeRun :
    (m : Mm) (w : Words) (d n : ℕ)
    → FreeRun m d (1025 + n)
    → (t : Tables) × (m' : Mm) × (w' : Words) × (ini_pag m w ≡ some (t, m', w'))
      × FreeRun m' (d + 1025) n
      × IsIdentity w' d
unfolding ini_pag
ini_pag-FreeRun m w d n run =
    let c0 : 1025 + n ≡ suc (1024 + n) = omega arith in
    let c1 : 1024 + n ≡ suc (1023 + n) = omega arith in
    let (m1, e1, k1, r1) = request_lem {n = 1024 + n} (subst (λ x. FreeRun m d x) c0 run) in
    let (m2, e2, k2, r2) = request_lem {n = 1023 + n} (subst (λ x. FreeRun m1 (d + 1) x) c1 r1) in
    let (m3, w3, e3, r3) =
      fill_dir-FreeRun 1023 (u32 (d * 2 ^ 12) + 4) {p = d + 1 + 1} {n = n} m2
        (store w (u32 (d * 2 ^ 12)) (u32 ((d + 1) * 2 ^ 12) + 1)) r2 in
    let at : d + 1 + 1 + 1023 ≡ d + 1025 = omega arith in
    let (m', w', e, identity) = ini_pag-IsIdentity m w d (FreeRun-less (omega arith) run) in
    let whole : ini_pag m w
        ≡ some (
          record { g_dir = u32 (d * 2 ^ 12); g_tab = u32 ((d + 1) * 2 ^ 12) },
          m3,
          fill_tables 1024 0 (u32 ((d + 1) * 2 ^ 12)) w3,
        ) =
      rw (e1, e2, e3) refl in
    let same = words_of (sym e ∙ whole) in
    (
      record { g_dir = u32 (d * 2 ^ 12); g_tab = u32 ((d + 1) * 2 ^ 12) },
      m3,
      fill_tables 1024 0 (u32 ((d + 1) * 2 ^ 12)) w3,
      whole,
      subst (λ x. FreeRun m3 x n) at r3,
      subst (λ x. IsIdentity x d) same identity,
    )

pub Fills-IsReady : {m m' : Mm} {lo hi : ℕ} {v : Bool} → Fills m lo hi v m' → IsReady m → IsReady m'
Fills-IsReady f h = record {
  is_map = f.is_map;
  off_lo = rw f.off_same h.off_lo;
  off_hi = rw (f.off_same, f.max_same) h.off_hi;
  off_word = rw f.off_same h.off_word;
  max_hi = rw f.max_same h.max_hi;
}

-- Pages marked before the run leave it.
pub Fills-FreeRun :
    {m m' : Mm} {lo hi p n : ℕ} → Fills m lo hi true m' → hi ≤ p → FreeRun m p n → FreeRun m' p n
Fills-FreeRun {m} {m'} {lo} {hi} {p} f le run = record {
  ready = Fills-IsReady f run.ready;
  from = omega (arith, run.from, f.off_same);
  before = λ q a b. elim (dec_lt q lo) [
    | yes l ↦ f.outside q (inl l) ∙ run.before q (omega (arith, a, f.off_same)) b
    | no l ↦ elim (dec_lt q hi) [
      | yes l' ↦ f.inside q (omega arith) l'
      | no l' ↦ f.outside q (inr (omega arith)) ∙ run.before q (omega (arith, a, f.off_same)) b
    ]
  ];
  free = λ q a b. f.outside q (inr (omega arith)) ∙ run.free q a b;
  fits = omega (arith, run.fits, f.max_same);
}
