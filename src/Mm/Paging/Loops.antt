-- ===== src/Mm/Paging/Loops.antt =====
-- What the loops of `ini_pag` write to the directory and to the tables.
use native.Mathlib.Decide.{dec_lt, ℕ_discrete}
use silicio.Mm.{Mm}
use silicio.Mm.Paging.{Words, store, fill_dir, fill_row, fill_tables}
use silicio.Mm.Paging.Run.{FreeRun, request_lem}
use silicio.Base.{ℕ, zero, suc, refl, ap, inl, some, arith, update, update_self, update_ne, u32}
use silicio.Base.{◌+◌, ◌*◌, ◌^◌, ◌≤◌, ◌<◌, ◌≡◌, ◌⊎◌, ◌∙◌}

-- The entries `lo` to `hi - 1` of a table at `base` hold the pages from `p + lo` on, present and
-- writable by the kernel alone; no other word has changed.
pub record Maps (p base lo hi : ℕ) (w w' : Words) : Type 0 where
  pub inside : (k : ℕ) → lo ≤ k → k < hi → w' (base + 4 * k) ≡ (p + k) * 4096 + 1
  pub outside : (a : ℕ) → (a < base + 4 * lo) ⊎ (base + 4 * hi ≤ a) → w' a ≡ w a

Maps-nil : (p base lo : ℕ) (w : Words) → Maps p base lo lo w w
Maps-nil p base lo w = record { inside = λ k a b. absurd (omega arith); outside = λ a c. refl }

Maps-cons :
    {p base lo hi : ℕ} {w w' : Words}
    → lo < hi
    → Maps p base (lo + 1) hi (update w (base + 4 * lo) ((p + lo) * 4096 + 1)) w'
    → Maps p base lo hi w w'
Maps-cons {p} {base} {lo} {hi} {w} l r = record {
  inside = λ k a b. elim (ℕ_discrete k lo) [
    | yes e ↦ rw e (r.outside (base + 4 * lo) (inl (omega arith)) ∙ update_self w _ _)
    | no ne ↦ r.inside k (omega arith) b
  ];
  outside = λ a c. r.outside a (ground arith) ∙ update_ne w _ (ground arith);
}

Maps-trans :
    {p base lo mid hi : ℕ} {w w' w'' : Words}
    → lo ≤ mid
    → mid ≤ hi
    → Maps p base lo mid w w'
    → Maps p base mid hi w' w''
    → Maps p base lo hi w w''
Maps-trans {mid = mid} l h r s = record {
  inside = λ k a b. elim (dec_lt k mid) [
    | yes c ↦ s.outside _ (inl (omega arith)) ∙ r.inside k a c
    | no c ↦ s.inside k (omega arith) b
  ];
  outside = λ a c. s.outside a (ground arith) ∙ r.outside a (ground arith);
}

fill_row_step :
    (left pag tab aux_t : ℕ) (w : Words)
    → tab < 1024
    → pag < 1024
    → fill_row (suc left) pag tab aux_t w
      ≡ fill_row left
          (pag + 1)
          tab
          (aux_t + 4)
          (update w aux_t ((0 + (tab * 1024 + pag)) * 4096 + 1))
unfolding fill_row
fill_row_step left pag tab aux_t w ht hp =
    ap (λ v. fill_row left (pag + 1) tab (aux_t + 4) (update w aux_t v)) value
  where
    value : u32 (u32 (pag * 2 ^ 12) + u32 (tab * 2 ^ 22 + 1)) ≡ (0 + (tab * 1024 + pag)) * 4096 + 1
    value = omega arith

fill_row-Maps :
    (left pag tab base aux_t hi : ℕ) (w : Words)
    → tab < 1024
    → pag + left ≡ 1024
    → aux_t ≡ base + 4 * (tab * 1024 + pag)
    → hi ≡ tab * 1024 + 1024
    → ((fill_row left pag tab aux_t w).0 ≡ base + 4 * hi)
      × Maps 0 base (tab * 1024 + pag) hi w (fill_row left pag tab aux_t w).1
fill_row-Maps zero pag tab base aux_t hi w ht e ea eh =
    unfold fill_row in
    let same : tab * 1024 + pag ≡ hi = omega arith in (omega arith, rw same (Maps-nil 0 base hi w))
fill_row-Maps (suc left) pag tab base aux_t hi w ht e ea eh =
    let at = tab * 1024 + pag in
    let (end, rest) =
      fill_row-Maps left (pag + 1) tab base (aux_t + 4) hi (update w aux_t ((0 + at) * 4096 + 1)) ht
        (omega arith) (omega arith) eh in
    let next : tab * 1024 + (pag + 1) ≡ at + 1 = omega arith in
    rw (fill_row_step left pag tab aux_t w ht (omega arith))
      (end, Maps-cons (omega arith) (rw (← ea, ← next) rest))

pub fill_tables-Maps :
    (left tab base aux_t : ℕ) (w : Words)
    → tab + left ≡ 1024
    → aux_t ≡ base + 4 * (tab * 1024)
    → Maps 0 base (tab * 1024) (2 ^ 20) w (fill_tables left tab aux_t w)
unfolding fill_tables
fill_tables-Maps zero tab base aux_t w e ea =
    let same : tab * 1024 ≡ 2 ^ 20 = omega arith in rw same (Maps-nil 0 base (2 ^ 20) w)
fill_tables-Maps (suc left) tab base aux_t w e ea =
    let (end, row) =
      fill_row-Maps 1024 0 tab base aux_t (tab * 1024 + 1024) w (omega arith) (omega arith)
        (omega arith) refl in
    let (aux_t', w') = fill_row 1024 0 tab aux_t w in
    let rest = fill_tables-Maps left (tab + 1) base aux_t' w' (omega arith) (omega (arith, end)) in
    let start : tab * 1024 + 0 ≡ tab * 1024 = omega arith in
    let next : (tab + 1) * 1024 ≡ tab * 1024 + 1024 = omega arith in
    Maps-trans (omega arith) (omega arith) (rw start at row) (rw next at rest)

-- From a run of free pages the directory is filled with the pages of the run.
pub fill_dir-Maps :
    (left p q k base aux_d hi : ℕ) (m : Mm) (w : Words)
    → FreeRun m p left
    → p ≡ q + k
    → aux_d ≡ base + 4 * k
    → hi ≡ k + left
    → q + hi ≤ 2 ^ 20
    → (m' : Mm) × (w' : Words) × (fill_dir left aux_d m w ≡ some (m', w')) × Maps q base k hi w w'
unfolding fill_dir
fill_dir-Maps zero p q k base aux_d hi m w r ep ea eh small =
    let same : k ≡ hi = omega arith in (m, w, refl, rw same (Maps-nil q base hi w))
fill_dir-Maps (suc left) p q k base aux_d hi m w r ep ea eh small =
    let (m1, e, marks, run) = request_lem r in
    let (m2, w2, e2, maps) =
      fill_dir-Maps left (p + 1) q (k + 1) base (aux_d + 4) hi m1
        (store w aux_d (u32 (p * 2 ^ 12) + 1)) run (omega arith) (omega arith) (omega arith)
        small in
    let value : u32 (u32 (p * 2 ^ 12) + 1) ≡ (q + k) * 4096 + 1 = omega arith in
    (m2, w2, rw e e2, Maps-cons (omega arith) (rw (← ea, ← value) maps))
