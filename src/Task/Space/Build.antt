-- ===== src/Task/Space/Build.antt =====
-- What `exec` writes into the tables of a task.
use native.Mathlib.Decide.{dec_lt, ℕ_discrete}
use silicio.Mm.Paging.{Words, store}
use silicio.Mm.Paging.Identity.{IsIdentity, tables_at}
use silicio.Task.Space.{v_user, v_stack, copy_words, map_pages, build_space}
use silicio.Base.{ℕ, zero, suc, refl, ap, inl, inr, arith, update_self, update_ne, u32, ◌+◌, ◌*◌}
use silicio.Base.{◌^◌, ◌≤◌, ◌<◌, ◌≡◌, ◌≢◌, ◌⊎◌, ◌∙◌}

-- The words `lo` to `hi - 1` at `dst` are those at `src`, and no other word has changed.
record Copied (src dst lo hi : ℕ) (w w' : Words) : Type 0 where
  inside : (k : ℕ) → lo ≤ k → k < hi → w' (dst + 4 * k) ≡ u32 (w (src + 4 * k))
  outside : (a : ℕ) → (a < dst + 4 * lo) ⊎ (dst + 4 * hi ≤ a) → w' a ≡ w a

-- The two ranges do not meet.
abbrev Apart : ℕ → ℕ → ℕ → Type 0
Apart src dst hi = (src + 4 * hi ≤ dst) ⊎ (dst + 4 * hi ≤ src)

copy_words-Copied :
    (left cont src dst hi : ℕ) (w : Words)
    → cont + left ≡ hi
    → Apart src dst hi
    → Copied src dst cont hi w (copy_words left cont src dst w)
unfolding copy_words
copy_words-Copied zero cont src dst hi w e apart = record {
  inside = λ k a b. absurd (omega arith);
  outside = λ a c. refl;
}
copy_words-Copied (suc left) cont src dst hi w e apart =
    let w1 = store w (dst + 4 * cont) (w (src + 4 * cont)) in
    let r = copy_words-Copied left (cont + 1) src dst hi w1 (omega arith) apart in
    record {
      inside = λ k a b. elim (ℕ_discrete k cont) [
        | yes d ↦ rw d (r.outside (dst + 4 * cont) (inl (omega arith)) ∙ update_self w _ _)
        | no ne ↦ r.inside k (omega arith) b ∙ ap (λ v. u32 v) (update_ne w _ (ground arith))
      ];
      outside = λ a c. r.outside a (ground arith) ∙ update_ne w _ (ground arith);
    }

-- The entries of the pages of the task, and no other word, have changed.
record Mapped (pag_mem : ℕ → ℕ) (table lo hi : ℕ) (w w' : Words) : Type 0 where
  inside : (k : ℕ) → lo ≤ k → k < hi → w' (table + 4 * (k + v_user)) ≡ pag_mem k * 4096 + 7
  outside : (a : ℕ) → (a < table + 4 * (lo + v_user)) ⊎ (table + 4 * (hi + v_user) ≤ a) → w' a ≡ w a

map_pages-Mapped :
    (left cont : ℕ) (pag_mem : ℕ → ℕ) (table hi : ℕ) (w : Words)
    → cont + left ≡ hi
    → ((k : ℕ) → k < hi → pag_mem k < 2 ^ 20)
    → Mapped pag_mem table cont hi w (map_pages left cont pag_mem table w)
unfolding map_pages
map_pages-Mapped zero cont pag_mem table hi w e small = record {
  inside = λ k a b. absurd (omega arith);
  outside = λ a c. refl;
}
map_pages-Mapped (suc left) cont pag_mem table hi w e small =
    let w1 = store w (table + 4 * (cont + v_user)) (u32 (pag_mem cont * 4096) + 7) in
    let r = map_pages-Mapped left (cont + 1) pag_mem table hi w1 (omega arith) small in
    record {
      inside = λ k a b. elim (ℕ_discrete k cont) [
        | yes d ↦
            let value : u32 (u32 (pag_mem cont * 4096) + 7) ≡ pag_mem cont * 4096 + 7 =
              omega (arith, small cont (omega arith)) in
            rw d (
              r.outside (table + 4 * (cont + v_user)) (inl (omega arith))
              ∙ update_self w _ _
              ∙ value)
        | no ne ↦ r.inside k (omega arith) b
      ];
      outside = λ a c. r.outside a (ground arith) ∙ update_ne w _ (ground arith);
    }

-- The tables of a task over the identity tables at `d`: `dir` and `tab` are the pages of its
-- directory and of its one table.
pub record IsSpace (pag : ℕ) (pag_mem : ℕ → ℕ) (dir tab stack d : ℕ) (w : Words) : Type 0 where
  pub first : w (dir * 4096) ≡ tab * 4096 + 7
  pub shared : (k : ℕ) → 1 ≤ k → k < 1024 → w (dir * 4096 + 4 * k) ≡ (d + 1 + k) * 4096 + 1
  pub pages : (k : ℕ) → k < pag → w (tab * 4096 + 4 * (k + v_user)) ≡ pag_mem k * 4096 + 7
  pub top : w (tab * 4096 + 4 * v_stack) ≡ stack * 4096 + 7
  pub rest :
      (k : ℕ)
      → k < v_stack
      → (k < v_user) ⊎ (v_user + pag ≤ k)
      → w (tab * 4096 + 4 * k) ≡ k * 4096 + 1
  pub kernel : (k : ℕ) → k < 2 ^ 20 → w ((d + 1) * 4096 + 4 * k) ≡ k * 4096 + 1

-- The pages lie outside the kernel's tables, and apart.
pub record Placed (dir tab stack d : ℕ) : Type 0 where
  pub dir_out : (dir < d) ⊎ (d + 1025 ≤ dir)
  pub tab_out : (tab < d) ⊎ (d + 1025 ≤ tab)
  pub differ : dir ≢ tab
  pub dir_in : dir < 2 ^ 20
  pub tab_in : tab < 2 ^ 20
  pub stack_in : stack < 2 ^ 20
  pub kernel_in : d + 1025 ≤ 2 ^ 20

-- One word is written.
record Wrote (a v : ℕ) (w w' : Words) : Type 0 where
  here : w' a ≡ v
  others : (b : ℕ) → a ≢ b → w' b ≡ w b

store-Wrote : (w : Words) (a v : ℕ) → v < 2 ^ 32 → Wrote a v w (store w a v)
store-Wrote w a v h = record {
  here = update_self w a (u32 v) ∙ omega arith;
  others = λ b ne. update_ne w (u32 v) ne;
}

module _ (pag : ℕ) (pag_mem : ℕ → ℕ) (dir tab stack d : ℕ) (w w1 w2 w3 w4 w5 : Words)
    (id : IsIdentity w d) (pl : Placed dir tab stack d) (few : pag ≤ 14)
    (s1 : Copied ((d + 1) * 4096) (tab * 4096) 0 1024 w w1)
    (s2 : Mapped pag_mem (tab * 4096) 0 pag w1 w2)
    (s3 : Wrote (tab * 4096 + 4 * v_stack) (stack * 4096 + 7) w2 w3)
    (s4 : Copied (d * 4096) (dir * 4096) 0 1024 w3 w4)
    (s5 : Wrote (dir * 4096) (tab * 4096 + 7) w4 w5) where
  -- After the table is written only the directory's page changes.
  after_table : (a : ℕ) → (a < dir * 4096) ⊎ ((dir + 1) * 4096 ≤ a) → w5 a ≡ w3 a
  after_table a out = s5.others a (omega (arith, out)) ∙ s4.outside a (ground arith)

  -- Up to there only the table's page changes.
  before_dir : (a : ℕ) → (a < tab * 4096) ⊎ ((tab + 1) * 4096 ≤ a) → w3 a ≡ w a
  before_dir a out =
      s3.others a (omega (arith, out)) ∙ s2.outside a (ground arith) ∙ s1.outside a (ground arith)

  tab_apart :
      (k : ℕ) → k < 4096 → (tab * 4096 + k < dir * 4096) ⊎ ((dir + 1) * 4096 ≤ tab * 4096 + k)
  tab_apart k h = elim (dec_lt tab dir) [
    | yes l ↦ inl (omega arith)
    | no l ↦ inr (omega (arith, pl.differ))
  ]

  built-IsSpace : IsSpace pag pag_mem dir tab stack d w5
  built-IsSpace = record {
    first = s5.here;
    shared = λ k lo hi.
        s5.others (dir * 4096 + 4 * k) (omega arith)
        ∙ s4.inside k (omega arith) hi
        ∙ ap (λ v. u32 v) (before_dir (d * 4096 + 4 * k) (ground (arith, pl.tab_out)) ∙ id.dir k hi)
        ∙ entry (d + 1 + k) (omega (arith, pl.kernel_in));
    pages = λ k h.
        after_table (tab * 4096 + 4 * (k + v_user)) (tab_apart (4 * (k + v_user)) (omega arith))
        ∙ s3.others (tab * 4096 + 4 * (k + v_user)) (omega arith)
        ∙ s2.inside k (omega arith) h;
    top = after_table (tab * 4096 + 4 * v_stack) (tab_apart (4 * v_stack) (omega arith)) ∙ s3.here;
    rest = λ k h out.
        after_table (tab * 4096 + 4 * k) (tab_apart (4 * k) (omega arith))
        ∙ s3.others (tab * 4096 + 4 * k) (omega arith)
        ∙ s2.outside (tab * 4096 + 4 * k) (ground arith)
        ∙ s1.inside k (omega arith) (omega arith)
        ∙ ap (λ v. u32 v) (id.tab k (omega arith))
        ∙ entry k (omega arith);
    kernel = λ k h.
        after_table ((d + 1) * 4096 + 4 * k) (ground (arith, pl.dir_out))
        ∙ before_dir ((d + 1) * 4096 + 4 * k) (ground (arith, pl.tab_out))
        ∙ id.tab k h;
  }
    where
      entry : (k : ℕ) → k < 2 ^ 20 → u32 (k * 4096 + 1) ≡ k * 4096 + 1
      entry k h = omega arith

-- Over kernel tables at `d` as `ini_pag` makes them, with the directory and the table of the task
-- on two different pages outside them and at most 14 program pages below 2 ^ 20, the tables that
-- `exec` writes are those of `IsSpace`: the pages of the task from `V_USER` on and its stack at
-- `V_STACK` open to it, and every other entry as in the kernel's, which are unchanged.
pub build_space-IsSpace :
    (pag : ℕ) (pag_mem : ℕ → ℕ) (dir tab stack d : ℕ) (w : Words)
    → IsIdentity w d
    → Placed dir tab stack d
    → pag ≤ 14
    → ((k : ℕ) → k < pag → pag_mem k < 2 ^ 20)
    → IsSpace pag pag_mem dir tab stack d (build_space pag pag_mem dir tab stack (tables_at d) w)
unfolding build_space
build_space-IsSpace pag pag_mem dir tab stack d w id pl few small =
    let table : u32 (4096 * tab) ≡ tab * 4096 = omega (arith, pl.tab_in) in
    let table' : u32 (tab * 4096) ≡ tab * 4096 = omega (arith, pl.tab_in) in
    let p_dir : u32 (4096 * dir) ≡ dir * 4096 = omega (arith, pl.dir_in) in
    let top : u32 (stack * 4096) ≡ stack * 4096 = omega (arith, pl.stack_in) in
    rw (table, table', p_dir, top)
      (built-IsSpace pag pag_mem dir tab stack d w _ _ _ _ _ id pl few
        (copy_words-Copied 1024 0 ((d + 1) * 4096) (tab * 4096) 1024 w (omega arith)
          (ground (arith, pl.tab_out)))
        (map_pages-Mapped pag 0 pag_mem (tab * 4096) pag _ (omega arith) small)
        (store-Wrote _ (tab * 4096 + 4 * v_stack) (stack * 4096 + 7) (omega (arith, pl.stack_in)))
        (copy_words-Copied 1024 0 (d * 4096) (dir * 4096) 1024 _ (omega arith)
          (ground (arith, pl.dir_out)))
        (store-Wrote _ (dir * 4096) (tab * 4096 + 7) (omega (arith, pl.tab_in))))
