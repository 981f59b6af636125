-- ===== src/Console/Memory.antt =====
-- `memcpy` and `memset` of stdio/stdio.c, on an array of whatever cells.
use native.Mathlib.Decide.{ℕ_discrete}
use silicio.Base.{ℕ, zero, suc, ap, arith, ltb, leb, update, ◌+◌, ◌-◌, ◌≤◌, ◌≡◌, ◌∙◌, ◌&&◌}
use silicio.Base.{if◌then◌else◌}

module _ {ℓ} {A : Type ℓ} where
  -- From the first cell on, where the two areas meet as well.
  unfoldable pub memcpy : (cant orig des : ℕ) → (ℕ → A) → ℕ → A
  memcpy zero orig des m = m
  memcpy (suc cant) orig des m = memcpy cant (orig + 1) (des + 1) (update m des (m orig))

  unfoldable pub memset : (cant des : ℕ) → A → (ℕ → A) → ℕ → A
  memset zero des dat m = m
  memset (suc cant) des dat m = memset cant (des + 1) dat (update m des dat)

module _ {A : Type 0} where
  -- Behind the destination `memcpy` copies what was there before, also where the areas meet.
  pub memcpy_lem :
      (cant orig des : ℕ) (m : ℕ → A) (j : ℕ)
      → des ≤ orig
      → memcpy cant orig des m j
        ≡ (if leb des j && ltb j (des + cant) then m (j + (orig - des)) else m j)
  unfolding memcpy
  memcpy_lem zero orig des m j le = ground arith
  memcpy_lem (suc cant) orig des m j le =
      let m1 = update m des (m orig) in
      let step : j + (orig + 1 - (des + 1)) ≡ j + (orig - des) = omega arith in
      let first : m (des + (orig - des)) ≡ m orig = ap m (omega arith) in
      memcpy_lem cant (orig + 1) (des + 1) m1 j (omega arith)
      ∙ ap (λ t. if leb (des + 1) j && ltb j (des + 1 + cant) then m1 t else m1 j) step
      ∙ elim (ℕ_discrete j des) [ yes e ↦ rw e (ground (arith, first)) | no ne ↦ ground arith ]

  pub memset_lem :
      (cant des : ℕ) (dat : A) (m : ℕ → A) (j : ℕ)
      → memset cant des dat m j ≡ (if leb des j && ltb j (des + cant) then dat else m j)
  unfolding memset
  memset_lem zero des dat m j = ground arith
  memset_lem (suc cant) des dat m j =
      ground (arith, memset_lem cant (des + 1) dat (update m des dat) j)
