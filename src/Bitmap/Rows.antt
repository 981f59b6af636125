-- ===== src/Bitmap/Rows.antt =====
-- The loops of `bmp2vbe` of file/file.c: one row, and the rows one after the other.
use native.Mathlib.Nat.{mul-suc}
use native.Mathlib.Decide.{ℕ_discrete}
use silicio.Bitmap.{copy_pixel, row_loop, rows_loop}
use silicio.Base.{ℕ, zero, suc, refl, ap, inl, inr, arith, ltb, ◌+◌, ◌*◌, ◌≤◌, ◌<◌, ◌≡◌, ◌≢◌, ◌⊎◌}
use silicio.Base.{◌∙◌, if◌then◌else◌}

copy_pixel-in :
    (p s : ℕ) (m : ℕ → ℕ) (c : ℕ)
    → (s + 3 ≤ p) ⊎ (p + 3 ≤ s)
    → c < 3
    → copy_pixel p s m (p + c) ≡ m (s + c)
unfolding copy_pixel
copy_pixel-in p s m zero apart h =
    let e : p + 0 ≡ p = omega arith in let e' : s + 0 ≡ s = omega arith in rw (e, e') (ground arith)
copy_pixel-in p s m (suc zero) apart h = ground arith
copy_pixel-in p s m (suc (suc zero)) apart h = ground arith
copy_pixel-in p s m (suc (suc (suc c))) apart h = absurd (omega arith)

copy_pixel-out : (p s : ℕ) (m : ℕ → ℕ) (a : ℕ) → (a < p) ⊎ (p + 3 ≤ a) → copy_pixel p s m a ≡ m a
unfolding copy_pixel
copy_pixel-out p s m a h = ground arith

module _ (stride : ℕ) (wide : 3 ≤ stride) where
  -- A row writes nothing before its start or behind its end.
  pub row_loop-out :
      (left p s : ℕ) (m : ℕ → ℕ) (a : ℕ)
      → (a < p) ⊎ (p + stride * left ≤ a)
      → row_loop left stride p s m a ≡ m a
  unfolding row_loop
  row_loop-out zero p s m a h = refl
  row_loop-out (suc left) p s m a h =
      row_loop-out left (p + stride) (s + 3) (copy_pixel p s m) a
        (ground (arith, mul-suc stride left))
      ∙ copy_pixel-out p s m a (ground (arith, mul-suc stride left))

  -- Where the row of the picture lies apart, its pixels come one behind the other, and of each pixel
  -- of the screen the first three bytes are written.
  pub row_loop-in :
      (left p s : ℕ) (m : ℕ → ℕ)
      → (s + 3 * left ≤ p) ⊎ (p + stride * left ≤ s)
      → (x c : ℕ) → x < left
      → c < stride
      → row_loop left stride p s m (p + stride * x + c)
        ≡ (if ltb c 3 then m (s + 3 * x + c) else m (p + stride * x + c))
  unfolding row_loop
  row_loop-in zero p s m apart x c hx hc = absurd (omega arith)
  row_loop-in (suc left) p s m apart zero c hx hc =
      let e : p + stride * 0 + c ≡ p + c = omega arith in
      let e' : s + 3 * 0 + c ≡ s + c = omega arith in
      rw (e, e')
        (row_loop-out left (p + stride) (s + 3) (copy_pixel p s m) (p + c) (inl (omega arith))
          ∙ ground
              (arith, copy_pixel-in p s m c, copy_pixel-out p s m (p + c), mul-suc stride left))
  row_loop-in (suc left) p s m apart (suc x) c hx hc =
      let e : p + stride * suc x + c ≡ p + stride + stride * x + c =
        omega (arith, mul-suc stride x) in
      let e' : s + 3 * suc x + c ≡ s + 3 + 3 * x + c = omega arith in
      let far : (p + stride + stride * x + c < p) ⊎ (p + 3 ≤ p + stride + stride * x + c) =
        inr (omega arith) in
      rw (e, e')
        (row_loop-in left (p + stride) (s + 3) (copy_pixel p s m)
            (ground (arith, mul-suc stride left)) x c (omega arith) hc
          ∙ ground (
            arith,
            copy_pixel-out p s m (s + 3 + 3 * x + c),
            copy_pixel-out p s m (p + stride + stride * x + c),
            mul-suc stride left,
          ))

module _ (row : ℕ → (ℕ → ℕ) → ℕ → ℕ) where
  -- What every row leaves alone.
  pub rows_loop-keep :
      (left y : ℕ) (m : ℕ → ℕ) (a : ℕ)
      → ((z : ℕ) (m : ℕ → ℕ) → y ≤ z → z < y + left → row z m a ≡ m a)
      → rows_loop left y row m a ≡ m a
  unfolding rows_loop
  rows_loop-keep zero y m a h = refl
  rows_loop-keep (suc left) y m a h =
      rows_loop-keep left (y + 1) (row y m) a (λ z m lo hi. h z m (omega arith) (omega arith))
      ∙ h y m (omega arith) (omega arith)

  -- What only row `r` writes, it writes from the memory that the rows before it leave.
  pub rows_loop-at :
      (left y r : ℕ) (m : ℕ → ℕ) (a : ℕ)
      → y ≤ r
      → r < y + left
      → ((z : ℕ) (m : ℕ → ℕ) → y ≤ z → z < y + left → z ≢ r → row z m a ≡ m a)
      → (before : ℕ) × (y + before ≡ r)
        × (rows_loop left y row m a ≡ row r (rows_loop before y row m) a)
  unfolding rows_loop
  rows_loop-at zero y r m a lo hi h = absurd (omega arith)
  rows_loop-at (suc left) y r m a lo hi h = elim (ℕ_discrete y r) [
    | yes e ↦ (
      0,
      omega arith,
      rows_loop-keep left (y + 1) (row y m) a
            (λ z m lo hi. h z m (omega arith) (omega arith) (λ same. omega arith))
          ∙ ap (λ z. row z m a) e,
    )
    | no ne ↦
        let (before, e, eq) =
          rows_loop-at left (y + 1) r (row y m) a (omega arith) (omega arith)
            (λ z m lo hi. h z m (omega arith) (omega arith)) in
        (suc before, omega arith, eq)
  ]
