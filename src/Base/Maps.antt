-- ===== src/Base/Maps.antt =====
-- C arrays and memory as functions from an index, and the write of one cell.
use Prim.Native.Nat.{ℕ, zero, suc, ◌+◌}
use mathlib.Core.Path.{◌≡◌}
use mathlib.Core.Bool.{◌&&◌}
use mathlib.Core.Logic.{◌≢◌}
use native.Mathlib.Omega.{arith}
use silicio.Base.Tests.{ltb, leb, ◌==◌, if◌then◌else◌}

module _ {ℓ} {A : Type ℓ} where
  abbrev pub update : (ℕ → A) → ℕ → A → ℕ → A
  update f i v j = if i == j then v else f j

  pub update_self : (f : ℕ → A) (i : ℕ) (v : A) → update f i v i ≡ v
  update_self f i v = ground arith

  pub update_ne : (f : ℕ → A) {i j : ℕ} (v : A) → i ≢ j → update f i v j ≡ f j
  update_ne f v h = ground arith

  -- `for (; i < n; i++) f[i] = g(i, f[i])`, with `left` rounds to `n`.
  unfoldable pub each : ℕ → ℕ → (ℕ → A → A) → (ℕ → A) → ℕ → A
  each zero i g f = f
  each (suc left) i g f = each left (i + 1) g (update f i (g i (f i)))

  pub each-at :
      (left i : ℕ) (g : ℕ → A → A) (f : ℕ → A) (j : ℕ)
      → each left i g f j ≡ (if leb i j && ltb j (i + left) then g j (f j) else f j)
  unfolding each
  each-at zero i g f j = ground arith
  each-at (suc left) i g f j = ground (arith, each-at left (i + 1) g (update f i (g i (f i))) j)
