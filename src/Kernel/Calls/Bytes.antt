-- ===== src/Kernel/Calls/Bytes.antt =====
-- The byte loop of `sys_write` and `sys_ret` of exec/exec.c.
use native.Mathlib.Decide.{ℕ_discrete}
use silicio.Kernel.Calls.{copy_bytes, spares}
use silicio.Base.{ℕ, zero, suc, refl, sym, ap, inl, Bool, true, false, arith, update, update_self}
use silicio.Base.{update_ne, u32, ◌+◌, ◌^◌, ◌≤◌, ◌<◌, ◌≡◌, ◌⊎◌, ◌∙◌}

-- `n` bytes at `src` and at `dst` lie in the 4 GB and do not meet.
pub record AreApart (src dst n : ℕ) : Type 0 where
  pub src_in : src + n ≤ 2 ^ 32
  pub dst_in : dst + n ≤ 2 ^ 32
  pub apart : (src + n ≤ dst) ⊎ (dst + n ≤ src)

-- The `n` bytes at `dst` are those at `src`, and no other byte has changed.
pub record BytesCopied (src dst n : ℕ) (b b' : ℕ → ℕ) : Type 0 where
  pub inside : (j : ℕ) → j < n → b' (dst + j) ≡ b (src + j)
  pub outside : (a : ℕ) → (a < dst) ⊎ (dst + n ≤ a) → b' a ≡ b a

record CopiedFrom (src dst lo n : ℕ) (b b' : ℕ → ℕ) : Type 0 where
  inside : (j : ℕ) → lo ≤ j → j < n → b' (dst + j) ≡ b (src + j)
  outside : (a : ℕ) → (a < dst + lo) ⊎ (dst + n ≤ a) → b' a ≡ b a

copy_bytes-CopiedFrom :
    (left lo n src dst : ℕ) (b : ℕ → ℕ)
    → lo + left ≡ n
    → AreApart src dst n
    → CopiedFrom src dst lo n b (copy_bytes left lo src dst b)
unfolding copy_bytes
copy_bytes-CopiedFrom zero lo n src dst b e h = record {
  inside = λ j p q. absurd (omega arith);
  outside = λ a c. refl;
}
copy_bytes-CopiedFrom (suc left) lo n src dst b e h =
    let to : u32 (dst + lo) ≡ dst + lo = omega (arith, h.dst_in) in
    let at : u32 (src + lo) ≡ src + lo = omega (arith, h.src_in) in
    let v = b (u32 (src + lo)) in
    let b1 = update b (u32 (dst + lo)) v in
    let r = copy_bytes-CopiedFrom left (lo + 1) n src dst b1 (omega arith) h in
    record {
      inside = λ j p q. elim (ℕ_discrete j lo) [
        | yes d ↦ rw d (
            r.outside (dst + lo) (inl (omega arith))
            ∙ ap b1 (sym to)
            ∙ update_self b (u32 (dst + lo)) v
            ∙ ap b at)
        | no ne ↦ r.inside j (omega arith) q ∙ update_ne b v (omega (arith, to, h.apart))
      ];
      outside = λ a c. r.outside a (ground arith) ∙ update_ne b v (omega (arith, to, c));
    }

pub copy_bytes-BytesCopied :
    (n src dst : ℕ) (b : ℕ → ℕ)
    → AreApart src dst n
    → BytesCopied src dst n b (copy_bytes n 0 src dst b)
copy_bytes-BytesCopied n src dst b h =
    let r = copy_bytes-CopiedFrom n 0 n src dst b (omega arith) h in
    record {
      inside = λ j q. r.inside j (omega arith) q;
      outside = λ a c. r.outside a (ground arith);
    }

pub spares_lem :
    (left count dst : ℕ) (own : ℕ → Bool)
    → ((j : ℕ) → count ≤ j → j < count + left → own (u32 (dst + j)) ≡ false)
    → spares left count dst own ≡ true
unfolding spares
spares_lem zero count dst own h = refl
spares_lem (suc left) count dst own h =
    rw (h count (omega arith) (omega arith))
      (spares_lem left (count + 1) dst own (λ j lo hi. h j (omega arith) (omega arith)))
