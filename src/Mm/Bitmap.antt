-- ===== src/Mm/Bitmap.antt =====
-- The bitmap of mm.c as a set of pages: what `set_mem` and `unset_mem` do to it.
use silicio.Base.{ℕ, bit_and, bit_or, refl, inl, inr, Bool, true, false, none, some, arith}
use silicio.Base.{Bool-cases, update, u8, bit_not, ◌/◌, ◌%◌, ◌^◌, ◌≤◌, ◌<◌, ◌≡◌, ◌&&◌, ◌==◌}
use silicio.Base.{if◌then◌else◌}
use silicio.Base.Bytes.{bit_at, test_bit, set_bit, clear_bit}
use silicio.Mm.{Mm, pag_ok, pag_error, page_bits, set_mem, unset_mem}

-- The page is taken.
abbrev pub used : Mm → ℕ → Bool
used m p = bit_at (m.mem_map (p / 8)) (p % 8)

-- Every cell of the map is a byte.
abbrev pub IsMap : Mm → Type 0
IsMap m = (i : ℕ) → m.mem_map i < 256

-- Two pages are one if they agree in byte and in bit.
page_eq : (p q : ℕ) → (p == q) ≡ ((p / 8 == q / 8) && (p % 8 == q % 8))
page_eq p q = ground arith

-- `m'` is `m` with page `p` taken (`v` true) or given back (`v` false), and no other change.
pub record Marks (m : Mm) (p : ℕ) (v : Bool) (m' : Mm) : Type 0 where
  pub is_map : IsMap m'
  pub here : used m' p ≡ v
  pub others : (q : ℕ) → (q == p) ≡ false → used m' q ≡ used m q
  pub max_same : m'.mem_max ≡ m.mem_max
  pub off_same : m'.mem_off ≡ m.mem_off

-- The state that a store into the byte of page `p` leaves.
abbrev stored : Mm → ℕ → ℕ → Mm
stored m p b = record m { mem_map = update m.mem_map (p / 8) (u8 b) }

stored-Marks :
    (m : Mm) (p b : ℕ) (v : Bool)
    → IsMap m
    → bit_at (u8 b) (p % 8) ≡ v
    → ((j : ℕ) → j < 8 → (j == p % 8) ≡ false → bit_at (u8 b) j ≡ bit_at (m.mem_map (p / 8)) j)
    → Marks m p v (stored m p b)
stored-Marks m p b v h at rest = record {
  is_map = λ i. ground (arith, h i);
  here = ground arith;
  others = λ q ne. ground (arith, rest (q % 8) (omega arith));
  max_same = refl;
  off_same = refl;
}

-- For a page below 2 ^ 20 of a map of bytes, `set_mem` returns `PAG_ERROR` if the page was taken
-- and `PAG_OK` if not, and after it the page is taken, and no other page has changed.
pub set_mem_lem :
    (p : ℕ) (m : Mm)
    → IsMap m
    → p < 2 ^ 20
    → (m' : Mm) × (set_mem p m ≡ some (if used m p then pag_error else pag_ok, m'))
      × Marks m p true m'
unfolding set_mem
set_mem_lem p m h below = elim (Bool-cases (used m p)) [
  | inl e ↦ (
    m,
    ground (arith, test_bit (m.mem_map (p / 8)) (p % 8) (h (p / 8)) (omega arith)),
    record { is_map = h; here = e; others = λ q ne. refl; max_same = refl; off_same = refl },
  )
  | inr e ↦ (
    stored m p (bit_or (m.mem_map (p / 8)) (page_bits p)),
    ground (arith, test_bit (m.mem_map (p / 8)) (p % 8) (h (p / 8)) (omega arith)),
    stored-Marks m p _ true h
        (ground (
          arith,
          set_bit (m.mem_map (p / 8)) (p % 8) (h (p / 8)) (omega arith) (p % 8) (omega arith),
        ))
        (λ j hj ne.
          ground (arith, set_bit (m.mem_map (p / 8)) (p % 8) (h (p / 8)) (omega arith) j hj)),
  )
]

-- For a page below 2 ^ 20 of a map of bytes, `unset_mem` returns `PAG_OK` if the page was taken
-- and `PAG_ERROR` if not, and after it the page is free, and no other page has changed.
pub unset_mem_lem :
    (p : ℕ) (m : Mm)
    → IsMap m
    → p < 2 ^ 20
    → (m' : Mm) × (unset_mem p m ≡ some (if used m p then pag_ok else pag_error, m'))
      × Marks m p false m'
unfolding unset_mem
unset_mem_lem p m h below = elim (Bool-cases (used m p)) [
  | inl e ↦ (
    stored m p (bit_and (m.mem_map (p / 8)) (bit_not (page_bits p))),
    ground (arith, test_bit (m.mem_map (p / 8)) (p % 8) (h (p / 8)) (omega arith)),
    stored-Marks m p _ false h
        (ground (
          arith,
          clear_bit (m.mem_map (p / 8)) (p % 8) (h (p / 8)) (omega arith) (p % 8) (omega arith),
        ))
        (λ j hj ne.
          ground (arith, clear_bit (m.mem_map (p / 8)) (p % 8) (h (p / 8)) (omega arith) j hj)),
  )
  | inr e ↦ (
    m,
    ground (arith, test_bit (m.mem_map (p / 8)) (p % 8) (h (p / 8)) (omega arith)),
    record { is_map = h; here = e; others = λ q ne. refl; max_same = refl; off_same = refl },
  )
]

-- Outside the 2 ^ 20 pages both read outside the map.
pub set_mem_fault : (p : ℕ) (m : Mm) → 2 ^ 20 ≤ p → (set_mem p m ≡ none) × (unset_mem p m ≡ none)
unfolding set_mem unset_mem
set_mem_fault p m h = ground arith

-- For a page below 2 ^ 20 of a map of bytes, `set_mem` returns `PAG_ERROR` if the page was taken
-- and `PAG_OK` if not, and after it the page is taken; `unset_mem` returns `PAG_OK` if it was
-- taken and `PAG_ERROR` if not, and after it the page is free; neither changes another page.
pub page_marked :
    (p : ℕ) (m : Mm)
    → IsMap m
    → p < 2 ^ 20
    → (m1 : Mm) × (m2 : Mm) × (set_mem p m ≡ some (if used m p then pag_error else pag_ok, m1))
      × Marks m p true m1
      × (unset_mem p m ≡ some (if used m p then pag_ok else pag_error, m2))
      × Marks m p false m2
page_marked p m h below =
    let (m1, e1, marks1) = set_mem_lem p m h below in
    let (m2, e2, marks2) = unset_mem_lem p m h below in (m1, m2, e1, marks1, e2, marks2)
