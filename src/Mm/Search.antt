-- ===== src/Mm/Search.antt =====
-- `buscar_mem` of mm.c finds the first free page from its starting byte.
use native.Mathlib.Decide.{dec_lt}
use silicio.Mm.{Mm, pag_ok, find_byte, find_bit, buscar_mem, set_mem}
use silicio.Base.{ℕ, zero, suc, refl, inl, inr, Bool, true, false, not, some, arith, ltb}
use silicio.Base.{Bool-cases, sub32, ◌+◌, ◌-◌, ◌*◌, ◌/◌, ◌%◌, ◌^◌, ◌≤◌, ◌<◌, ◌≡◌, ◌⊎◌, ◌&&◌, ◌||◌}
use silicio.Base.{◌==◌}
use silicio.Base.Bits.{all_below, all_below_sound}
use silicio.Base.Bytes.{bit_at}
use silicio.Mm.Bitmap.{used, IsMap, Marks, set_mem_lem}
use silicio.Base.{ℕ, zero, suc, refl, inl, inr, Bool, true, false, not, some, arith, ltb}
use silicio.Base.{Bool-cases, sub32, ◌+◌, ◌-◌, ◌*◌, ◌/◌, ◌%◌, ◌^◌, ◌≤◌, ◌<◌, ◌≡◌, ◌⊎◌, ◌&&◌, ◌||◌}
use silicio.Base.{◌==◌}
use silicio.Base.Bits.{all_below, all_below_sound}

-- What the byte loop stops at: all bytes before are full, and it is the end or not full.
record IsFirst (mem_map : ℕ → ℕ) (lo hi r : ℕ) : Type 0 where
  from : lo ≤ r
  upto : r ≤ hi
  full : (j : ℕ) → lo ≤ j → j < r → mem_map j ≡ 0xff
  stop : r < hi → (mem_map r == 0xff) ≡ false

find_byte-IsFirst :
    (left i hi : ℕ) (mem_map : ℕ → ℕ)
    → i + left ≡ hi
    → IsFirst mem_map i hi (find_byte left i mem_map)
unfolding find_byte
find_byte-IsFirst zero i hi mem_map e = record {
  from = omega arith;
  upto = omega arith;
  full = λ j p q. absurd (omega arith);
  stop = λ p. absurd (omega arith);
}
find_byte-IsFirst (suc left) i hi mem_map e =
    let next = find_byte-IsFirst left (i + 1) hi mem_map (omega arith) in
    elim (Bool-cases (mem_map i == 0xff)) [
      | inl b ↦ rw b (record {
        from = omega (arith, next.from);
        upto = next.upto;
        full = λ j p q. ground (arith, next.full j);
        stop = next.stop;
      })
      | inr b ↦ rw b (record {
        from = omega arith;
        upto = omega arith;
        full = λ j p q. absurd (omega arith);
        stop = λ p. b;
      })
    ]

-- The bit loop at every byte: a byte that is not full has a first clear bit.
bit_ok : ℕ → Bool
bit_ok x =
    let k = find_bit 8 0 x in x == 0xff || (ltb k 8 && (not (bit_at x k) && all_below k (bit_at x)))

bit_table : all_below 256 bit_ok ≡ true
unfolding all_below bit_ok find_bit bit_at
bit_table = refl

full_table : all_below 8 (bit_at 0xff) ≡ true
unfolding all_below bit_at
full_table = refl

find_bit_lem :
    (x : ℕ)
    → x < 256
    → (x == 0xff) ≡ false
    → (find_bit 8 0 x < 8)
      × (bit_at x (find_bit 8 0 x) ≡ false)
      × ((j : ℕ) → j < find_bit 8 0 x → bit_at x j ≡ true)
unfolding bit_ok
find_bit_lem x hx ne =
    let ok = all_below_sound 256 bit_ok x bit_table hx in
    (
      ground arith,
      ground arith,
      λ j hj. all_below_sound (find_bit 8 0 x) (bit_at x) j (ground arith) hj,
    )

-- The search range of `buscar_mem`, in pages: it starts ten pages below `mem_off`, rounded down
-- to a byte, and ends at the last whole byte of the memory.
abbrev pub search_lo : Mm → ℕ
search_lo m = (m.mem_off - 10) / 8 * 8

abbrev pub search_hi : Mm → ℕ
search_hi m = m.mem_max / 8 * 8

-- The range lies in the map, and `mem_off - 10` does not wrap.
pub record IsReady (m : Mm) : Type 0 where
  pub is_map : IsMap m
  pub off_lo : 10 ≤ m.mem_off
  pub off_hi : search_lo m ≤ search_hi m
  pub off_word : m.mem_off < 2 ^ 32
  pub max_hi : m.mem_max ≤ 2 ^ 20

-- `p` is the first free page of the range.
pub record IsFirstFree (m : Mm) (p : ℕ) : Type 0 where
  pub from : search_lo m ≤ p
  pub below : p < search_hi m
  pub free : used m p ≡ false
  pub before : (q : ℕ) → search_lo m ≤ q → q < p → used m q ≡ true

abbrev pub AllUsed : Mm → Type 0
AllUsed m = (q : ℕ) → search_lo m ≤ q → q < search_hi m → used m q ≡ true

split_page : (i k : ℕ) → k < 8 → ((i * 8 + k) / 8 ≡ i) × ((i * 8 + k) % 8 ≡ k)
split_page i k h = omega arith

module _ (m : Mm) (h : IsReady m) where
  abbrev lo_byte : ℕ
  lo_byte = (m.mem_off - 10) / 8

  abbrev hi_byte : ℕ
  hi_byte = m.mem_max / 8

  abbrev stop_byte : ℕ
  stop_byte = find_byte (hi_byte - lo_byte) lo_byte m.mem_map

  stops : IsFirst m.mem_map lo_byte hi_byte stop_byte
  stops = find_byte-IsFirst _ lo_byte hi_byte m.mem_map (omega (arith, h.off_hi))

  no_wrap : sub32 m.mem_off 10 / 8 ≡ lo_byte
  no_wrap = omega (arith, h.off_lo, h.off_word)

  full_byte : (q : ℕ) → (m.mem_map (q / 8) ≡ 0xff) → used m q ≡ true
  full_byte q e = rw e (all_below_sound 8 (bit_at 0xff) (q % 8) full_table (omega arith))

  buscar_mem-none : stop_byte ≡ hi_byte → (buscar_mem m ≡ some 0) × AllUsed m
  unfolding buscar_mem
  buscar_mem-none e = (
    rw no_wrap (ground arith),
    λ q p l. full_byte q (stops.full (q / 8) (omega arith) (omega arith)),
  )

  buscar_mem-some :
      stop_byte < hi_byte
      → (buscar_mem m ≡ some (stop_byte * 8 + find_bit 8 0 (m.mem_map stop_byte)))
        × IsFirstFree m (stop_byte * 8 + find_bit 8 0 (m.mem_map stop_byte))
  unfolding buscar_mem
  buscar_mem-some l =
      let bit = find_bit_lem (m.mem_map stop_byte) (h.is_map stop_byte) (stops.stop l) in
      let place = split_page stop_byte (find_bit 8 0 (m.mem_map stop_byte)) bit.0 in
      (
        rw no_wrap (ground (arith, h.max_hi, bit.0)),
        record {
          from = omega (arith, stops.from);
          below = omega (arith, bit.0);
          free = rw (place.0, place.1) bit.1;
          before = λ q p below. elim (dec_lt (q / 8) stop_byte) [
            | yes b ↦ full_byte q (stops.full (q / 8) (omega arith) b)
            | no b ↦
                let same : q / 8 ≡ stop_byte = omega (arith, bit.0) in
                rw same (bit.2 (q % 8) (omega arith))
          ];
        },
      )

-- On a map that is ready (`IsReady`), `buscar_mem` reads inside the map and returns 0 where every
-- page of its range is taken, and else the first free page of the range.
pub buscar_mem_lem :
    (m : Mm)
    → IsReady m
    → ((buscar_mem m ≡ some 0) × AllUsed m) ⊎ ((p : ℕ) × (buscar_mem m ≡ some p) × IsFirstFree m p)
buscar_mem_lem m h = elim (dec_lt (stop_byte m h) (hi_byte m h)) [
  | yes l ↦ let found = buscar_mem-some m h l in inr (_, found.0, found.1)
  | no l ↦ inl (buscar_mem-none m h (omega (arith, (stops m h).upto)))
]

pub Marks-IsReady : {m m' : Mm} {p : ℕ} {v : Bool} → Marks m p v m' → IsReady m → IsReady m'
Marks-IsReady k h = record {
  is_map = k.is_map;
  off_lo = rw k.off_same h.off_lo;
  off_hi = rw (k.off_same, k.max_same) h.off_hi;
  off_word = rw k.off_same h.off_word;
  max_hi = rw k.max_same h.max_hi;
}

-- On a map that is ready and has the first free page `p`, `set_mem` of `p` returns `PAG_OK` and
-- leaves a map that is ready, with `p` taken and no other page changed, and whose first free
-- page, if it has one, comes after `p`.
pub buscar_mem-set_mem :
    (m : Mm) (p : ℕ)
    → IsReady m
    → IsFirstFree m p
    → (m' : Mm) × (set_mem p m ≡ some (pag_ok, m'))
      × IsReady m'
      × Marks m p true m'
      × ((q : ℕ) → IsFirstFree m' q → p < q)
buscar_mem-set_mem m p h first =
    let (m', eq, marks) = set_mem_lem p m h.is_map (omega (arith, h.max_hi, first.below)) in
    (
      m',
      rw (first.free) at eq,
      Marks-IsReady marks h,
      marks,
      λ q next. elim (dec_lt p q) [
        | yes l ↦ l
        | no l ↦
            let low : search_lo m ≤ q = omega (arith, next.from, marks.off_same) in
            elim (dec_lt q p) [
              | yes b ↦ cc (next.free, marks.others q (ground arith), first.before q low b)
              | no b ↦ let e : q ≡ p = omega arith in cc (next.free, marks.here, e)
            ]
      ],
    )
