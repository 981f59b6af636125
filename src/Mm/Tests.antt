-- ===== src/Mm/Tests.antt =====
-- Runs of the allocator, the memory test and the page tables of mm/mm.c.
use silicio.Mm.{Mm, pag_ok, set_mem, buscar_mem}
use silicio.Mm.Bitmap.{used, IsMap, Marks}
use silicio.Mm.Search.{IsReady, IsFirstFree, AllUsed, buscar_mem_lem, buscar_mem-set_mem}
use silicio.Mm.Testmem.{Ram, testmem, Agrees, testmem_lem}
use silicio.Mm.Boot.{ini_mm, boot_used, ini_mm_lem}
use silicio.Mm.Paging.{Words, ini_pag, walk}
use silicio.Mm.Paging.Run.{FreeRun}
use silicio.Mm.Paging.Identity.{IsIdentity, tables_at, ini_pag-walk}
use silicio.Base.{ℕ, refl, Bool, true, false, not, some, arith, ltb, update, ◌+◌, ◌-◌, ◌*◌, ◌/◌}
use silicio.Base.{◌%◌, ◌^◌, ◌≤◌, ◌<◌, ◌≡◌, ◌≢◌, ◌⊎◌, if◌then◌else◌}
use silicio.Base.Bits.{all_below, all_below_sound}
use silicio.Base.Bytes.{bit_at}

-- 8 MB of memory, of which nothing is taken; the search starts at page 1008.
abbrev pub empty : Mm
empty = record { mem_map = λ i. 0; mem_max = 4096; mem_off = 1024 }

no_bits : all_below 8 (λ k. not (bit_at 0 k)) ≡ true
unfolding all_below bit_at
no_bits = refl

is_false : (b : Bool) → not b ≡ true → b ≡ false
is_false true h = ground arith
is_false false h = refl

no_bit : (q : ℕ) → bit_at 0 (q % 8) ≡ false
no_bit q = is_false _ (all_below_sound 8 (λ k. not (bit_at 0 k)) (q % 8) no_bits (omega arith))

pub empty-free : (q : ℕ) → used empty q ≡ false
empty-free q = no_bit q

pub empty-IsReady : IsReady empty
empty-IsReady = record {
  is_map = λ i. omega arith;
  off_lo = omega arith;
  off_hi = omega arith;
  off_word = omega arith;
  max_hi = omega arith;
}

empty-IsFirstFree : IsFirstFree empty 1008
empty-IsFirstFree = record {
  from = omega arith;
  below = omega arith;
  free = no_bit 1008;
  before = λ q a b. absurd (omega arith);
}

empty-FreeRun : FreeRun empty 1008 1025
empty-FreeRun = record {
  ready = empty-IsReady;
  from = omega arith;
  before = λ q a b. absurd (omega arith);
  free = λ q a b. no_bit q;
  fits = omega arith;
}

buscar_mem_example :
    ((buscar_mem empty ≡ some 0) × AllUsed empty)
    ⊎ ((p : ℕ) × (buscar_mem empty ≡ some p) × IsFirstFree empty p)
buscar_mem_example = buscar_mem_lem empty empty-IsReady

buscar_mem-set_mem_example :
    (m' : Mm) × (set_mem 1008 empty ≡ some (pag_ok, m'))
    × IsReady m'
    × Marks empty 1008 true m'
    × ((q : ℕ) → IsFirstFree m' q → 1008 < q)
buscar_mem-set_mem_example = buscar_mem-set_mem empty 1008 empty-IsReady empty-IsFirstFree

-- 8 MB of memory; what is read above it is 0.
abbrev pub peek : ℕ → (ℕ → ℕ) → ℕ
peek a s = if ltb a 0x80_0000 then s a else 0

pub peek-poke_self : (a v : ℕ) (s : ℕ → ℕ) → a < 0x80_0000 → peek a (update s a v) ≡ v
peek-poke_self a v s h = ground arith

pub peek-poke_ne : (a b v : ℕ) (s : ℕ → ℕ) → a ≢ b → peek b (update s a v) ≡ peek b s
peek-poke_ne a b v s h = ground arith

pub peek-poke_absent : (a v : ℕ) (s : ℕ → ℕ) → 0x80_0000 ≤ a → peek a (update s a v) ≢ 1
peek-poke_absent a v s h e = ground arith

abbrev pub eight_mb : Ram
eight_mb = record {
  State = ℕ → ℕ;
  peek = peek;
  poke = λ a v s. update s a v;
  top = 0x80_0000;
  peek-poke_self = peek-poke_self;
  peek-poke_ne = peek-poke_ne;
  peek-poke_absent = peek-poke_absent;
}

testmem_example :
    (s' : ℕ → ℕ) × (testmem eight_mb 0x12_0000 (λ a. 0) ≡ some (0x80_0000 / 4096, s'))
    × Agrees eight_mb (λ a. 0) s'
testmem_example = testmem_lem eight_mb 0x12_0000 (λ a. 0) (omega arith) (omega arith)

ini_mm_example :
    (m' : Mm) × (s' : ℕ → ℕ) × (ini_mm eight_mb 0x12_0000 empty (λ a. 0)
      ≡ some (0x80_0000 / 4096, m', s'))
    × Agrees eight_mb (λ a. 0) s'
    × IsMap m'
    × (m'.mem_max ≡ 0x80_0000 / 4096)
    × (m'.mem_off ≡ 1024)
    × ((q : ℕ) → used m' q ≡ boot_used 0x12_0000 1024 q)
ini_mm_example =
    ini_mm_lem eight_mb 0x12_0000 empty (λ a. 0) (omega arith) (omega arith) (omega arith)
      (omega arith) (λ i h. refl)

ini_pag_example :
    (m' : Mm) × (w' : Words) × (ini_pag empty (λ a. 0) ≡ some (tables_at 1008, m', w'))
    × IsIdentity w' 1008
    × ((addr : ℕ) → addr < 2 ^ 32 → walk w' (1008 * 4096) addr ≡ addr / 4096 * 4096 + 1)
ini_pag_example = ini_pag-walk empty (λ a. 0) 1008 empty-FreeRun

-- The tables at page 1008, written out.
abbrev pub direct : Words
direct a =
    if ltb a (1009 * 4096)
    then (1009 + (a - 1008 * 4096) / 4) * 4096 + 1
    else (a - 1009 * 4096) / 4 * 4096 + 1

pub direct-IsIdentity : IsIdentity direct 1008
direct-IsIdentity = record { dir = λ k h. ground arith; tab = λ k h. ground arith }
