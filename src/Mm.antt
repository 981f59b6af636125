-- ===== src/Mm.antt =====
-- mm/mm.c and include/mm.h: the bitmap of physical pages and its allocator.
pub mod Bitmap
pub mod Search
pub mod Testmem
pub mod Boot
pub mod Paging
pub mod Tests
use silicio.Base.{ℕ, zero, suc, ◌+◌, ◌-◌, ◌*◌, ◌/◌, ◌%◌, ◌^◌, bit_and, bit_or}
use silicio.Base.{Option, none, some, ltb, ◌==◌, if◌then◌else◌, ◌>>=◌, ◌>>◌, guard}
use silicio.Base.{update, u8, u32, sub32, sext8, bit_not}

-- `MAP_LEN`: a bit for each of the 2 ^ 20 pages of 4 KB.
abbrev pub map_len : ℕ
map_len = 131072

abbrev pub pag_len : ℕ
pag_len = 4096

abbrev pub pag_ok : ℕ
pag_ok = 0

abbrev pub pag_error : ℕ
pag_error = 1

-- The globals of mm.c. `mem_map` is read and written only below `map_len`.
pub record Mm : Type 0 where
  pub mem_map : ℕ → ℕ
  pub mem_max : ℕ
  pub mem_off : ℕ

-- `bits = 1 << (pagina % 8)`: a signed `char`, promoted where it is used.
abbrev pub page_bits : ℕ → ℕ
page_bits pagina = sext8 (2 ^ (pagina % 8))

-- `none` is an access outside `mem_map`.
pub set_mem : ℕ → Mm → Option (ℕ × Mm)
set_mem pagina m =
    let sector = pagina / 8 in
    let bits = page_bits pagina in
    if ltb sector map_len
    then (if bit_and (m.mem_map sector) bits == 0
        then some (
          pag_ok,
          record m { mem_map = update m.mem_map sector (u8 (bit_or (m.mem_map sector) bits)) },
        )
        else some (pag_error, m))
    else none

pub unset_mem : ℕ → Mm → Option (ℕ × Mm)
unset_mem pagina m =
    let sector = pagina / 8 in
    let bits = page_bits pagina in
    if ltb sector map_len
    then (if bit_and (m.mem_map sector) bits == 0
        then some (pag_error, m)
        else some (
          pag_ok,
          record m {
            mem_map = update m.mem_map sector (u8 (bit_and (m.mem_map sector) (bit_not bits)));
          },
        ))
    else none

-- The first loop of `buscar_mem`, with `left` rounds to `fin`: the index where it stops.
pub find_byte : ℕ → ℕ → (ℕ → ℕ) → ℕ
find_byte zero i mem_map = i
find_byte (suc left) i mem_map =
    let rest = find_byte left (i + 1) mem_map in if mem_map i == 0xff then rest else i

-- The second loop: the first clear bit of a byte, 8 if there is none.
pub find_bit : ℕ → ℕ → ℕ → ℕ
find_bit zero mask byte = mask
find_bit (suc left) mask byte =
    let rest = find_bit left (mask + 1) byte in if bit_and byte (2 ^ mask) == 0 then mask else rest

-- `mem_off - 10` wraps. Where the search starts at or past `fin` the loop makes no round; past it,
-- the byte at the start is read all the same.
pub buscar_mem : Mm → Option ℕ
buscar_mem m =
    let fin = m.mem_max / 8 in
    let start = sub32 m.mem_off 10 / 8 in
    let i = find_byte (fin - start) start m.mem_map in
    if i == fin
    then some 0
    else (do guard (ltb i map_len); some (u32 (i * 8 + find_bit 8 0 (m.mem_map i))))

pub pag2addr : ℕ → ℕ
pag2addr pag = u32 (pag * pag_len)

unfoldable pub addr2pag : ℕ → ℕ
addr2pag addr = addr / pag_len

unfoldable pub set_mem_off : ℕ → Mm → ℕ × Mm
set_mem_off pag m = (0, record m { mem_off = pag })
