-- ===== src/Strings.antt =====
-- The string functions of stdio/stdio.c. A `char *` is the array that it points into, from the
-- pointer on.
pub mod Laws
pub mod Concat
pub mod Compare
mod Tests
use silicio.Base.{ℕ, zero, suc, true, false, not, List, ltb, get_or, update, u32, ◌+◌, ◌-◌, ◌&&◌}
use silicio.Base.{◌==◌, if◌then◌else◌}

abbrev pub Chars : Type 0
Chars = ℕ → ℕ

-- A string constant, with the null behind it.
abbrev pub literal : List ℕ → Chars
literal codes i = get_or codes i 0

abbrev pub max_string : ℕ
max_string = 1024

-- `&p[k]`
abbrev pub from : Chars → ℕ → Chars
from p k i = p (k + i)

-- The loop of `strlen`, with the rounds that `cont < 0xffffffff` leaves.
pub len_loop : ℕ → ℕ → Chars → ℕ
len_loop zero cont str = cont
len_loop (suc left) cont str = elim (str cont == 0) [
  | true ↦ cont
  | false ↦ len_loop left (cont + 1) str
]

pub strlen : Chars → ℕ
strlen str = let cont = len_loop 0xffff_ffff 0 str in if cont == 0xffff_ffff then 0 else cont

-- The loop of `strcmp` with `left` rounds: it ends at the null of `buf`, after `lb` rounds at most.
pub cmp_loop : ℕ → ℕ → Chars → Chars → ℕ
cmp_loop zero i buf str = i
cmp_loop (suc left) i buf str = elim (not (buf i == 0) && (buf i == str i)) [
  | true ↦ cmp_loop left (i + 1) buf str
  | false ↦ i
]

-- `ret` has no value where both lengths agree and the loop stops early: the call returns what the
-- variable's place held, `junk`.
pub strcmp : (junk : ℕ) → Chars → Chars → ℕ
strcmp junk buf str =
    let lb = strlen buf in
    let ls = strlen str in
    if not (lb == 0) && not (ls == 0)
    then (if lb == ls
        then (let i = cmp_loop (lb + 1) 0 buf str in if i == lb then 0 else junk)
        else 1)
    else 1

-- `destino[i] = origen[i]` from `i` on.
pub copy_loop : ℕ → ℕ → Chars → Chars → Chars
copy_loop zero i origen destino = destino
copy_loop (suc left) i origen destino = copy_loop left (i + 1) origen (update destino i (origen i))

-- Returns the count and the new destination. No null is written.
pub strcpy : Chars → Chars → ℕ × Chars
strcpy origen destino =
    let largo = strlen origen in
    if largo == 0
    then (0, destino)
    else if ltb max_string largo
    then (0, destino)
    else (largo, copy_loop largo 0 origen destino)

-- The array `base` after a write of `tail` at `&base[a]`.
abbrev splice : Chars → ℕ → Chars → Chars
splice base a tail i = if ltb i a then base i else tail (i - a)

pub strcat : Chars → Chars → ℕ × Chars
strcat base agr =
    let a = strlen base in
    let b = strlen agr in
    if ltb max_string (u32 (a + b))
    then (1, base)
    else (0, splice base a (strcpy agr (from base a)).1)
