-- ===== src/Console/Print.antt =====
-- `printk` of stdio/stdio.c: the characters that it hands to `putc`, in their order. A `char` is its
-- byte, and a format is the list of its characters before the null.
pub mod Pieces
mod Tests
use silicio.Strings.{Chars}
use silicio.Console.Numeral.{decimal, hexadecimal, itoa}
use silicio.Base.{ℕ, zero, suc, Bool, true, false, Option, none, some, List, [], u8, ◌+◌, ◌∷◌}
use silicio.Base.{◌++◌, ◌||◌, ◌==◌, if◌then◌else◌}

-- What the caller passes: a word, or the characters of a string before its null.
pub data Arg : Type 0 where
  number : ℕ → Arg
  string : List ℕ → Arg

abbrev pub percent : ℕ
percent = 0x25

abbrev pub char_letter : ℕ
char_letter = 0x63

abbrev pub string_letter : ℕ
string_letter = 0x73

abbrev pub unsigned_letter : ℕ
unsigned_letter = 0x75

-- The letters 'd', 'u' and 'x'.
abbrev pub is_number : ℕ → Bool
is_number c = c == decimal || c == unsigned_letter || c == hexadecimal

-- `while ((d = *p++) != 0) putc(d)` on the array of 20.
unfoldable pub text_of : ℕ → ℕ → Chars → List ℕ
text_of zero i p = []
text_of (suc left) i p = elim (p i == 0) [ true ↦ [] | false ↦ p i ∷ text_of left (i + 1) p ]

pub before : List ℕ → Option (List ℕ) → Option (List ℕ)
before s none = none
before s (some out) = some (s ++ out)

-- The `switch` on the letter behind a '%': `rest` is the loop from the next character on. `none` is
-- an argument that is not there or of the other kind. Of the word for a `char` the low byte counts,
-- which is the `char` that `putc` gets. `a` is what the array of `itoa` held.
pub convert :
    (a : Chars) (c : ℕ) (args : List Arg) (buf : Chars)
    → (List Arg → Chars → Option (List ℕ))
    → Option (List ℕ)
convert a c (number d ∷ args) buf rest =
    let b = itoa a buf c d in
    if c == char_letter
    then before (u8 d ∷ []) (rest args buf)
    else if is_number c
    then before (text_of 20 0 b) (rest args b)
    else if c == string_letter
    then none
    else rest (number d ∷ args) buf
convert a c (string s ∷ args) buf rest =
    if c == char_letter || is_number c
    then none
    else if c == string_letter
    then before s (rest args buf)
    else rest (string s ∷ args) buf
convert a c [] buf rest =
    if c == char_letter || is_number c || c == string_letter then none else rest [] buf

-- A format that ends in '%' is read past its null: `none`.
pub printk : (a : Chars) → List ℕ → List Arg → (buf : Chars) → Option (List ℕ)
printk a [] args buf = some []
printk a (c ∷ []) args buf = if c == percent then none else some (c ∷ [])
printk a (c ∷ k ∷ format) args buf =
    let converted = convert a k args buf (λ args buf. printk a format args buf) in
    let plain = before (c ∷ []) (printk a (k ∷ format) args buf) in
    if c == percent then converted else plain
