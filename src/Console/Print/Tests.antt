-- ===== src/Console/Print/Tests.antt =====
-- Runs of `printk` of stdio/stdio.c.
use silicio.Strings.{Chars}
use silicio.Console.Numeral.{itoa, digit_loop, digit, copy_back, decimal}
use silicio.Console.Print.{Arg, number, string, convert, before, printk, text_of}
use silicio.Console.Print.Pieces.{Piece, plain, one_string, numeral, encode}
use silicio.Base.{refl, some, List, [], ◌≡◌, ◌∷◌}

abbrev blank : Chars
blank i = 0x3f

-- "a%s%d"
abbrev pieces : List Piece
pieces = plain 0x61 ∷ one_string ∷ numeral decimal ∷ []

abbrev passed : List Arg
passed = string (0x62 ∷ 0x63 ∷ []) ∷ number 42 ∷ []

-- "abc42"
printed : printk blank (encode pieces) passed blank ≡ some (0x61 ∷ 0x62 ∷ 0x63 ∷ 0x34 ∷ 0x32 ∷ [])
unfolding printk encode convert before text_of itoa digit_loop digit copy_back
printed = refl
