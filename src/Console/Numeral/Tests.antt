-- ===== src/Console/Numeral/Tests.antt =====
-- Runs of `itoa` of stdio/stdio.c.
use silicio.Strings.{Chars}
use silicio.Strings.Laws.{IsString}
use silicio.Console.Numeral.{decimal, hexadecimal, digit, digit_loop, copy_back, itoa}
use silicio.Console.Numeral.RoundTrip.{read_number, read_number-itoa}
use silicio.Base.{ℕ, refl, arith, ◌≤◌, ◌<◌, ◌≡◌}

abbrev blank : Chars
blank i = 0x3f

-- "-1" and "ff"
minus_one : itoa blank blank decimal 0xffff_ffff 0 ≡ 0x2d
unfolding itoa copy_back digit_loop
minus_one = refl

hex_255 : itoa blank blank hexadecimal 255 1 ≡ 0x66
unfolding itoa copy_back digit_loop digit
hex_255 = refl

read_number-itoa_example :
    (n : ℕ) × IsString (itoa blank blank decimal 0xffff_ff00) n
    × (0 < n)
    × (n ≤ 11)
    × (read_number decimal (itoa blank blank decimal 0xffff_ff00) ≡ 0xffff_ff00)
read_number-itoa_example = read_number-itoa blank blank decimal 0xffff_ff00 (omega arith)
