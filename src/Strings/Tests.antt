-- ===== src/Strings/Tests.antt =====
-- Runs of the string functions of stdio/stdio.c.
use silicio.Strings.{Chars, strlen, strcmp}
use silicio.Strings.Laws.{IsString, strlen_lem}
use silicio.Strings.Compare.{agree, strcmp_lem}
use silicio.Base.{refl, not, arith, ◌≡◌, ◌||◌, ◌==◌, if◌then◌else◌}

-- "fd"
abbrev fd : Chars
fd i = if i == 0 then 0x66 else if i == 1 then 0x64 else 0

-- "fx"
abbrev fx : Chars
fx i = if i == 0 then 0x66 else if i == 1 then 0x78 else 0

fd-IsString : IsString fd 2
fd-IsString = record { chars = λ i h. ground arith; ends = refl }

fx-IsString : IsString fx 2
fx-IsString = record { chars = λ i h. ground arith; ends = refl }

strlen_example : strlen fd ≡ 2
strlen_example = strlen_lem 2 fd fd-IsString (omega arith)

strcmp_example :
    strcmp 77 fd fx ≡ (if 2 == 0 || not (2 == 2) then 1 else if agree 2 fd fx then 0 else 77)
strcmp_example = strcmp_lem 77 2 2 fd fx fd-IsString fx-IsString (omega arith) (omega arith)
