-- ===== src/Console/Screen/Tests.antt =====
-- Runs of `putc` of stdio/stdio.c.
use silicio.Font.{Font}
use silicio.Font.Draw.{Vbe}
use silicio.Console.Screen.{Screen, black, columns, rows, putc}
use silicio.Console.Screen.Cursor.{IsOn, putc-IsOn, putc-cell}
use silicio.Console.Screen.Scroll.{putc-scroll, putc-scroll-text}
use silicio.Base.{ℕ, bit_and, refl, inl, inr, arith, ltb, ◌+◌, ◌-◌, ◌*◌, ◌%◌, ◌<◌, ◌≡◌, ◌==◌}
use silicio.Base.{if◌then◌else◌}

abbrev font : Font
font = record { addr = λ i. 0; x = 8; y = 16 }

abbrev text : Vbe
text = record { x = 80; y = 25; xy = 2000; color = 0; addr = 0xb8000 }

abbrev graphics : Vbe
graphics = record { x = 800; y = 600; xy = 480000; color = 32; addr = 0xE000_0000 }

-- The cursor at column 79 of line 24 of the text mode.
abbrev at_end : Screen
at_end = record { xpos = 79; ypos = 24; bytes = λ a. a % 256; pixels = λ p. black }

-- At column 0 of line 36, the last of the 600 lines of pixels.
abbrev last_line : Screen
last_line = record at_end { xpos = 0; ypos = 36 }

at_end-IsOn : IsOn (columns font text) (rows font text) at_end
unfolding IsOn
at_end-IsOn = (omega arith, omega arith)

putc-IsOn_example : IsOn (columns font text) (rows font text) (putc font text 0x41 at_end)
putc-IsOn_example = putc-IsOn font text 0x41 at_end at_end-IsOn

-- At column 2 of line 1.
abbrev early : Screen
early = record at_end { xpos = 2; ypos = 1 }

early-IsOn : IsOn 80 25 early
unfolding IsOn
early-IsOn = (omega arith, omega arith)

putc-cell_example :
    (164 + 1 < 80 * 25 * 2)
    × ((j : ℕ)
        → (putc font text 0x41 early).bytes (0xb8000 + j) ≡ (
            if j == 164
            then bit_and 0x41 0xff
            else if j == 164 + 1
            then 0x7
            else early.bytes (0xb8000 + j)))
putc-cell_example =
    putc-cell font text 0x41 early refl (λ e. absurd (omega arith)) (λ e. absurd (omega arith))
      early-IsOn (inl (omega arith))

putc-scroll_example :
    ((putc font graphics 0x0a last_line).pixels 479999 ≡ (
      if ltb 479999 467200
      then last_line.pixels (479999 + 12800)
      else if ltb 479999 (467200 + 12800)
      then black
      else last_line.pixels 479999))
    × ((putc font graphics 0x0a last_line).xpos ≡ 0)
    × ((putc font graphics 0x0a last_line).ypos ≡ 36)
putc-scroll_example = putc-scroll font graphics last_line 479999 (inr refl) (omega arith) refl

-- The byte 5000 from the start of the screen, which has 4000.
putc-scroll-text_example : (putc font text 0x0a at_end).bytes (0xb8000 + 5000) ≡ (
    if ltb 5000 (80 * 2 * (25 - 1) * 2)
    then at_end.bytes (0xb8000 + 5000 + 80 * 2)
    else at_end.bytes (0xb8000 + 5000))
putc-scroll-text_example = putc-scroll-text font text at_end 5000 refl refl
