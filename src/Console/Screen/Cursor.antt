-- ===== src/Console/Screen/Cursor.antt =====
-- The cursor of `putc` and `tputc` of stdio/stdio.c, and the cell that a character goes to.
use native.Mathlib.Nat.{mul-le-mul_left}
use silicio.Font.{Font}
use silicio.Font.Draw.{Vbe}
use silicio.Console.Screen.{Screen, columns, rows, new_line, draw, putc, text_line, tputc}
use silicio.Base.{ℕ, bit_and, arith, ◌+◌, ◌*◌, ◌≤◌, ◌<◌, ◌≡◌, ◌≢◌, ◌⊎◌, ◌==◌, if◌then◌else◌}

-- The cursor is on a screen of `x` by `y` characters.
unfoldable pub IsOn : (x y : ℕ) → Screen → Type 0
IsOn x y s = (s.xpos < x) × (s.ypos < y)

-- In every mode, with the cursor on the screen, `putc` of any character leaves the cursor on the
-- screen.
pub putc-IsOn :
    (font : Font) (vbe_header : Vbe) (c : ℕ) (s : Screen)
    → IsOn (columns font vbe_header) (rows font vbe_header) s
    → IsOn (columns font vbe_header) (rows font vbe_header) (putc font vbe_header c s)
unfolding putc draw new_line IsOn
putc-IsOn font vbe_header c s on = ground arith

tputc-IsOn : (c : ℕ) (s : Screen) → IsOn 80 24 s → IsOn 80 24 (tputc c s)
unfolding tputc text_line IsOn
tputc-IsOn c s on = ground arith

inside : (i k x y : ℕ) → i < x → k < y → (i + k * x) * 2 + 1 < x * y * 2
inside i k x y hi hk =
    let more : x * (k + 1) ≤ x * y = mul-le-mul_left x (omega arith) in omega (arith, more)

-- In the text mode, with the cursor on the screen and not in its last cell, a character that is
-- not an end of line goes to the two bytes of its cell, which lie on the screen, and `putc`
-- changes no other byte from the start of the screen on.
pub putc-cell :
    (font : Font) (vbe_header : Vbe) (c : ℕ) (s : Screen)
    → vbe_header.color ≡ 0
    → c ≢ 0x0a
    → c ≢ 0x0d
    → IsOn vbe_header.x vbe_header.y s
    → (s.xpos + 1 < vbe_header.x) ⊎ (s.ypos + 1 < vbe_header.y)
    → let cell = (s.xpos + s.ypos * vbe_header.x) * 2 in
      (cell + 1 < vbe_header.x * vbe_header.y * 2)
      × ((j : ℕ)
          → (putc font vbe_header c s).bytes (vbe_header.addr + j) ≡ (
              if j == cell
              then bit_and c 0xff
              else if j == cell + 1
              then 0x7
              else s.bytes (vbe_header.addr + j)))
unfolding putc draw new_line IsOn
putc-cell font vbe_header c s mode n r on room =
    (inside s.xpos s.ypos vbe_header.x vbe_header.y on.0 on.1, λ j. ground arith)
