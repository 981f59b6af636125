-- ===== src/Font/Draw.antt =====
-- `bmp2graf` of stdio/stdio.c, which draws a character on the graphical screen. The screen is a
-- function from the index of a pixel; the products and sums stay below 2 ^ 32 on any mode.
pub mod Pixels
use silicio.Font.{Font}
use silicio.Base.{ℕ, zero, suc, bit_and, Bool, update, sext8, ◌+◌, ◌*◌, ◌/◌, ◌^◌, ◌||◌, ◌==◌}
use silicio.Base.{if◌then◌else◌}

-- `rgb24`, and `rgb32` without its unused byte.
pub record Rgb : Type 0 where
  pub red : ℕ
  pub green : ℕ
  pub blue : ℕ

-- `s_vbe_header`: the screen, in pixels, or in characters where `color` is 0. `xy` is the
-- product of the two; the field `modo` is not read.
pub record Vbe : Type 0 where
  pub x : ℕ
  pub y : ℕ
  pub xy : ℕ
  pub color : ℕ
  pub addr : ℕ

-- `((let[y_aux] >> x_aux) & 0x1) == 0x1`, where `let[y_aux]` is a `char`
abbrev pub lit : ℕ → ℕ → Bool
lit row x_aux = bit_and (sext8 row / 2 ^ x_aux) 1 == 1

-- The loop over `x_aux`, from the pixel `start` on.
pub draw_row : ℕ → ℕ → ℕ → ℕ → Rgb → (ℕ → Rgb) → ℕ → Rgb
draw_row zero x_aux row start ink screen = screen
draw_row (suc left) x_aux row start ink screen =
    draw_row left (x_aux + 1) row start ink
      (if lit row x_aux then update screen (start + x_aux) ink else screen)

-- The loop over `y_aux`.
pub draw_rows : ℕ → ℕ → Font → ℕ → ℕ → ℕ → Rgb → (ℕ → Rgb) → ℕ → Rgb
draw_rows zero y_aux font glyph width cor ink screen = screen
draw_rows (suc left) y_aux font glyph width cor ink screen =
    draw_rows left (y_aux + 1) font glyph width cor ink
      (draw_row font.x 0 (font.addr (glyph + y_aux)) (y_aux * width + cor) ink screen)

pub bmp2graf : Font → Vbe → ℕ → ℕ → ℕ → Rgb → (ℕ → Rgb) → ℕ → Rgb
bmp2graf font vbe_header c x y ink screen =
    if vbe_header.color == 24 || vbe_header.color == 32
    then draw_rows font.y 0 font (c * font.y) vbe_header.x (y * vbe_header.x + x) ink screen
    else screen
