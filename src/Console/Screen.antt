-- ===== src/Console/Screen.antt =====
-- `putc`, `tputc` and `cls` of stdio/stdio.c: the cursor and the screen.
pub mod Cursor
pub mod Scroll
mod Tests
use silicio.Font.{Font}
use silicio.Font.Draw.{Rgb, Vbe, bmp2graf}
use silicio.Console.Memory.{memcpy, memset}
use silicio.Base.{ℕ, bit_and, leb, update, ◌+◌, ◌-◌, ◌*◌, ◌/◌, ◌||◌, ◌==◌, if◌then◌else◌}

-- `xpos`, `ypos` and what they write to: the bytes of the text mode, by address, and the pixels of
-- a mode of 24 or 32 bits, counted from `vbe_header.addr`.
pub record Screen : Type 0 where
  pub xpos : ℕ
  pub ypos : ℕ
  pub bytes : ℕ → ℕ
  pub pixels : ℕ → Rgb

abbrev pub black : Rgb
black = record { red = 0; green = 0; blue = 0 }

abbrev pub ink : Rgb
ink = record { red = 0xf0; green = 0xf0; blue = 0x80 }

-- The `x` and `y` of `putc`: the screen in characters. `font.x` and `font.y` are not 0.
abbrev pub columns : Font → Vbe → ℕ
columns font vbe_header = if vbe_header.color == 0 then vbe_header.x else vbe_header.x / font.x

abbrev pub rows : Font → Vbe → ℕ
rows font vbe_header = if vbe_header.color == 0 then vbe_header.y else vbe_header.y / font.y

-- The copy of `putc` in the text mode, of `b * c * 2` bytes, where `b` is a line in bytes.
pub scroll_text : Vbe → (ℕ → ℕ) → ℕ → ℕ
scroll_text vbe_header bytes =
    let b = vbe_header.x * 2 in
    let c = vbe_header.y - 1 in memcpy (b * c * 2) (vbe_header.addr + b) vbe_header.addr bytes

-- The copy and the clearing of the graphical modes. Their counts are in bytes, `color / 8` for a
-- pixel; here they are in pixels.
pub scroll_pixels : Font → Vbe → (ℕ → Rgb) → ℕ → Rgb
scroll_pixels font vbe_header pixels =
    let kept = (vbe_header.y - font.y) * vbe_header.x in
    let line = font.y * vbe_header.x in memset line kept black (memcpy kept line 0 pixels)

-- From the label `newline` on.
pub new_line : Font → Vbe → Screen → Screen
new_line font vbe_header s =
    if leb (rows font vbe_header) (s.ypos + 1)
    then (if vbe_header.color == 0
        then record s { xpos = 0; bytes = scroll_text vbe_header s.bytes }
        else record s { xpos = 0; pixels = scroll_pixels font vbe_header s.pixels })
    else record s { xpos = 0; ypos = s.ypos + 1 }

-- The character at the cursor.
pub draw : Font → Vbe → ℕ → Screen → Screen
draw font vbe_header c s =
    let cell = vbe_header.addr + (s.xpos + s.ypos * vbe_header.x) * 2 in
    if vbe_header.color == 0
    then record s { bytes = update (update s.bytes cell (bit_and c 0xff)) (cell + 1) 0x7 }
    else record s {
      pixels = bmp2graf font vbe_header c (s.xpos * font.x) (s.ypos * font.y) ink s.pixels;
    }

pub putc : Font → Vbe → ℕ → Screen → Screen
putc font vbe_header c s =
    let s1 = draw font vbe_header c s in
    let s2 : Screen = record s1 { xpos = s1.xpos + 1 } in
    if c == 0x0a
    then new_line font vbe_header s
    else if c == 0x0d
    then record s { xpos = 0 }
    else if leb (columns font vbe_header) s2.xpos
    then new_line font vbe_header s2
    else s2

-- The console of the early start: 80 by 24 at `video`, from the top again at the end.
abbrev pub video : ℕ
video = 0xb8000

pub text_line : Screen → Screen
text_line s = record s { xpos = 0; ypos = if leb 24 (s.ypos + 1) then 0 else s.ypos + 1 }

pub tputc : ℕ → Screen → Screen
tputc c s =
    let cell = video + (s.xpos + s.ypos * 80) * 2 in
    let s1 : Screen = record s {
      bytes = update (update s.bytes cell (bit_and c 0xff)) (cell + 1) 0x7;
      xpos = s.xpos + 1;
    } in
    if c == 0x0a
    then text_line s
    else if c == 0x0d
    then record s { xpos = 0 }
    else if leb 80 s1.xpos
    then text_line s1
    else s1

pub cls : Vbe → Screen → Screen
cls vbe_header s = record s {
  xpos = 0;
  ypos = 0;
  bytes =
      if vbe_header.color == 0
      then memset (vbe_header.xy * 2) vbe_header.addr 0 s.bytes
      else s.bytes;
  pixels =
      if vbe_header.color == 24 || vbe_header.color == 32
      then memset vbe_header.xy 0 black s.pixels
      else s.pixels;
}
