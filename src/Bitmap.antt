-- ===== src/Bitmap.antt =====
-- file/file.c and include/bmp.h: the picture behind the console. Memory is a function from the address
-- of a byte.
pub mod Rows
pub mod Picture
pub mod Header
pub mod Tests
use silicio.Font.Draw.{Vbe}
use silicio.Base.{ℕ, zero, suc, ltb, update, u32, sub32, ◌+◌, ◌-◌, ◌*◌, ◌==◌, if◌then◌else◌}

-- `s_bmp_header`
pub record BmpHeader : Type 0 where
  pub char0 : ℕ
  pub char1 : ℕ
  pub offset : ℕ
  pub size_file : ℕ
  pub x : ℕ
  pub y : ℕ
  pub xy : ℕ
  pub init_img : ℕ
  pub bit_per_pixel : ℕ

-- `*pixel = *bmp_color`
abbrev pub copy_byte : (pixel bmp_color : ℕ) → (ℕ → ℕ) → ℕ → ℕ
copy_byte pixel bmp_color m = update m pixel (m bmp_color)

-- The three colours of a pixel, blue first.
pub copy_pixel : (pixel bmp_color : ℕ) → (ℕ → ℕ) → ℕ → ℕ
copy_pixel pixel bmp_color m =
    copy_byte (pixel + 2) (bmp_color + 2)
      (copy_byte (pixel + 1) (bmp_color + 1) (copy_byte pixel bmp_color m))

-- The loop over `x_aux`, whose pixels take `stride` bytes of the screen.
pub row_loop : (left stride pixel bmp_color : ℕ) → (ℕ → ℕ) → ℕ → ℕ
row_loop zero stride pixel bmp_color m = m
row_loop (suc left) stride pixel bmp_color m =
    row_loop left stride (pixel + stride) (bmp_color + 3) (copy_pixel pixel bmp_color m)

-- The loop over `x_aux` of the mode 30, where `bmp_pixel` goes down.
pub row_back : (left pixel32 bmp_pixel : ℕ) → (ℕ → ℕ) → ℕ → ℕ
row_back zero pixel32 bmp_pixel m = m
row_back (suc left) pixel32 bmp_pixel m =
    row_back left (pixel32 + 4) (sub32 bmp_pixel 3) (copy_pixel pixel32 bmp_pixel m)

-- The loop over `y_aux`, with `row y_aux` for its body.
pub rows_loop : (left y_aux : ℕ) → (ℕ → (ℕ → ℕ) → ℕ → ℕ) → (ℕ → ℕ) → ℕ → ℕ
rows_loop zero y_aux row m = m
rows_loop (suc left) y_aux row m = rows_loop left (y_aux + 1) row (row y_aux m)

-- The row of the screen in the modes 24 and 32. The macros of the offsets have no parentheses; the
-- products come out the same: `BMP_CENTER_H_24` and `BMP_CENTER_V_24` are 90, the others 40 and 80.
pub pixel_row : (stride center_h center_v : ℕ) → Vbe → ℕ → ℕ
pixel_row stride center_h center_v v y_aux =
    u32 (v.addr + y_aux * v.x * stride + center_h + v.x * center_v)

-- The row of the picture, the last one first. `y_aux` is below `b->y`.
pub bmp_row : BmpHeader → ℕ → ℕ
bmp_row b y_aux = u32 (b.init_img + (b.y - 1 - y_aux) * (b.x * 3 + 2))

-- The start of the row in the mode 30; `bmp_pixel` counts in pixels of three bytes.
pub back_row : BmpHeader → ℕ → ℕ
back_row b y_aux = u32 (sub32 b.init_img (u32 (y_aux * b.x * 3)) + b.xy * 3)

pub x_scr : BmpHeader → Vbe → ℕ
x_scr b v = if ltb v.x b.x then v.x else b.x

pub y_scr : BmpHeader → Vbe → ℕ
y_scr b v = if ltb v.y b.y then v.y else b.y

pub bmp2vbe : BmpHeader → Vbe → (ℕ → ℕ) → ℕ → ℕ
bmp2vbe b v m =
    let centred = λ (stride center_h center_v : ℕ).
      rows_loop (y_scr b v) 0
        (λ y. row_loop (x_scr b v) stride (pixel_row stride center_h center_v v y) (bmp_row b y))
        m in
    if v.color == 24
    then centred 3 90 90
    else if v.color == 30
    then rows_loop (y_scr b v) 0
        (λ y. row_back (x_scr b v) (u32 (v.addr + y * v.x * 4)) (back_row b y)) m
    else if v.color == 32
    then centred 4 40 80
    else m
