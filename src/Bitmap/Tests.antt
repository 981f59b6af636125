-- ===== src/Bitmap/Tests.antt =====
-- Runs of `bmp2vbe` and `open_mod_bmp` of file/file.c.
use silicio.Multiboot.{Multiboot, ModulesInfo, VbeMode, Loader}
use silicio.Font.Draw.{Vbe}
use silicio.Bitmap.{BmpHeader, x_scr, y_scr, bmp2vbe, pixel_row, bmp_row, rows_loop, row_loop}
use silicio.Bitmap.{copy_pixel, row_back, back_row}
use silicio.Bitmap.Picture.{bmp_pitch, IsPlaced, bmp2vbe-pixel}
use silicio.Bitmap.Header.{
  background_name, read_header, is_background, open_mod_bmp, IsLast, open_mod_bmp_lem,
}
use silicio.Base.{ℕ, refl, inl, inr, false, arith, ltb, ◌+◌, ◌-◌, ◌*◌, ◌%◌, ◌≤◌, ◌<◌, ◌≡◌, ◌⊎◌}
use silicio.Base.{◌&&◌, if◌then◌else◌}

-- A picture of 2 by 2 at 0x100, and a screen of 4 by 3 with 32 bits at 0x1000.
abbrev pub picture : BmpHeader
picture = record {
  char0 = b'B';
  char1 = b'M';
  offset = 54;
  size_file = 70;
  x = 2;
  y = 2;
  xy = 4;
  init_img = 0x100;
  bit_per_pixel = 24;
}

abbrev screen : Vbe
screen = record { x = 4; y = 3; xy = 12; color = 32; addr = 0x1000 }

two_columns : x_scr picture screen ≡ 2
unfolding x_scr
two_columns = refl

two_rows : y_scr picture screen ≡ 2
unfolding y_scr
two_rows = refl

picture-IsPlaced : IsPlaced picture screen 4 (0x1000 + 40 + 4 * 80)
picture-IsPlaced = record {
  screen_in = omega (arith, two_rows);
  image_in = omega arith;
  apart = inl (omega arith);
  visible = omega arith;
}

-- The second pixel of the first row, its green.
drawn : bmp2vbe picture screen (λ a. a) (0x1000 + 40 + 320 + 4 + 1) ≡ 0x100 + 8 + 3 + 1
unfolding bmp2vbe x_scr y_scr pixel_row bmp_row rows_loop row_loop copy_pixel
drawn = refl

-- In the mode 30 the first byte is the one 4 pixels behind the first of the picture, and the pixels
-- follow it downwards.
abbrev screen_30 : Vbe
screen_30 = record { x = 4; y = 3; xy = 12; color = 30; addr = 0x1000 }

drawn_30 : bmp2vbe picture screen_30 (λ a. a) 0x1000 ≡ 0x100 + 12
unfolding bmp2vbe rows_loop row_back back_row x_scr y_scr copy_pixel
drawn_30 = refl

next_30 : bmp2vbe picture screen_30 (λ a. a) 0x1004 ≡ 0x100 + 9
unfolding bmp2vbe rows_loop row_back back_row x_scr y_scr copy_pixel
next_30 = refl

bmp2vbe-pixel_example :
    ((y x c : ℕ)
      → y < y_scr picture screen
      → x < 4
      → c < 4
      → bmp2vbe picture screen (λ a. a) (0x1000 + 40 + 4 * 80 + y * (4 * 4) + 4 * x + c) ≡ (
          if ltb x (x_scr picture screen) && ltb c 3
          then 0x100 + (2 - 1 - y) * bmp_pitch picture + 3 * x + c
          else 0x1000 + 40 + 4 * 80 + y * (4 * 4) + 4 * x + c))
    × ((a : ℕ)
        → (a < 0x1000 + 40 + 4 * 80) ⊎ (0x1000 + 40 + 4 * 80 + y_scr picture screen * (4 * 4) ≤ a)
        → bmp2vbe picture screen (λ a. a) a ≡ a)
bmp2vbe-pixel_example =
    bmp2vbe-pixel picture screen 4 (0x1000 + 40 + 4 * 80) (λ a. a) (inr (refl, refl, refl))
      picture-IsPlaced

-- Two modules of a page, the second one the picture.
abbrev pub multi : Multiboot
multi = record {
  flags = 0;
  mem_lower = 0;
  mem_upper = 0;
  boot_device = 0;
  cmdline = 0;
  mods_count = 2;
  mods_addr = 0;
  syms = λ i. 0;
  mmap_length = 0;
  mmap_addr = 0;
  drives_length = 0;
  drives_addr = 0;
  config_table = 0;
  boot_loader_name = 0;
  apm_table = 0;
  vbe_control_info = 0;
  vbe_mode_info = 0;
  vbe_mode = 0x118;
  vbe_interface_seg = 0;
  vbe_interface_off = 0;
  vbe_interface_len = 0;
}

-- 800 by 600 pixels of 32 bits.
abbrev pub mode_info : VbeMode
mode_info = record {
  mode_attributes = 0;
  win_a_attributes = 0;
  win_b_attributes = 0;
  win_granularity = 0;
  win_size = 0;
  win_a_segment = 0;
  win_b_segment = 0;
  win_func = 0;
  bytes_per_scanline = 0;
  x_resolution = 800;
  y_resolution = 600;
  x_char_size = 0;
  y_char_size = 0;
  number_of_planes = 0;
  bits_per_pixel = 32;
  number_of_banks = 0;
  memory_model = 0;
  bank_size = 0;
  number_of_image_pages = 0;
  reserved0 = 0;
  red_mask_size = 0;
  red_field_position = 0;
  green_mask_size = 0;
  green_field_position = 0;
  blue_mask_size = 0;
  blue_field_position = 0;
  reserved_mask_size = 0;
  reserved_field_position = 0;
  direct_color_mode_info = 0;
  phys_base = 0xE000_0000;
  reserved1 = 0;
  reversed2 = 0;
  linear_bytes_per_scanline = 0;
  banked_number_of_image_pages = 0;
  linear_number_of_image_pages = 0;
  linear_red_mask_size = 0;
  linear_red_field_position = 0;
  linear_green_mask_size = 0;
  linear_green_field_position = 0;
  linear_blue_mask_size = 0;
  linear_blue_field_position = 0;
  linear_reserved_mask_size = 0;
  linear_reserved_field_position = 0;
  max_pixel_clock = 0;
  reserved3 = λ i. 0;
}

abbrev pub module_at : ℕ → ModulesInfo
module_at i = record {
  mod_start = 0x12_3000 + 0x2000 * i;
  mod_end = 0x12_4000 + 0x2000 * i;
  string = 0x4000 + 0x1000 * i;
  res = 0;
}

abbrev pub loader : Loader
loader = record { multi = multi; mods = module_at; info = mode_info }

abbrev bytes : ℕ → ℕ
bytes a = if ltb a 0x5000 then a % 256 else background_name (a - 0x5000)

open_mod_bmp_example :
    ((open_mod_bmp (λ i. 0) loader bytes picture ≡ (1, picture))
      × ((j : ℕ) → j < 2 → is_background (λ i. 0) loader bytes j ≡ false))
    ⊎ ((i : ℕ) × IsLast (is_background (λ i. 0) loader bytes) 2 i
        × (open_mod_bmp (λ i. 0) loader bytes picture ≡ (0, read_header bytes (module_at i))))
open_mod_bmp_example = open_mod_bmp_lem (λ i. 0) loader bytes picture
