-- ===== src/Multiboot.antt =====
-- include/multiboot.h: what the loader leaves for the kernel, and the strings of the modules.
use silicio.Strings.{Chars, from, strcmp}
use silicio.Base.{ℕ, Bool, ◌==◌}

-- `multiboot`. Pointers are addresses; the array `syms` is not read.
pub record Multiboot : Type 0 where
  pub flags : ℕ
  pub mem_lower : ℕ
  pub mem_upper : ℕ
  pub boot_device : ℕ
  pub cmdline : ℕ
  pub mods_count : ℕ
  pub mods_addr : ℕ
  pub syms : ℕ → ℕ
  pub mmap_length : ℕ
  pub mmap_addr : ℕ
  pub drives_length : ℕ
  pub drives_addr : ℕ
  pub config_table : ℕ
  pub boot_loader_name : ℕ
  pub apm_table : ℕ
  pub vbe_control_info : ℕ
  pub vbe_mode_info : ℕ
  pub vbe_mode : ℕ
  pub vbe_interface_seg : ℕ
  pub vbe_interface_off : ℕ
  pub vbe_interface_len : ℕ

-- `modules_info`: a module in memory, from `mod_start` below `mod_end`.
pub record ModulesInfo : Type 0 where
  pub mod_start : ℕ
  pub mod_end : ℕ
  pub string : ℕ
  pub res : ℕ

-- `vbe_mode`. `reserved3` is not read.
pub record VbeMode : Type 0 where
  pub mode_attributes : ℕ
  pub win_a_attributes : ℕ
  pub win_b_attributes : ℕ
  pub win_granularity : ℕ
  pub win_size : ℕ
  pub win_a_segment : ℕ
  pub win_b_segment : ℕ
  pub win_func : ℕ
  pub bytes_per_scanline : ℕ
  pub x_resolution : ℕ
  pub y_resolution : ℕ
  pub x_char_size : ℕ
  pub y_char_size : ℕ
  pub number_of_planes : ℕ
  pub bits_per_pixel : ℕ
  pub number_of_banks : ℕ
  pub memory_model : ℕ
  pub bank_size : ℕ
  pub number_of_image_pages : ℕ
  pub reserved0 : ℕ
  pub red_mask_size : ℕ
  pub red_field_position : ℕ
  pub green_mask_size : ℕ
  pub green_field_position : ℕ
  pub blue_mask_size : ℕ
  pub blue_field_position : ℕ
  pub reserved_mask_size : ℕ
  pub reserved_field_position : ℕ
  pub direct_color_mode_info : ℕ
  pub phys_base : ℕ
  pub reserved1 : ℕ
  pub reversed2 : ℕ
  pub linear_bytes_per_scanline : ℕ
  pub banked_number_of_image_pages : ℕ
  pub linear_number_of_image_pages : ℕ
  pub linear_red_mask_size : ℕ
  pub linear_red_field_position : ℕ
  pub linear_green_mask_size : ℕ
  pub linear_green_field_position : ℕ
  pub linear_blue_mask_size : ℕ
  pub linear_blue_field_position : ℕ
  pub linear_reserved_mask_size : ℕ
  pub linear_reserved_field_position : ℕ
  pub max_pixel_clock : ℕ
  pub reserved3 : ℕ → ℕ

-- The record of the loader with what its pointers `mods_addr` and `vbe_mode_info` lead to.
pub record Loader : Type 0 where
  pub multi : Multiboot
  pub mods : ℕ → ModulesInfo
  pub info : VbeMode

-- `0 == strcmp((char *)mod_info->string, name)`; `junk` is the place of `ret`.
unfoldable pub named : (junk : ℕ) → Chars → (ℕ → ℕ) → ModulesInfo → Bool
named junk name bytes mod_info = strcmp junk (from bytes mod_info.string) name == 0
