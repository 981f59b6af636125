-- ===== src/Font.antt =====
-- The font of the graphical console: the data that main/main.c puts into the table `f`.
pub mod Lower
pub mod Upper
pub mod Signs
pub mod Table
pub mod Draw
mod Tests
use silicio.Base.{ℕ, List}

-- One block of stores of `open_mod_font`: the 16 bytes from `16 * code` on.
pub record Glyph : Type 0 where
  pub code : ℕ
  pub rows : List ℕ

-- `s_font` of include/font.h, with the table that `addr` points to.
pub record Font : Type 0 where
  pub addr : ℕ → ℕ
  pub x : ℕ
  pub y : ℕ
