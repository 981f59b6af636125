-- ===== src/Font/Table.antt =====
-- `open_mod_font` of main/main.c, on the table `f` as a function of the index; its result is what `fo`
-- points to after it.
pub mod Laws
use silicio.Font.{Glyph, Font}
use silicio.Font.Lower.{from_a, from_i, from_q, from_y}
use silicio.Font.Upper.{upper_g, upper_o, upper_v}
use silicio.Font.Signs.{from_4, from_bracket, from_backslash}
use silicio.Base.{ℕ, zero, suc, List, [], update, ◌+◌, ◌*◌, ◌∷◌, ◌++◌}

-- The bitmap of a character that has none of its own.
abbrev pub box : List ℕ
box = 0 ∷ 0 ∷ 0 ∷ 0 ∷ 0 ∷ 0 ∷ 0 ∷ 0 ∷ 0x3f ∷ 0 ∷ 0 ∷ 0 ∷ 0 ∷ 0 ∷ 0 ∷ 0 ∷ []

abbrev pub glyphs : List Glyph
glyphs =
    from_a ++ from_i ++ from_q ++ from_y ++ upper_g ++ upper_o ++ upper_v ++ from_4 ++ from_bracket
    ++ from_backslash

-- `f[i] = ...; f[i+1] = ...; ...`
pub put_rows : ℕ → List ℕ → (ℕ → ℕ) → ℕ → ℕ
put_rows i [] f = f
put_rows i (row ∷ rows) f = put_rows (i + 1) rows (update f i row)

-- The loop `for (i=0; i < (256*16); i+=16)`, `left` rounds before its end.
pub fill_boxes : ℕ → ℕ → (ℕ → ℕ) → ℕ → ℕ
fill_boxes zero i f = f
fill_boxes (suc left) i f = fill_boxes left (i + 16) (put_rows i box f)

pub put_glyphs : List Glyph → (ℕ → ℕ) → ℕ → ℕ
put_glyphs [] f = f
put_glyphs (g ∷ gs) f = put_glyphs gs (put_rows (16 * g.code) g.rows f)

unfoldable pub open_mod_font : (ℕ → ℕ) → Font
open_mod_font f = record { addr = put_glyphs glyphs (fill_boxes 256 0 f); x = 8; y = 16 }
