-- ===== src/Font/Tests.antt =====
-- Runs of the font of main/main.c and of `bmp2graf` of stdio/stdio.c.
use silicio.Font.Table.{box, glyphs, open_mod_font}
use silicio.Font.Table.Laws.{rows_of}
use silicio.Font.Draw.{Rgb, Vbe, bmp2graf}
use silicio.Font.Draw.Pixels.{bmp2graf-pixel}
use silicio.Base.{ℕ, refl, inr, arith, get_or, ◌+◌, ◌*◌, ◌<◌, ◌≡◌, ◌≢◌, ◌⊎◌, if◌then◌else◌}
use silicio.Base.Bytes.{bit_at}

abbrev mode : Vbe
mode = record { x = 800; y = 600; xy = 480000; color = 32; addr = 0xE000_0000 }

abbrev black : Rgb
black = record { red = 0; green = 0; blue = 0 }

abbrev ink : Rgb
ink = record { red = 0xf0; green = 0xf0; blue = 0x80 }

bmp2graf_example :
    ((s : ℕ) × (b : ℕ) × (s < 16)
      × (b < 8)
      × (29618 ≡ s * 800 + (32 * 800 + 16) + b)
      × (bmp2graf (open_mod_font (λ i. 0)) mode 0x61 16 32 ink (λ q. black) 29618
          ≡ (if bit_at (get_or (rows_of glyphs 0x61 box) s 0) b then ink else black)))
    ⊎ (((s b : ℕ) → s < 16 → b < 8 → 29618 ≢ s * 800 + (32 * 800 + 16) + b)
        × (bmp2graf (open_mod_font (λ i. 0)) mode 0x61 16 32 ink (λ q. black) 29618 ≡ black))
bmp2graf_example =
    bmp2graf-pixel (λ i. 0) mode 0x61 16 32 ink (λ q. black) (omega arith) (omega arith) (inr refl)
      29618
