-- ===== src/Font/Draw/Pixels.antt =====
-- The pixels that `bmp2graf` of stdio/stdio.c changes.
use native.Mathlib.Decide.{dec_lt, ℕ_discrete}
use native.Mathlib.Nat.{suc-mul, mul-le-mul_right}
use silicio.Font.Draw.{Rgb, Vbe, lit, draw_row, draw_rows, bmp2graf}
use silicio.Font.{Font}
use silicio.Font.Table.{box, glyphs, open_mod_font}
use silicio.Font.Table.Laws.{rows_of, open_mod_font_lem, open_mod_font-fit}
use silicio.Base.{ℕ, zero, suc, refl, sym, ap, inl, inr, Bool, true, not, arith, ltb, leb}
use silicio.Base.{Bool-cases, get_or, update, ◌+◌, ◌-◌, ◌*◌, ◌≤◌, ◌<◌, ◌≡◌, ◌≢◌, ◌⊎◌, ◌∙◌, ◌&&◌}
use silicio.Base.{◌||◌, ◌==◌, if◌then◌else◌}
use silicio.Base.Bits.{all_below, all_below_sound, all_below-false}
use silicio.Base.Bytes.{bit_at}

lit_ok : ℕ → ℕ → Bool
lit_ok row k = if bit_at row k then lit row k else not (lit row k)

lit_table : all_below 256 (λ row. all_below 8 (lit_ok row)) ≡ true
unfolding all_below lit_ok bit_at
lit_table = refl

lit_lem : (row k : ℕ) → row < 256 → k < 8 → lit row k ≡ bit_at row k
unfolding lit_ok
lit_lem row k hr hk =
    let ok =
      all_below_sound 8 (lit_ok row) k
        (all_below_sound 256 (λ row. all_below 8 (lit_ok row)) row lit_table hr) hk in
    ground arith

-- The rest of a row.
draw_row_lem :
    (left i row start q : ℕ) (ink : Rgb) (screen : ℕ → Rgb)
    → i + left ≡ 8
    → row < 256
    → draw_row left i row start ink screen q
      ≡ (if leb (start + i) q && ltb q (start + 8) && bit_at row (q - start) then ink else screen q)
unfolding draw_row
draw_row_lem zero i row start q ink screen e h = ground arith
draw_row_lem (suc left) i row start q ink screen e h =
    let inside : i < 8 = omega arith in
    let bit = lit_lem row i h inside in
    let rest =
      draw_row_lem left (i + 1) row start q ink
        (if lit row i then update screen (start + i) ink else screen) (omega arith) h in
    rest ∙ elim (ℕ_discrete (start + i) q) [
      | yes here ↦ let e : q - start ≡ i = omega arith in rw (e, bit) (ground arith)
      | no ne ↦ ground arith
    ]

-- A row of the screen is as wide as a character at least, so that its rows do not meet.
module _ (width : ℕ) (wide : 8 ≤ width) where
  next_row : (s r : ℕ) → s < r → s * width + width ≤ r * width
  next_row s r h = rw (sym (suc-mul s width)) (mul-le-mul_right width h)

  -- A pixel outside the rows left is not changed.
  draw_rows-outside :
      (left r : ℕ) (font : Font) (glyph cor q : ℕ) (ink : Rgb) (screen : ℕ → Rgb)
      → font.x ≡ 8
      → ((k : ℕ) → r ≤ k → k < r + left → font.addr (glyph + k) < 256)
      → ((s b : ℕ) → r ≤ s → s < r + left → b < 8 → q ≢ s * width + cor + b)
      → draw_rows left r font glyph width cor ink screen q ≡ screen q
  unfolding draw_rows
  draw_rows-outside zero r font glyph cor q ink screen ex bytes out = refl
  draw_rows-outside (suc left) r font glyph cor q ink screen ex bytes out =
      let row = font.addr (glyph + r) in
      let start = r * width + cor in
      let drawn =
        draw_row_lem 8 0 row start q ink screen refl (bytes r (omega arith) (omega arith)) in
      let apart : (q < start) ⊎ (start + 8 ≤ q) = elim (dec_lt q start) [
        | yes before ↦ inl before
        | no nb ↦ elim (dec_lt q (start + 8)) [
          | yes within ↦
              absurd (out r (q - start) (omega arith) (omega arith) (omega arith) (omega arith))
          | no after ↦ inr (omega arith)
        ]
      ] in
      draw_rows-outside left (r + 1) font glyph cor q ink (draw_row font.x 0 row start ink screen)
        ex (λ k lo hi. bytes k (omega arith) (omega arith))
        (λ s b lo hi hb. out s b (omega arith) (omega arith) hb)
      ∙ rw (ex, drawn) (ground arith)

  -- A pixel of the rows left is drawn if its bit is set.
  draw_rows-inside :
      (left r : ℕ) (font : Font) (glyph cor s b : ℕ) (ink : Rgb) (screen : ℕ → Rgb)
      → font.x ≡ 8
      → ((k : ℕ) → r ≤ k → k < r + left → font.addr (glyph + k) < 256)
      → r ≤ s
      → s < r + left
      → b < 8
      → draw_rows left r font glyph width cor ink screen (s * width + cor + b)
        ≡ (if bit_at (font.addr (glyph + s)) b then ink else screen (s * width + cor + b))
  unfolding draw_rows
  draw_rows-inside zero r font glyph cor s b ink screen ex bytes lo hi hb = absurd (omega arith)
  draw_rows-inside (suc left) r font glyph cor s b ink screen ex bytes lo hi hb =
      let row = font.addr (glyph + r) in
      let start = r * width + cor in
      let q = s * width + cor + b in
      let drawn =
        draw_row_lem 8 0 row start q ink screen refl (bytes r (omega arith) (omega arith)) in
      elim (ℕ_discrete r s) [
        | yes here ↦
            let same = ap (λ x. x * width) here in
            let at : q - start ≡ b = omega (arith, same) in
            draw_rows-outside left (r + 1) font glyph cor q ink
              (draw_row font.x 0 row start ink screen) ex
              (λ k lo2 hi2. bytes k (omega arith) (omega arith))
              (λ t i lo2 hi2 hi3 e.
                let below = next_row r t (omega arith) in absurd (omega (arith, same)))
            ∙ rw (ex, drawn, at, sym here) (ground arith)
        | no ne ↦
            let below = next_row r s (omega arith) in
            draw_rows-inside left (r + 1) font glyph cor s b ink
              (draw_row font.x 0 row start ink screen) ex
              (λ k lo2 hi2. bytes k (omega arith) (omega arith)) (omega arith) (omega arith) hb
            ∙ rw (ex, drawn) (ground arith)
      ]

-- The font that `open_mod_font` makes has bytes in the table, and says 8 by 16.
module _ (f : ℕ → ℕ) (c : ℕ) (hc : c < 256) where
  glyph_bytes : (k : ℕ) → 0 ≤ k → k < 0 + 16 → (open_mod_font f).addr (16 * c + k) < 256
  glyph_bytes k lo hi = let fit = open_mod_font-fit f c k hc hi in omega (arith, fit)

module _ (f : ℕ → ℕ) (vbe_header : Vbe) (c x y : ℕ) (ink : Rgb) (screen : ℕ → Rgb) (hc : c < 256)
    (wide : 8 ≤ vbe_header.x) (deep : (vbe_header.color ≡ 24) ⊎ (vbe_header.color ≡ 32)) where
  -- On a screen of 24 or 32 bits that is at least 8 pixels wide, `bmp2graf` with the font of
  -- `open_mod_font` and a character below 256 gives pixel `b` below 8 of row `s` below 16 of the
  -- character's place the ink if bit `b` of row `s` of its bitmap is set, and leaves it as it was
  -- if not.
  pub bmp2graf-inside :
      (s b : ℕ)
      → s < 16
      → b < 8
      → bmp2graf
          (open_mod_font f)
          vbe_header
          c
          x
          y
          ink
          screen
          (s * vbe_header.x + (y * vbe_header.x + x) + b)
        ≡ (if bit_at (get_or (rows_of glyphs c box) s 0) b
            then ink
            else screen (s * vbe_header.x + (y * vbe_header.x + x) + b))
  unfolding bmp2graf open_mod_font
  bmp2graf-inside s b hs hb =
      let cor = y * vbe_header.x + x in
      let on : (vbe_header.color == 24 || vbe_header.color == 32) ≡ true = ground arith in
      let e : c * 16 ≡ 16 * c = omega arith in
      rw (on, e, sym (open_mod_font_lem f c s hc hs))
        (draw_rows-inside vbe_header.x wide 16 0 (open_mod_font f) (16 * c) cor s b ink screen refl
          (glyph_bytes f c hc) (omega arith) hs hb)

  -- On a screen of 24 or 32 bits that is at least 8 pixels wide, `bmp2graf` with the font of
  -- `open_mod_font` and a character below 256 changes no pixel outside the 8 by 16 place of the
  -- character.
  pub bmp2graf-outside :
      (q : ℕ)
      → ((s b : ℕ) → s < 16 → b < 8 → q ≢ s * vbe_header.x + (y * vbe_header.x + x) + b)
      → bmp2graf (open_mod_font f) vbe_header c x y ink screen q ≡ screen q
  unfolding bmp2graf open_mod_font
  bmp2graf-outside q out =
      let cor = y * vbe_header.x + x in
      let on : (vbe_header.color == 24 || vbe_header.color == 32) ≡ true = ground arith in
      let e : c * 16 ≡ 16 * c = omega arith in
      rw (on, e)
        (draw_rows-outside vbe_header.x wide 16 0 (open_mod_font f) (16 * c) cor q ink screen refl
          (glyph_bytes f c hc) (λ s b lo hi hb. out s b hi hb))

  -- The pixel `q` is pixel `b` of row `s` of the character's place.
  abbrev at_place : ℕ → ℕ → ℕ → Bool
  at_place q s b = q == s * vbe_header.x + (y * vbe_header.x + x) + b

  -- On a screen of 24 or 32 bits that is at least 8 pixels wide, with the font of `open_mod_font`
  -- and a character below 256, for every pixel: it is pixel `b` below 8 of row `s` below 16 of
  -- the place of the character, and `bmp2graf` gives it the ink if bit `b` of row `s` of the
  -- bitmap is set, and leaves it as it was if not; or it lies outside that place, and `bmp2graf`
  -- leaves it as it was.
  pub bmp2graf-pixel :
      (q : ℕ)
      → ((s : ℕ) × (b : ℕ) × (s < 16)
          × (b < 8)
          × (q ≡ s * vbe_header.x + (y * vbe_header.x + x) + b)
          × (bmp2graf (open_mod_font f) vbe_header c x y ink screen q
              ≡ (if bit_at (get_or (rows_of glyphs c box) s 0) b then ink else screen q)))
        ⊎ (((s b : ℕ) → s < 16 → b < 8 → q ≢ s * vbe_header.x + (y * vbe_header.x + x) + b)
            × (bmp2graf (open_mod_font f) vbe_header c x y ink screen q ≡ screen q))
  bmp2graf-pixel q =
      let out = λ (s : ℕ). all_below 8 (λ b. not (at_place q s b)) in
      elim (Bool-cases (all_below 16 out)) [
        | inl z ↦
            let apart : (s b : ℕ)
                → s < 16
                → b < 8
                → q ≢ s * vbe_header.x + (y * vbe_header.x + x) + b =
              λ s b hs hb e.
                let at_s = all_below_sound 16 out s z hs in
                let at_b = all_below_sound 8 (λ b. not (at_place q s b)) b at_s hb in
                absurd (ground arith) in
            inr (apart, bmp2graf-outside q apart)
        | inr z ↦
            let (s, hs, es) = all_below-false 16 out z in
            let (b, hb, eb) = all_below-false 8 (λ b. not (at_place q s b)) es in
            let e : q ≡ s * vbe_header.x + (y * vbe_header.x + x) + b = ground arith in
            inl (s, b, hs, hb, e, rw e (bmp2graf-inside s b hs hb))
      ]
