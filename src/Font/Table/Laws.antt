-- ===== src/Font/Table/Laws.antt =====
-- What the table holds after `open_mod_font` of main/main.c.
use native.Mathlib.Decide.{dec_lt, ℕ_discrete}
use silicio.Font.{Glyph}
use silicio.Font.Table.{box, glyphs, put_rows, fill_boxes, put_glyphs, open_mod_font}
use silicio.Base.{ℕ, zero, suc, refl, ap, inl, inr, Bool, true, false, List, [], arith, ltb, leb}
use silicio.Base.{Bool-cases, length, get_or, update, ◌+◌, ◌-◌, ◌*◌, ◌<◌, ◌≡◌, ◌∙◌, ◌∷◌, ◌&&◌}
use silicio.Base.{◌==◌, if◌then◌else◌}

-- The bitmap that the last block of stores for a character gives it, `rows` if there is none.
pub rows_of : List Glyph → ℕ → List ℕ → List ℕ
rows_of [] c rows = rows
rows_of (g ∷ gs) c rows = rows_of gs c (if g.code == c then g.rows else rows)

module _ (row : ℕ) (rows : List ℕ) (i k : ℕ) where
  get_or-here : i ≡ k → get_or (row ∷ rows) (k - i) 0 ≡ row
  get_or-here h = let e : k - i ≡ 0 = omega arith in ap (λ n. get_or (row ∷ rows) n 0) e

  get_or-later : i < k → get_or (row ∷ rows) (k - i) 0 ≡ get_or rows (k - (i + 1)) 0
  get_or-later h =
      let e : k - i ≡ suc (k - (i + 1)) = omega arith in ap (λ n. get_or (row ∷ rows) n 0) e

put_rows_lem :
    (i : ℕ) (rows : List ℕ) (f : ℕ → ℕ) (k : ℕ)
    → put_rows i rows f k
      ≡ (if leb i k && ltb k (i + length rows) then get_or rows (k - i) 0 else f k)
unfolding put_rows
put_rows_lem i [] f k = ground arith
put_rows_lem i (row ∷ rows) f k =
    let rest = put_rows_lem (i + 1) rows (update f i row) k in
    rest ∙ elim (dec_lt i k) [
      | yes later ↦ rw (get_or-later row rows i k later) (ground arith)
      | no not_later ↦ elim (ℕ_discrete i k) [
        | yes here ↦ rw (get_or-here row rows i k here) (ground arith)
        | no ne ↦ ground arith
      ]
    ]

-- A bitmap of 16 rows covers exactly the 16 bytes of its character.
put_rows_at :
    (code : ℕ) (rows : List ℕ) (f : ℕ → ℕ) (c r : ℕ)
    → length rows ≡ 16
    → r < 16
    → put_rows (16 * code) rows f (16 * c + r)
      ≡ (if code == c then get_or rows r 0 else f (16 * c + r))
put_rows_at code rows f c r size hr =
    put_rows_lem (16 * code) rows f (16 * c + r) ∙ elim (ℕ_discrete code c) [
      | yes same ↦ let e : 16 * c + r - 16 * code ≡ r = omega arith in rw e (ground arith)
      | no ne ↦ ground arith
    ]

fill_boxes_lem :
    (left i : ℕ) (f : ℕ → ℕ) (c r : ℕ)
    → r < 16
    → fill_boxes left (16 * i) f (16 * c + r)
      ≡ (if leb i c && ltb c (i + left) then get_or box r 0 else f (16 * c + r))
unfolding fill_boxes
fill_boxes_lem zero i f c r hr = ground arith
fill_boxes_lem (suc left) i f c r hr =
    let e : 16 * i + 16 ≡ 16 * (i + 1) = omega arith in
    let put = put_rows_at i box f c r refl hr in
    let rest = fill_boxes_lem left (i + 1) (put_rows (16 * i) box f) c r hr in
    rw e (rest ∙ rw put (ground arith))

-- Every bitmap has 16 rows, of six columns.
all_fit : List ℕ → Bool
all_fit [] = true
all_fit (row ∷ rows) = ltb row 64 && all_fit rows

all_good : List Glyph → Bool
all_good [] = true
all_good (g ∷ gs) = length g.rows == 16 && all_fit g.rows && all_good gs

glyphs_good : all_good glyphs ≡ true
unfolding all_good all_fit
glyphs_good = refl

get_or-if :
    (b : Bool) (xs ys : List ℕ) (r : ℕ)
    → (if b then get_or xs r 0 else get_or ys r 0) ≡ get_or (if b then xs else ys) r 0
get_or-if true xs ys r = refl
get_or-if false xs ys r = refl

put_glyphs_lem :
    (gs : List Glyph) (f : ℕ → ℕ) (c r : ℕ) (rows : List ℕ)
    → all_good gs ≡ true
    → r < 16
    → f (16 * c + r) ≡ get_or rows r 0
    → put_glyphs gs f (16 * c + r) ≡ get_or (rows_of gs c rows) r 0
unfolding put_glyphs all_good rows_of
put_glyphs_lem [] f c r rows good hr e = e
put_glyphs_lem (g ∷ gs) f c r rows good hr e =
    put_glyphs_lem gs (put_rows (16 * g.code) g.rows f) c r (if g.code == c then g.rows else rows)
      (ground arith) hr
      (put_rows_at g.code g.rows f c r (ground arith) hr
        ∙ rw e (get_or-if (g.code == c) g.rows rows r))

-- After `open_mod_font`, the 16 bytes of each of the 256 characters are the rows that the last
-- block of stores for it gives, and a line alone for a character without a block.
pub open_mod_font_lem :
    (f : ℕ → ℕ) (c r : ℕ)
    → c < 256
    → r < 16
    → (open_mod_font f).addr (16 * c + r) ≡ get_or (rows_of glyphs c box) r 0
unfolding open_mod_font
open_mod_font_lem f c r hc hr =
    put_glyphs_lem glyphs (fill_boxes 256 0 f) c r box glyphs_good hr
      (fill_boxes_lem 256 0 f c r hr ∙ ground arith)

-- The rows of every character, once the font is made, use the low six columns only.
get_or-fit : (rows : List ℕ) (r : ℕ) → all_fit rows ≡ true → get_or rows r 0 < 64
unfolding all_fit
get_or-fit [] r h = omega arith
get_or-fit (row ∷ rows) zero h = ground arith
get_or-fit (row ∷ rows) (suc r) h = get_or-fit rows r (ground arith)

rows_of-fit :
    (gs : List Glyph) (c : ℕ) (rows : List ℕ)
    → all_good gs ≡ true
    → all_fit rows ≡ true
    → all_fit (rows_of gs c rows) ≡ true
unfolding rows_of all_good
rows_of-fit [] c rows good h = h
rows_of-fit (g ∷ gs) c rows good h =
    rows_of-fit gs c (if g.code == c then g.rows else rows) (ground arith)
      (elim (Bool-cases (g.code == c)) [ inl b ↦ rw b (ground arith) | inr b ↦ rw b h ])

box-fit : all_fit box ≡ true
unfolding all_fit
box-fit = refl

-- After `open_mod_font`, each of the 16 rows of each of the 256 characters is below 64: it uses
-- the low six columns only.
pub open_mod_font-fit :
    (f : ℕ → ℕ) (c r : ℕ) → c < 256 → r < 16 → (open_mod_font f).addr (16 * c + r) < 64
open_mod_font-fit f c r hc hr =
    rw (open_mod_font_lem f c r hc hr)
      (get_or-fit (rows_of glyphs c box) r (rows_of-fit glyphs c box glyphs_good box-fit))

-- After `open_mod_font`, the 16 bytes of each of the 256 characters are the rows that the last
-- block of stores for it gives, and a line alone for a character without a block; and each of
-- them is below 64, so that it uses the low six columns only.
pub open_mod_font-rows :
    (f : ℕ → ℕ) (c r : ℕ)
    → c < 256
    → r < 16
    → ((open_mod_font f).addr (16 * c + r) ≡ get_or (rows_of glyphs c box) r 0)
      × ((open_mod_font f).addr (16 * c + r) < 64)
open_mod_font-rows f c r hc hr = (open_mod_font_lem f c r hc hr, open_mod_font-fit f c r hc hr)
