-- ===== src/Bitmap/Picture.antt =====
-- Where `bmp2vbe` of file/file.c puts each pixel of the picture, in the modes 24 and 32.
use native.Mathlib.Nat.{mul-suc, suc-mul, mul_comm, mul_assoc, mul-le-mul_left, mul-le-mul_right}
use native.Mathlib.Nat.{mod-eq_of_lt}
use mathlib.Core.Path.{subst}
use native.Mathlib.Decide.{dec_lt}
use silicio.Font.Draw.{Vbe}
use silicio.Bitmap.{BmpHeader, row_loop, rows_loop, pixel_row, bmp_row, x_scr, y_scr, bmp2vbe}
use silicio.Bitmap.Rows.{row_loop-out, row_loop-in, rows_loop-keep, rows_loop-at}
use silicio.Base.{ℕ, suc, sym, ap, inl, inr, arith, ltb, ◌+◌, ◌-◌, ◌*◌, ◌^◌, ◌≤◌, ◌<◌, ◌≡◌, ◌≢◌}
use silicio.Base.{◌⊎◌, ◌∙◌, ◌&&◌, if◌then◌else◌}

-- The bytes of a row of the picture with its filler, and of a row of the screen.
abbrev pub bmp_pitch : BmpHeader → ℕ
bmp_pitch b = b.x * 3 + 2

-- Of a screen of `stride` bytes to a pixel, the address of the picture's first pixel is `corner`; no
-- row runs past the last address, and the picture in memory and its place on the screen lie apart.
pub record IsPlaced (b : BmpHeader) (v : Vbe) (stride corner : ℕ) : Type 0 where
  pub screen_in : corner + y_scr b v * (stride * v.x) ≤ 2 ^ 32
  pub image_in : b.init_img + b.y * bmp_pitch b ≤ 2 ^ 32
  pub apart :
      (b.init_img + b.y * bmp_pitch b ≤ corner) ⊎ (corner + y_scr b v * (stride * v.x) ≤ b.init_img)
  pub visible : 0 < v.x

-- The body of the loop over the rows.
abbrev centred_row : BmpHeader → Vbe → (stride center_h center_v : ℕ) → ℕ → (ℕ → ℕ) → ℕ → ℕ
centred_row b v stride center_h center_v y =
    row_loop (x_scr b v) stride (pixel_row stride center_h center_v v y) (bmp_row b y)

module _ (b : BmpHeader) (v : Vbe) where
  y_scr-le : y_scr b v ≤ b.y
  unfolding y_scr
  y_scr-le = ground arith

  x_scr-le : (x_scr b v ≤ v.x) × (x_scr b v ≤ b.x)
  unfolding x_scr
  x_scr-le = ground arith

  -- A row of the picture lies inside it.
  row_inside :
      (y : ℕ) → y < y_scr b v → (b.y - 1 - y) * bmp_pitch b + bmp_pitch b ≤ b.y * bmp_pitch b
  row_inside y h =
      let le : suc (b.y - 1 - y) ≤ b.y = omega (arith, y_scr-le) in
      omega (arith, mul-le-mul_right (bmp_pitch b) le, suc-mul (b.y - 1 - y) (bmp_pitch b))

  module _ (stride center_h center_v : ℕ) (wide : 3 ≤ stride)
      (placed : IsPlaced b v stride (v.addr + center_h + v.x * center_v)) where
    abbrev origin : ℕ
    origin = v.addr + center_h + v.x * center_v

    abbrev pitch : ℕ
    pitch = stride * v.x

    abbrev row : ℕ → (ℕ → ℕ) → ℕ → ℕ
    row = centred_row b v stride center_h center_v

    rows_below : (y z : ℕ) → y < z → y * pitch + pitch ≤ z * pitch
    rows_below y z h =
        let row_le : suc y * pitch ≤ z * pitch = mul-le-mul_right pitch h in
        omega (arith, row_le, suc-mul y pitch)

    pixel_row-eq :
        (y : ℕ) → y < y_scr b v → pixel_row stride center_h center_v v y ≡ origin + y * pitch
    unfolding pixel_row
    pixel_row-eq y h =
        let e : y * v.x * stride ≡ y * pitch =
          mul_assoc y v.x stride ∙ ap (λ n. y * n) (mul_comm v.x stride) in
        let some_pixel : 0 < pitch =
          let one : stride * 1 ≤ pitch = mul-le-mul_left stride placed.visible in
          omega (arith, wide) in
        rw e (
          mod-eq_of_lt (omega (arith, placed.screen_in, rows_below y (y_scr b v) h, some_pixel))
          ∙ omega arith)

    bmp_row-eq : (y : ℕ) → y < y_scr b v → bmp_row b y ≡ b.init_img + (b.y - 1 - y) * bmp_pitch b
    unfolding bmp_row
    bmp_row-eq y h = mod-eq_of_lt (omega (arith, placed.image_in, row_inside y h))

    columns_le : stride * x_scr b v ≤ pitch
    columns_le = mul-le-mul_left stride x_scr-le.0

    -- A byte in no row of the picture is left alone by the row.
    row-out :
        (z : ℕ) (m : ℕ → ℕ) (a : ℕ)
        → z < y_scr b v
        → (a < origin + z * pitch) ⊎ (origin + z * pitch + pitch ≤ a)
        → row z m a ≡ m a
    row-out z m a h far =
        row_loop-out stride wide (x_scr b v) (pixel_row stride center_h center_v v z) (bmp_row b z)
          m a
          (rw (pixel_row-eq z h)
            (elim far [ inl low ↦ inl low | inr high ↦ inr (omega (arith, columns_le)) ]))

    rows-out :
        (left : ℕ) (m : ℕ → ℕ) (a : ℕ)
        → left ≤ y_scr b v
        → (a < origin) ⊎ (origin + y_scr b v * pitch ≤ a)
        → rows_loop left 0 row m a ≡ m a
    rows-out left m a le far = rows_loop-keep row left 0 m a λ z m lo hi.
        row-out z m a (omega arith) (elim far [
          | inl low ↦ inl (omega arith)
          | inr high ↦ inr (omega (arith, rows_below z (y_scr b v) (omega arith)))
        ])

    module _ (m : ℕ → ℕ) (y x c : ℕ) (hy : y < y_scr b v) (hx : x < v.x) (hc : c < stride) where
      abbrev at : ℕ
      at = origin + y * pitch + stride * x + c

      abbrev source : ℕ
      source = b.init_img + (b.y - 1 - y) * bmp_pitch b + 3 * x + c

      in_row : stride * x + c < pitch
      in_row =
          let le : stride * suc x ≤ pitch = mul-le-mul_left stride hx in
          omega (arith, mul-suc stride x)

      others_keep : (z : ℕ) (m : ℕ → ℕ) → 0 ≤ z → z < 0 + y_scr b v → z ≢ y → row z m at ≡ m at
      others_keep z m lo hi ne = row-out z m at (omega arith) (elim (dec_lt z y) [
        | yes less ↦ inr (omega (arith, rows_below z y less))
        | no more ↦ inl (omega (arith, in_row, rows_below y z (omega arith)))
      ])

      row-at :
          (m' : ℕ → ℕ)
          → m' at ≡ m at
          → (x < x_scr b v → c < 3 → m' source ≡ m source)
          → row y m' at ≡ (if ltb x (x_scr b v) && ltb c 3 then m source else m at)
      row-at m' here there = elim (dec_lt x (x_scr b v)) [
        | yes inside ↦
            let start = pixel_row stride center_h center_v v y in
            let first = bmp_row b y in
            let apart : (first + 3 * x_scr b v ≤ start) ⊎ (start + stride * x_scr b v ≤ first) =
              rw (pixel_row-eq y hy, bmp_row-eq y hy)
                (elim (placed.apart) [
                  | inl low ↦ inl (omega (arith, row_inside y hy, x_scr-le))
                  | inr high ↦ inr (omega (arith, columns_le, rows_below y (y_scr b v) hy))
                ]) in
            let from_at : start + stride * x + c ≡ at =
              ap (λ t. t + stride * x + c) (pixel_row-eq y hy) in
            let from_source : first + 3 * x + c ≡ source =
              ap (λ t. t + 3 * x + c) (bmp_row-eq y hy) in
            ap (row y m') (sym from_at)
            ∙ row_loop-in stride wide (x_scr b v) start first m' apart x c inside hc
            ∙ ground (arith, ap m' from_at, ap m' from_source, here, there)
        | no outside ↦
            let le : stride * x_scr b v ≤ stride * x = mul-le-mul_left stride (omega arith) in
            row_loop-out stride wide (x_scr b v) (pixel_row stride center_h center_v v y)
              (bmp_row b y) m' at (inr (rw (pixel_row-eq y hy) (omega arith)))
            ∙ here
            ∙ ground arith
      ]

      centred-at :
          rows_loop (y_scr b v) 0 row m at
          ≡ (if ltb x (x_scr b v) && ltb c 3 then m source else m at)
      centred-at =
          let (before, e, eq) =
            rows_loop-at row (y_scr b v) 0 y m at (omega arith) (omega arith) others_keep in
          eq
          ∙ row-at (rows_loop before 0 row m)
              (rows_loop-keep row before 0 m at
                λ z m lo hi. others_keep z m lo (omega arith) (λ same. omega arith))
              λ inside few. rows-out before m source (omega arith) (elim (placed.apart) [
                | inl low ↦ inl (omega (arith, row_inside y hy, x_scr-le))
                | inr high ↦ inr (omega arith)
              ])

-- The two modes with a centred picture: the bytes of a pixel and the address of the first one.
abbrev pub HasMode : Vbe → ℕ → ℕ → Type 0
HasMode v stride corner =
    ((v.color ≡ 24) × (stride ≡ 3) × (corner ≡ v.addr + 90 + v.x * 90))
    ⊎ ((v.color ≡ 32) × (stride ≡ 4) × (corner ≡ v.addr + 40 + v.x * 80))

bmp2vbe-24 :
    (b : BmpHeader) (v : Vbe) (m : ℕ → ℕ)
    → v.color ≡ 24
    → bmp2vbe b v m ≡ rows_loop (y_scr b v) 0 (centred_row b v 3 90 90) m
unfolding bmp2vbe
bmp2vbe-24 b v m e = ground arith

bmp2vbe-32 :
    (b : BmpHeader) (v : Vbe) (m : ℕ → ℕ)
    → v.color ≡ 32
    → bmp2vbe b v m ≡ rows_loop (y_scr b v) 0 (centred_row b v 4 40 80) m
unfolding bmp2vbe
bmp2vbe-32 b v m e = ground arith

-- In the modes 24 and 32, with 3 and 4 bytes to a pixel, where the picture in memory and its
-- place on the screen lie apart and neither runs past the last address: for every row of the
-- screen that has a row of the picture and every byte of that row, `bmp2vbe` writes the colour
-- byte of the picture, its last row first, where the column is one of the picture and the byte
-- one of the three, and leaves the byte as it was elsewhere; the first pixel goes to the address
-- `corner` that the offsets of the centre give, and no byte before it or behind the last row is
-- written.
pub bmp2vbe-pixel :
    (b : BmpHeader) (v : Vbe) (stride corner : ℕ) (m : ℕ → ℕ)
    → HasMode v stride corner
    → IsPlaced b v stride corner
    → ((y x c : ℕ)
        → y < y_scr b v
        → x < v.x
        → c < stride
        → bmp2vbe b v m (corner + y * (stride * v.x) + stride * x + c) ≡ (
            if ltb x (x_scr b v) && ltb c 3
            then m (b.init_img + (b.y - 1 - y) * bmp_pitch b + 3 * x + c)
            else m (corner + y * (stride * v.x) + stride * x + c)))
      × ((a : ℕ) → (a < corner) ⊎ (corner + y_scr b v * (stride * v.x) ≤ a) → bmp2vbe b v m a ≡ m a)
bmp2vbe-pixel b v stride corner m (inl (mode, e3, ec)) placed =
    let placed' : IsPlaced b v 3 (v.addr + 90 + v.x * 90) =
      subst (λ s. IsPlaced b v s (v.addr + 90 + v.x * 90)) e3
        (subst (λ t. IsPlaced b v stride t) ec placed) in
    rw (e3, ec, bmp2vbe-24 b v m mode)
      (
        λ y x c hy hx hc. centred-at b v 3 90 90 (omega arith) placed' m y x c hy hx hc,
        λ a far. rows-out b v 3 90 90 (omega arith) placed' (y_scr b v) m a (omega arith) far,
      )
bmp2vbe-pixel b v stride corner m (inr (mode, e4, ec)) placed =
    let placed' : IsPlaced b v 4 (v.addr + 40 + v.x * 80) =
      subst (λ s. IsPlaced b v s (v.addr + 40 + v.x * 80)) e4
        (subst (λ t. IsPlaced b v stride t) ec placed) in
    rw (e4, ec, bmp2vbe-32 b v m mode)
      (
        λ y x c hy hx hc. centred-at b v 4 40 80 (omega arith) placed' m y x c hy hx hc,
        λ a far. rows-out b v 4 40 80 (omega arith) placed' (y_scr b v) m a (omega arith) far,
      )
