-- ===== src/Font/Upper.antt =====
-- The bitmaps that `open_mod_font` of main/main.c stores, in the order of its stores: the other capitals and the first digits.
use silicio.Font.{Glyph}
use silicio.Base.{List, [], ◌∷◌}

abbrev pub upper_g : List Glyph
upper_g =
    (record {
      code = 0x47;
      rows =
          0 ∷ 0 ∷ 0x1e ∷ 0x21 ∷ 0x1 ∷ 0x1 ∷ 0x1 ∷ 0x39 ∷ 0x21 ∷ 0x21 ∷ 0x21 ∷ 0x21 ∷ 0x3e ∷ 0 ∷ 0
          ∷ 0 ∷ [];
    })
    ∷ (record {
      code = 0x48;
      rows =
          0 ∷ 0 ∷ 0x21 ∷ 0x21 ∷ 0x21 ∷ 0x21 ∷ 0x21 ∷ 0x3f ∷ 0x21 ∷ 0x21 ∷ 0x21 ∷ 0x21 ∷ 0x21 ∷ 0 ∷ 0
          ∷ 0 ∷ [];
    })
    ∷ (record {
      code = 0x49;
      rows =
          0 ∷ 0 ∷ 0xe ∷ 0x4 ∷ 0x4 ∷ 0x4 ∷ 0x4 ∷ 0x4 ∷ 0x4 ∷ 0x4 ∷ 0x4 ∷ 0x4 ∷ 0xe ∷ 0 ∷ 0 ∷ 0 ∷ [];
    })
    ∷ (record {
      code = 0x4a;
      rows =
          0 ∷ 0 ∷ 0x3f ∷ 0x21 ∷ 0x20 ∷ 0x20 ∷ 0x20 ∷ 0x20 ∷ 0x20 ∷ 0x20 ∷ 0x20 ∷ 0x21 ∷ 0x1e ∷ 0 ∷ 0
          ∷ 0 ∷ [];
    })
    ∷ (record {
      code = 0x4b;
      rows =
          0 ∷ 0 ∷ 0x21 ∷ 0x11 ∷ 0x9 ∷ 0x5 ∷ 0x3 ∷ 0x1 ∷ 0x3 ∷ 0x5 ∷ 0x9 ∷ 0x11 ∷ 0x21 ∷ 0 ∷ 0 ∷ 0
          ∷ [];
    })
    ∷ (record {
      code = 0x4c;
      rows =
          0 ∷ 0 ∷ 0x1 ∷ 0x1 ∷ 0x1 ∷ 0x1 ∷ 0x1 ∷ 0x1 ∷ 0x1 ∷ 0x1 ∷ 0x1 ∷ 0x1 ∷ 0x3f ∷ 0 ∷ 0 ∷ 0 ∷ [];
    })
    ∷ (record {
      code = 0x4d;
      rows =
          0 ∷ 0 ∷ 0x21 ∷ 0x33 ∷ 0x2d ∷ 0x21 ∷ 0x21 ∷ 0x21 ∷ 0x21 ∷ 0x21 ∷ 0x21 ∷ 0x21 ∷ 0x21 ∷ 0 ∷ 0
          ∷ 0 ∷ [];
    })
    ∷ (record {
      code = 0x4e;
      rows =
          0 ∷ 0 ∷ 0x21 ∷ 0x23 ∷ 0x23 ∷ 0x25 ∷ 0x25 ∷ 0x29 ∷ 0x29 ∷ 0x31 ∷ 0x31 ∷ 0x21 ∷ 0x21 ∷ 0 ∷ 0
          ∷ 0 ∷ [];
    })
    ∷ []

abbrev pub upper_o : List Glyph
upper_o =
    (record {
      code = 0x4f;
      rows =
          0 ∷ 0 ∷ 0x1e ∷ 0x21 ∷ 0x21 ∷ 0x21 ∷ 0x21 ∷ 0x21 ∷ 0x21 ∷ 0x21 ∷ 0x21 ∷ 0x21 ∷ 0x1e ∷ 0 ∷ 0
          ∷ 0 ∷ [];
    })
    ∷ (record {
      code = 0x50;
      rows =
          0 ∷ 0 ∷ 0x1f ∷ 0x21 ∷ 0x21 ∷ 0x21 ∷ 0x21 ∷ 0x1f ∷ 0x1 ∷ 0x1 ∷ 0x1 ∷ 0x1 ∷ 0x1 ∷ 0 ∷ 0 ∷ 0
          ∷ [];
    })
    ∷ (record {
      code = 0x51;
      rows =
          0 ∷ 0 ∷ 0x1e ∷ 0x21 ∷ 0x21 ∷ 0x21 ∷ 0x21 ∷ 0x21 ∷ 0x21 ∷ 0x21 ∷ 0x29 ∷ 0x11 ∷ 0x2e ∷ 0 ∷ 0
          ∷ 0 ∷ [];
    })
    ∷ (record {
      code = 0x52;
      rows =
          0 ∷ 0 ∷ 0x1f ∷ 0x21 ∷ 0x21 ∷ 0x21 ∷ 0x21 ∷ 0x1f ∷ 0x3 ∷ 0x5 ∷ 0x9 ∷ 0x11 ∷ 0x21 ∷ 0 ∷ 0
          ∷ 0 ∷ [];
    })
    ∷ (record {
      code = 0x53;
      rows =
          0 ∷ 0 ∷ 0x1e ∷ 0x21 ∷ 0x1 ∷ 0x1 ∷ 0x1 ∷ 0x1e ∷ 0x20 ∷ 0x20 ∷ 0x20 ∷ 0x21 ∷ 0x1e ∷ 0 ∷ 0
          ∷ 0 ∷ [];
    })
    ∷ (record {
      code = 0x54;
      rows =
          0 ∷ 0 ∷ 0x3f ∷ 0x4 ∷ 0x4 ∷ 0x4 ∷ 0x4 ∷ 0x4 ∷ 0x4 ∷ 0x4 ∷ 0x4 ∷ 0x4 ∷ 0x4 ∷ 0 ∷ 0 ∷ 0 ∷ [];
    })
    ∷ (record {
      code = 0x55;
      rows =
          0 ∷ 0 ∷ 0x21 ∷ 0x21 ∷ 0x21 ∷ 0x21 ∷ 0x21 ∷ 0x21 ∷ 0x21 ∷ 0x21 ∷ 0x21 ∷ 0x21 ∷ 0x1e ∷ 0 ∷ 0
          ∷ 0 ∷ [];
    })
    ∷ (record {
      code = 0x56;
      rows =
          0 ∷ 0 ∷ 0x21 ∷ 0x21 ∷ 0x21 ∷ 0x21 ∷ 0x21 ∷ 0x21 ∷ 0x21 ∷ 0x21 ∷ 0x21 ∷ 0x12 ∷ 0xc ∷ 0 ∷ 0
          ∷ 0 ∷ [];
    })
    ∷ []

abbrev pub upper_v : List Glyph
upper_v =
    (record {
      code = 0x58;
      rows =
          0 ∷ 0 ∷ 0x21 ∷ 0x21 ∷ 0x12 ∷ 0x12 ∷ 0xa ∷ 0xc ∷ 0x14 ∷ 0x12 ∷ 0x12 ∷ 0x21 ∷ 0x21 ∷ 0 ∷ 0
          ∷ 0 ∷ [];
    })
    ∷ (record {
      code = 0x59;
      rows =
          0 ∷ 0 ∷ 0x21 ∷ 0x21 ∷ 0x21 ∷ 0x21 ∷ 0x21 ∷ 0x21 ∷ 0x31 ∷ 0x2e ∷ 0x20 ∷ 0x21 ∷ 0x1e ∷ 0 ∷ 0
          ∷ 0 ∷ [];
    })
    ∷ (record {
      code = 0x5a;
      rows =
          0 ∷ 0 ∷ 0x3f ∷ 0x20 ∷ 0x10 ∷ 0x10 ∷ 0x8 ∷ 0x8 ∷ 0x4 ∷ 0x4 ∷ 0x2 ∷ 0x1 ∷ 0x3f ∷ 0 ∷ 0 ∷ 0
          ∷ [];
    })
    ∷ (record {
      code = 0x57;
      rows =
          0 ∷ 0 ∷ 0x21 ∷ 0x21 ∷ 0x21 ∷ 0x21 ∷ 0x21 ∷ 0x21 ∷ 0x21 ∷ 0x21 ∷ 0x2d ∷ 0x33 ∷ 0x21 ∷ 0 ∷ 0
          ∷ 0 ∷ [];
    })
    ∷ (record {
      code = 0x31;
      rows =
          0 ∷ 0 ∷ 0x8 ∷ 0xc ∷ 0xa ∷ 0x9 ∷ 0x8 ∷ 0x8 ∷ 0x8 ∷ 0x8 ∷ 0x8 ∷ 0x8 ∷ 0x3f ∷ 0 ∷ 0 ∷ 0 ∷ [];
    })
    ∷ (record {
      code = 0x32;
      rows =
          0 ∷ 0 ∷ 0x1e ∷ 0x21 ∷ 0x20 ∷ 0x20 ∷ 0x10 ∷ 0x8 ∷ 0x4 ∷ 0x2 ∷ 0x1 ∷ 0x1 ∷ 0x3f ∷ 0 ∷ 0 ∷ 0
          ∷ [];
    })
    ∷ (record {
      code = 0x33;
      rows =
          0 ∷ 0 ∷ 0x1e ∷ 0x21 ∷ 0x20 ∷ 0x20 ∷ 0x10 ∷ 0xc ∷ 0x10 ∷ 0x20 ∷ 0x20 ∷ 0x21 ∷ 0x1e ∷ 0 ∷ 0
          ∷ 0 ∷ [];
    })
    ∷ (record {
      code = 0x34;
      rows =
          0 ∷ 0 ∷ 0x21 ∷ 0x21 ∷ 0x21 ∷ 0x21 ∷ 0x21 ∷ 0x21 ∷ 0x3f ∷ 0x20 ∷ 0x20 ∷ 0x20 ∷ 0x20 ∷ 0 ∷ 0
          ∷ 0 ∷ [];
    })
    ∷ []
