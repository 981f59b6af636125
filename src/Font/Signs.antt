-- ===== src/Font/Signs.antt =====
-- The bitmaps that `open_mod_font` of main/main.c stores, in the order of its stores: the other digits and the signs.
use silicio.Font.{Glyph}
use silicio.Base.{List, [], ◌∷◌}

abbrev pub from_4 : List Glyph
from_4 =
    (record {
      code = 0x35;
      rows =
          0 ∷ 0 ∷ 0x1f ∷ 0x1 ∷ 0x1 ∷ 0x1d ∷ 0x23 ∷ 0x20 ∷ 0x20 ∷ 0x20 ∷ 0x20 ∷ 0x21 ∷ 0x1e ∷ 0 ∷ 0
          ∷ 0 ∷ [];
    })
    ∷ (record {
      code = 0x36;
      rows =
          0 ∷ 0 ∷ 0x1e ∷ 0x21 ∷ 0x1 ∷ 0x1d ∷ 0x23 ∷ 0x21 ∷ 0x21 ∷ 0x21 ∷ 0x21 ∷ 0x21 ∷ 0x1e ∷ 0 ∷ 0
          ∷ 0 ∷ [];
    })
    ∷ (record {
      code = 0x37;
      rows =
          0 ∷ 0 ∷ 0x3f ∷ 0x21 ∷ 0x10 ∷ 0x10 ∷ 0x8 ∷ 0x8 ∷ 0x8 ∷ 0x4 ∷ 0x4 ∷ 0x4 ∷ 0x4 ∷ 0 ∷ 0 ∷ 0
          ∷ [];
    })
    ∷ (record {
      code = 0x38;
      rows =
          0 ∷ 0 ∷ 0x1e ∷ 0x21 ∷ 0x21 ∷ 0x21 ∷ 0x12 ∷ 0xc ∷ 0x12 ∷ 0x21 ∷ 0x21 ∷ 0x21 ∷ 0x1e ∷ 0 ∷ 0
          ∷ 0 ∷ [];
    })
    ∷ (record {
      code = 0x39;
      rows =
          0 ∷ 0 ∷ 0x1e ∷ 0x21 ∷ 0x21 ∷ 0x21 ∷ 0x21 ∷ 0x31 ∷ 0x2e ∷ 0x20 ∷ 0x20 ∷ 0x21 ∷ 0x1e ∷ 0 ∷ 0
          ∷ 0 ∷ [];
    })
    ∷ (record {
      code = 0x30;
      rows =
          0 ∷ 0 ∷ 0x1e ∷ 0x21 ∷ 0x21 ∷ 0x21 ∷ 0x31 ∷ 0x29 ∷ 0x25 ∷ 0x23 ∷ 0x21 ∷ 0x21 ∷ 0x1e ∷ 0 ∷ 0
          ∷ 0 ∷ [];
    })
    ∷ (record {
      code = 0x20;
      rows = 0 ∷ 0 ∷ 0 ∷ 0 ∷ 0 ∷ 0 ∷ 0 ∷ 0 ∷ 0 ∷ 0 ∷ 0 ∷ 0 ∷ 0 ∷ 0 ∷ 0 ∷ 0 ∷ [];
    })
    ∷ (record {
      code = 0x5b;
      rows =
          0 ∷ 0 ∷ 0x1e ∷ 0x2 ∷ 0x2 ∷ 0x2 ∷ 0x2 ∷ 0x2 ∷ 0x2 ∷ 0x2 ∷ 0x2 ∷ 0x2 ∷ 0x2 ∷ 0x2 ∷ 0x2
          ∷ 0x1e ∷ [];
    })
    ∷ []

abbrev pub from_bracket : List Glyph
from_bracket =
    (record {
      code = 0x5d;
      rows =
          0 ∷ 0 ∷ 0x1e ∷ 0x10 ∷ 0x10 ∷ 0x10 ∷ 0x10 ∷ 0x10 ∷ 0x10 ∷ 0x10 ∷ 0x10 ∷ 0x10 ∷ 0x10 ∷ 0x10
          ∷ 0x10 ∷ 0x1e ∷ [];
    })
    ∷ (record {
      code = 0x2d;
      rows = 0 ∷ 0 ∷ 0 ∷ 0 ∷ 0 ∷ 0 ∷ 0 ∷ 0x1e ∷ 0 ∷ 0 ∷ 0 ∷ 0 ∷ 0 ∷ 0 ∷ 0 ∷ 0 ∷ [];
    })
    ∷ (record {
      code = 0x3a;
      rows = 0 ∷ 0 ∷ 0 ∷ 0 ∷ 0 ∷ 0x8 ∷ 0 ∷ 0 ∷ 0 ∷ 0 ∷ 0 ∷ 0 ∷ 0x8 ∷ 0 ∷ 0 ∷ 0 ∷ [];
    })
    ∷ (record {
      code = 0x3d;
      rows = 0 ∷ 0 ∷ 0 ∷ 0 ∷ 0 ∷ 0 ∷ 0 ∷ 0x3f ∷ 0 ∷ 0 ∷ 0x3f ∷ 0 ∷ 0 ∷ 0 ∷ 0 ∷ 0 ∷ [];
    })
    ∷ (record {
      code = 0x22;
      rows = 0 ∷ 0 ∷ 0x12 ∷ 0x12 ∷ 0x12 ∷ 0 ∷ 0 ∷ 0 ∷ 0 ∷ 0 ∷ 0 ∷ 0 ∷ 0 ∷ 0 ∷ 0 ∷ 0 ∷ [];
    })
    ∷ (record {
      code = 0x2e;
      rows = 0 ∷ 0 ∷ 0 ∷ 0 ∷ 0 ∷ 0 ∷ 0 ∷ 0 ∷ 0 ∷ 0 ∷ 0 ∷ 0 ∷ 0x8 ∷ 0 ∷ 0 ∷ 0 ∷ [];
    })
    ∷ (record {
      code = 0x2f;
      rows =
          0 ∷ 0 ∷ 0x20 ∷ 0x20 ∷ 0x10 ∷ 0x10 ∷ 0x8 ∷ 0x8 ∷ 0x4 ∷ 0x4 ∷ 0x2 ∷ 0x2 ∷ 0x1 ∷ 0x1 ∷ 0 ∷ 0
          ∷ [];
    })
    ∷ (record {
      code = 0x5c;
      rows =
          0 ∷ 0 ∷ 0x1 ∷ 0x1 ∷ 0x2 ∷ 0x2 ∷ 0x4 ∷ 0x4 ∷ 0x8 ∷ 0x8 ∷ 0x10 ∷ 0x10 ∷ 0x20 ∷ 0x20 ∷ 0 ∷ 0
          ∷ [];
    })
    ∷ []

abbrev pub from_backslash : List Glyph
from_backslash =
    (record {
      code = 0x28;
      rows =
          0 ∷ 0 ∷ 0x18 ∷ 0x4 ∷ 0x2 ∷ 0x2 ∷ 0x2 ∷ 0x2 ∷ 0x2 ∷ 0x2 ∷ 0x2 ∷ 0x2 ∷ 0x2 ∷ 0x2 ∷ 0x4
          ∷ 0x18 ∷ [];
    })
    ∷ (record {
      code = 0x29;
      rows =
          0 ∷ 0 ∷ 0x6 ∷ 0x8 ∷ 0x10 ∷ 0x10 ∷ 0x10 ∷ 0x10 ∷ 0x10 ∷ 0x10 ∷ 0x10 ∷ 0x10 ∷ 0x10 ∷ 0x10
          ∷ 0x8 ∷ 0x6 ∷ [];
    })
    ∷ (record {
      code = 0x3f;
      rows =
          0x1e ∷ 0x21 ∷ 0x21 ∷ 0x20 ∷ 0x10 ∷ 0x10 ∷ 0x8 ∷ 0x8 ∷ 0x4 ∷ 0x4 ∷ 0 ∷ 0x4 ∷ 0 ∷ 0 ∷ 0 ∷ 0
          ∷ [];
    })
    ∷ (record {
      code = 0x7b;
      rows =
          0 ∷ 0 ∷ 0x18 ∷ 0x4 ∷ 0x4 ∷ 0x4 ∷ 0x8 ∷ 0x8 ∷ 0x6 ∷ 0x6 ∷ 0x8 ∷ 0x8 ∷ 0x4 ∷ 0x4 ∷ 0x4
          ∷ 0x18 ∷ [];
    })
    ∷ (record {
      code = 0x7d;
      rows =
          0 ∷ 0 ∷ 0x6 ∷ 0x8 ∷ 0x8 ∷ 0x8 ∷ 0x4 ∷ 0x4 ∷ 0x18 ∷ 0x18 ∷ 0x4 ∷ 0x4 ∷ 0x8 ∷ 0x8 ∷ 0x8
          ∷ 0x6 ∷ [];
    })
    ∷ (record {
      code = 0x5f;
      rows = 0 ∷ 0 ∷ 0 ∷ 0 ∷ 0 ∷ 0 ∷ 0 ∷ 0 ∷ 0 ∷ 0 ∷ 0 ∷ 0 ∷ 0x3f ∷ 0 ∷ 0 ∷ 0 ∷ [];
    })
    ∷ []
