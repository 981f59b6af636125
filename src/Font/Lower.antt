-- ===== src/Font/Lower.antt =====
-- The bitmaps that `open_mod_font` of main/main.c stores, in the order of its stores: the small letters and the first capitals.
use silicio.Font.{Glyph}
use silicio.Base.{List, [], ◌∷◌}

abbrev pub from_a : List Glyph
from_a =
    (record {
      code = 0x61;
      rows =
          0 ∷ 0 ∷ 0 ∷ 0 ∷ 0 ∷ 0x1e ∷ 0x21 ∷ 0x20 ∷ 0x2e ∷ 0x31 ∷ 0x21 ∷ 0x31 ∷ 0x2e ∷ 0 ∷ 0 ∷ 0
          ∷ [];
    })
    ∷ (record {
      code = 0x62;
      rows =
          0 ∷ 0 ∷ 0 ∷ 0x1 ∷ 0x1 ∷ 0x1d ∷ 0x23 ∷ 0x21 ∷ 0x21 ∷ 0x21 ∷ 0x21 ∷ 0x23 ∷ 0x1d ∷ 0 ∷ 0 ∷ 0
          ∷ [];
    })
    ∷ (record {
      code = 0x63;
      rows = 0 ∷ 0 ∷ 0 ∷ 0 ∷ 0 ∷ 0x1e ∷ 0x21 ∷ 0x1 ∷ 0x1 ∷ 0x1 ∷ 0x1 ∷ 0x21 ∷ 0x1e ∷ 0 ∷ 0 ∷ 0 ∷ [];
    })
    ∷ (record {
      code = 0x64;
      rows =
          0 ∷ 0 ∷ 0 ∷ 0x20 ∷ 0x20 ∷ 0x2e ∷ 0x31 ∷ 0x21 ∷ 0x21 ∷ 0x21 ∷ 0x21 ∷ 0x31 ∷ 0x2e ∷ 0 ∷ 0
          ∷ 0 ∷ [];
    })
    ∷ (record {
      code = 0x65;
      rows =
          0 ∷ 0 ∷ 0 ∷ 0 ∷ 0 ∷ 0x1e ∷ 0x21 ∷ 0x21 ∷ 0x3f ∷ 0x1 ∷ 0x1 ∷ 0x21 ∷ 0x1e ∷ 0 ∷ 0 ∷ 0 ∷ [];
    })
    ∷ (record {
      code = 0x66;
      rows =
          0 ∷ 0 ∷ 0 ∷ 0x18 ∷ 0x24 ∷ 0x4 ∷ 0xe ∷ 0x4 ∷ 0x4 ∷ 0x4 ∷ 0x4 ∷ 0x4 ∷ 0x4 ∷ 0 ∷ 0 ∷ 0 ∷ [];
    })
    ∷ (record {
      code = 0x67;
      rows =
          0 ∷ 0 ∷ 0 ∷ 0 ∷ 0 ∷ 0x2e ∷ 0x31 ∷ 0x21 ∷ 0x21 ∷ 0x21 ∷ 0x21 ∷ 0x31 ∷ 0x2e ∷ 0x20 ∷ 0x21
          ∷ 0x1e ∷ [];
    })
    ∷ (record {
      code = 0x68;
      rows =
          0 ∷ 0 ∷ 0 ∷ 0x1 ∷ 0x1 ∷ 0x1d ∷ 0x23 ∷ 0x21 ∷ 0x21 ∷ 0x21 ∷ 0x21 ∷ 0x21 ∷ 0x21 ∷ 0 ∷ 0 ∷ 0
          ∷ [];
    })
    ∷ []

abbrev pub from_i : List Glyph
from_i =
    (record {
      code = 0x69;
      rows = 0 ∷ 0 ∷ 0 ∷ 0x8 ∷ 0 ∷ 0xc ∷ 0x8 ∷ 0x8 ∷ 0x8 ∷ 0x8 ∷ 0x8 ∷ 0x8 ∷ 0x1c ∷ 0 ∷ 0 ∷ 0 ∷ [];
    })
    ∷ (record {
      code = 0x6a;
      rows =
          0 ∷ 0 ∷ 0 ∷ 0x20 ∷ 0 ∷ 0x30 ∷ 0x20 ∷ 0x20 ∷ 0x20 ∷ 0x20 ∷ 0x20 ∷ 0x20 ∷ 0x20 ∷ 0x21 ∷ 0x21
          ∷ 0x1e ∷ [];
    })
    ∷ (record {
      code = 0x6b;
      rows =
          0 ∷ 0 ∷ 0 ∷ 0x1 ∷ 0x1 ∷ 0x9 ∷ 0x5 ∷ 0x3 ∷ 0x3 ∷ 0x5 ∷ 0x9 ∷ 0x11 ∷ 0x21 ∷ 0 ∷ 0 ∷ 0 ∷ [];
    })
    ∷ (record {
      code = 0x6c;
      rows =
          0 ∷ 0 ∷ 0 ∷ 0x2 ∷ 0x2 ∷ 0x2 ∷ 0x2 ∷ 0x2 ∷ 0x2 ∷ 0x2 ∷ 0x2 ∷ 0x2 ∷ 0x1c ∷ 0 ∷ 0 ∷ 0 ∷ [];
    })
    ∷ (record {
      code = 0x6d;
      rows =
          0 ∷ 0 ∷ 0 ∷ 0 ∷ 0 ∷ 0x1d ∷ 0x2a ∷ 0x2a ∷ 0x2a ∷ 0x2a ∷ 0x2a ∷ 0x2a ∷ 0x2a ∷ 0 ∷ 0 ∷ 0
          ∷ [];
    })
    ∷ (record {
      code = 0x6e;
      rows =
          0 ∷ 0 ∷ 0 ∷ 0 ∷ 0 ∷ 0x1d ∷ 0x22 ∷ 0x22 ∷ 0x22 ∷ 0x22 ∷ 0x22 ∷ 0x22 ∷ 0x22 ∷ 0 ∷ 0 ∷ 0
          ∷ [];
    })
    ∷ (record {
      code = 0x6f;
      rows =
          0 ∷ 0 ∷ 0 ∷ 0 ∷ 0 ∷ 0x1e ∷ 0x21 ∷ 0x21 ∷ 0x21 ∷ 0x21 ∷ 0x21 ∷ 0x21 ∷ 0x1e ∷ 0 ∷ 0 ∷ 0
          ∷ [];
    })
    ∷ (record {
      code = 0x70;
      rows =
          0 ∷ 0 ∷ 0 ∷ 0 ∷ 0 ∷ 0x1d ∷ 0x23 ∷ 0x21 ∷ 0x21 ∷ 0x21 ∷ 0x21 ∷ 0x23 ∷ 0x1d ∷ 0x1 ∷ 0x1
          ∷ 0x1 ∷ [];
    })
    ∷ []

abbrev pub from_q : List Glyph
from_q =
    (record {
      code = 0x71;
      rows =
          0 ∷ 0 ∷ 0 ∷ 0 ∷ 0 ∷ 0x2e ∷ 0x31 ∷ 0x21 ∷ 0x21 ∷ 0x21 ∷ 0x21 ∷ 0x31 ∷ 0x2e ∷ 0x20 ∷ 0x20
          ∷ 0x20 ∷ [];
    })
    ∷ (record {
      code = 0x72;
      rows = 0 ∷ 0 ∷ 0 ∷ 0 ∷ 0 ∷ 0x1d ∷ 0x23 ∷ 0x1 ∷ 0x1 ∷ 0x1 ∷ 0x1 ∷ 0x1 ∷ 0x1 ∷ 0 ∷ 0 ∷ 0 ∷ [];
    })
    ∷ (record {
      code = 0x73;
      rows =
          0 ∷ 0 ∷ 0 ∷ 0 ∷ 0 ∷ 0x1e ∷ 0x21 ∷ 0x1 ∷ 0x6 ∷ 0x18 ∷ 0x20 ∷ 0x21 ∷ 0x1e ∷ 0 ∷ 0 ∷ 0 ∷ [];
    })
    ∷ (record {
      code = 0x74;
      rows =
          0 ∷ 0 ∷ 0 ∷ 0x4 ∷ 0x4 ∷ 0x3f ∷ 0x4 ∷ 0x4 ∷ 0x4 ∷ 0x4 ∷ 0x4 ∷ 0x4 ∷ 0x18 ∷ 0 ∷ 0 ∷ 0 ∷ [];
    })
    ∷ (record {
      code = 0x75;
      rows =
          0 ∷ 0 ∷ 0 ∷ 0 ∷ 0 ∷ 0x21 ∷ 0x21 ∷ 0x21 ∷ 0x21 ∷ 0x21 ∷ 0x21 ∷ 0x21 ∷ 0x1e ∷ 0 ∷ 0 ∷ 0
          ∷ [];
    })
    ∷ (record {
      code = 0x76;
      rows =
          0 ∷ 0 ∷ 0 ∷ 0 ∷ 0 ∷ 0x21 ∷ 0x21 ∷ 0x21 ∷ 0x21 ∷ 0x21 ∷ 0x21 ∷ 0x12 ∷ 0xc ∷ 0 ∷ 0 ∷ 0 ∷ [];
    })
    ∷ (record {
      code = 0x77;
      rows =
          0 ∷ 0 ∷ 0 ∷ 0 ∷ 0 ∷ 0x21 ∷ 0x21 ∷ 0x21 ∷ 0x21 ∷ 0x21 ∷ 0x2d ∷ 0x2d ∷ 0x12 ∷ 0 ∷ 0 ∷ 0
          ∷ [];
    })
    ∷ (record {
      code = 0x78;
      rows =
          0 ∷ 0 ∷ 0 ∷ 0 ∷ 0 ∷ 0x21 ∷ 0x21 ∷ 0x12 ∷ 0xc ∷ 0xc ∷ 0x12 ∷ 0x21 ∷ 0x21 ∷ 0 ∷ 0 ∷ 0 ∷ [];
    })
    ∷ []

abbrev pub from_y : List Glyph
from_y =
    (record {
      code = 0x79;
      rows =
          0 ∷ 0 ∷ 0 ∷ 0 ∷ 0 ∷ 0x21 ∷ 0x21 ∷ 0x21 ∷ 0x21 ∷ 0x21 ∷ 0x21 ∷ 0x31 ∷ 0x2e ∷ 0x20 ∷ 0x21
          ∷ 0x1e ∷ [];
    })
    ∷ (record {
      code = 0x7a;
      rows = 0 ∷ 0 ∷ 0 ∷ 0 ∷ 0 ∷ 0x3f ∷ 0x20 ∷ 0x10 ∷ 0x8 ∷ 0x4 ∷ 0x2 ∷ 0x1 ∷ 0x3f ∷ 0 ∷ 0 ∷ 0 ∷ [];
    })
    ∷ (record {
      code = 0x41;
      rows =
          0 ∷ 0 ∷ 0xc ∷ 0x12 ∷ 0x21 ∷ 0x21 ∷ 0x21 ∷ 0x3f ∷ 0x21 ∷ 0x21 ∷ 0x21 ∷ 0x21 ∷ 0x21 ∷ 0 ∷ 0
          ∷ 0 ∷ [];
    })
    ∷ (record {
      code = 0x42;
      rows =
          0 ∷ 0 ∷ 0x1f ∷ 0x21 ∷ 0x21 ∷ 0x21 ∷ 0x21 ∷ 0x1f ∷ 0x21 ∷ 0x21 ∷ 0x21 ∷ 0x21 ∷ 0x1f ∷ 0 ∷ 0
          ∷ 0 ∷ [];
    })
    ∷ (record {
      code = 0x43;
      rows =
          0 ∷ 0 ∷ 0x1e ∷ 0x21 ∷ 0x1 ∷ 0x1 ∷ 0x1 ∷ 0x1 ∷ 0x1 ∷ 0x1 ∷ 0x1 ∷ 0x21 ∷ 0x1e ∷ 0 ∷ 0 ∷ 0
          ∷ [];
    })
    ∷ (record {
      code = 0x44;
      rows =
          0 ∷ 0 ∷ 0x1f ∷ 0x21 ∷ 0x21 ∷ 0x21 ∷ 0x21 ∷ 0x21 ∷ 0x21 ∷ 0x21 ∷ 0x21 ∷ 0x21 ∷ 0x1f ∷ 0 ∷ 0
          ∷ 0 ∷ [];
    })
    ∷ (record {
      code = 0x45;
      rows =
          0 ∷ 0 ∷ 0x3f ∷ 0x1 ∷ 0x1 ∷ 0x1 ∷ 0x1 ∷ 0xf ∷ 0x1 ∷ 0x1 ∷ 0x1 ∷ 0x1 ∷ 0x3f ∷ 0 ∷ 0 ∷ 0
          ∷ [];
    })
    ∷ (record {
      code = 0x46;
      rows =
          0 ∷ 0 ∷ 0x3f ∷ 0x1 ∷ 0x1 ∷ 0x1 ∷ 0x1 ∷ 0xf ∷ 0x1 ∷ 0x1 ∷ 0x1 ∷ 0x1 ∷ 0x1 ∷ 0 ∷ 0 ∷ 0 ∷ [];
    })
    ∷ []
