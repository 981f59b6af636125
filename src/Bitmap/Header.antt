-- ===== src/Bitmap/Header.antt =====
-- `open_mod_bmp` of file/file.c: the module that holds the picture, and its header.
use silicio.Strings.{Chars, literal}
use silicio.Multiboot.{ModulesInfo, Loader, named}
use native.Mathlib.Decide.{ℕ_discrete}
use silicio.Bitmap.{BmpHeader}
use silicio.Base.{ℕ, zero, suc, refl, inl, inr, Bool, true, false, Option, none, some, [], arith}
use silicio.Base.{Bool-cases, u32, sub32, le16, le32, ◌+◌, ◌*◌, ◌≤◌, ◌<◌, ◌≡◌, ◌⊎◌, ◌∷◌}
use silicio.Base.{if◌then◌else◌}

-- "/boot/background.bmp"
abbrev pub background_name : Chars
background_name = literal (
    b'/' ∷ b'b' ∷ b'o' ∷ b'o' ∷ b't' ∷ b'/' ∷ b'b' ∷ b'a' ∷ b'c' ∷ b'k' ∷ b'g' ∷ b'r' ∷ b'o' ∷ b'u'
    ∷ b'n' ∷ b'd' ∷ b'.' ∷ b'b' ∷ b'm' ∷ b'p' ∷ [])

-- The loop over the modules from `mod_count` on: `background` is the last one for which the
-- comparison holds.
unfoldable pub find_last : (left mod_count : ℕ) → (ℕ → Bool) → Option ℕ → Option ℕ
find_last zero mod_count holds background = background
find_last (suc left) mod_count holds background =
    find_last left (mod_count + 1) holds (if holds mod_count then some mod_count else background)

-- The fields as they are read from the file.
pub read_header : (ℕ → ℕ) → ModulesInfo → BmpHeader
read_header bytes background =
    let start = background.mod_start in
    let offset = le32 bytes (u32 (start + 10)) in
    let x = le32 bytes (u32 (start + 18)) in
    let y = le32 bytes (u32 (start + 22)) in
    record {
      char0 = bytes (u32 (start + 0));
      char1 = bytes (u32 (start + 1));
      offset = offset;
      size_file = le32 bytes (u32 (start + 2));
      x = x;
      y = y;
      xy = u32 (x * y);
      init_img = sub32 (u32 (start + offset)) 3;
      bit_per_pixel = le16 bytes (u32 (start + 28));
    }

-- `junk i` is the place of `ret` of `strcmp` at module `i`.
abbrev pub is_background : (junk : ℕ → ℕ) → Loader → (ℕ → ℕ) → ℕ → Bool
is_background junk loader bytes i = named (junk i) background_name bytes (loader.mods i)

-- Returns 1, and leaves the header alone, if there is no such module.
pub open_mod_bmp : (junk : ℕ → ℕ) → Loader → (ℕ → ℕ) → BmpHeader → ℕ × BmpHeader
open_mod_bmp junk loader bytes bmp_header =
    elim (find_last loader.multi.mods_count 0 (is_background junk loader bytes) none) [
      | none ↦ (1, bmp_header)
      | some i ↦ (0, read_header bytes (loader.mods i))
    ]

-- `i` is the last number below `n` for which the test holds.
pub record IsLast (holds : ℕ → Bool) (n i : ℕ) : Type 0 where
  pub below : i < n
  pub found : holds i ≡ true
  pub behind : (j : ℕ) → i < j → j < n → holds j ≡ false

pub find_last_lem :
    (left i : ℕ) (holds : ℕ → Bool) (background : Option ℕ)
    → ((find_last left i holds background ≡ background)
        × ((j : ℕ) → i ≤ j → j < i + left → holds j ≡ false))
      ⊎ ((r : ℕ) × (find_last left i holds background ≡ some r)
          × (i ≤ r)
          × IsLast holds (i + left) r)
unfolding find_last
find_last_lem zero i holds background = inl (refl, λ j a b. absurd (omega arith))
find_last_lem (suc left) i holds background = elim (Bool-cases (holds i)) [
  | inl here ↦ rw here (elim (find_last_lem left (i + 1) holds (some i)) [
    | inl p ↦
        let (e, idle) = p in
        inr (
          i,
          e,
          omega arith,
          record {
            below = omega arith;
            found = here;
            behind = λ j a b. idle j (omega arith) (omega arith);
          },
        )
    | inr p ↦ inr (later p)
  ])
  | inr off ↦ rw off (elim (find_last_lem left (i + 1) holds background) [
    | inl p ↦
        let (e, idle) = p in
        inl (
          e,
          λ j a b. elim (ℕ_discrete i j) [
            | yes same ↦ rw (← same) off
            | no ne ↦ idle j (omega arith) (omega arith)
          ],
        )
    | inr p ↦ inr (later p)
  ])
]
  where
    later :
        {o : Option ℕ}
        → (r : ℕ) × (o ≡ some r) × (i + 1 ≤ r) × IsLast holds (i + 1 + left) r
        → (r : ℕ) × (o ≡ some r) × (i ≤ r) × IsLast holds (i + suc left) r
    later (r, e, le, last) = (
      r,
      e,
      omega arith,
      record {
        below = omega (arith, last.below);
        found = last.found;
        behind = λ j a b. last.behind j a (omega arith);
      },
    )

-- For every list of modules, `open_mod_bmp` returns 1 and leaves the header alone where `strcmp`
-- finds the name of the picture at none of them, and else returns 0 with the header that is read
-- from the last module where it does.
pub open_mod_bmp_lem :
    (junk : ℕ → ℕ) (loader : Loader) (bytes : ℕ → ℕ) (bmp_header : BmpHeader)
    → ((open_mod_bmp junk loader bytes bmp_header ≡ (1, bmp_header))
        × ((j : ℕ) → j < loader.multi.mods_count → is_background junk loader bytes j ≡ false))
      ⊎ ((i : ℕ) × IsLast (is_background junk loader bytes) loader.multi.mods_count i
          × (open_mod_bmp junk loader bytes bmp_header ≡ (0, read_header bytes (loader.mods i))))
unfolding open_mod_bmp
open_mod_bmp_lem junk loader bytes bmp_header =
    elim (find_last_lem loader.multi.mods_count 0 (is_background junk loader bytes) none) [
      | inl p ↦
          let (e, idle) = p in inl (rw (e, open_mod_bmp), λ j h. idle j (omega arith) (omega arith))
      | inr p ↦
          let (r, e, le, last) = p in
          inr (
            r,
            record {
              below = omega (arith, last.below);
              found = last.found;
              behind = λ j a b. last.behind j a (omega arith);
            },
            rw (e, open_mod_bmp),
          )
    ]
