-- ===== src/Console/Screen/Scroll.antt =====
-- How `putc` of stdio/stdio.c moves the screen up.
use silicio.Font.{Font}
use silicio.Font.Draw.{Vbe}
use silicio.Console.Memory.{memcpy, memcpy_lem, memset_lem}
use silicio.Console.Screen.{Screen, black, rows, scroll_text, scroll_pixels, new_line, putc}
use silicio.Base.{ℕ, refl, true, false, arith, ltb, leb, ◌+◌, ◌-◌, ◌*◌, ◌/◌, ◌≤◌, ◌≡◌, ◌⊎◌, ◌∙◌}
use silicio.Base.{◌==◌, if◌then◌else◌}

-- On a screen of 24 or 32 bits that is at least as high as a character, with the cursor in the
-- last line, `putc` of an end of line moves every line of pixels up by the height of a character
-- and makes the last ones black; no pixel behind the screen changes, and the cursor goes to the
-- start of the last line.
pub putc-scroll :
    (font : Font) (vbe_header : Vbe) (s : Screen) (p : ℕ)
    → (vbe_header.color ≡ 24) ⊎ (vbe_header.color ≡ 32)
    → font.y ≤ vbe_header.y
    → rows font vbe_header ≡ s.ypos + 1
    → let s' = putc font vbe_header 0x0a s in
      let line = font.y * vbe_header.x in
      let kept = (vbe_header.y - font.y) * vbe_header.x in
      (s'.pixels p ≡ (
        if ltb p kept
        then s.pixels (p + line)
        else if ltb p (kept + line)
        then black
        else s.pixels p))
      × (s'.xpos ≡ 0)
      × (s'.ypos ≡ s.ypos)
unfolding putc new_line scroll_pixels
putc-scroll font vbe_header s p deep fits last =
    let mode : (vbe_header.color == 0) ≡ false = ground arith in
    let line = font.y * vbe_header.x in
    let kept = (vbe_header.y - font.y) * vbe_header.x in
    let lines : vbe_header.y / font.y ≡ s.ypos + 1 = ground arith in
    let r : leb (vbe_header.y / font.y) (s.ypos + 1) ≡ true = rw lines (ground arith) in
    let copied = memcpy_lem kept line 0 s.pixels p (omega arith) in
    let cleared = memset_lem line kept black (memcpy kept line 0 s.pixels) p in
    rw (mode, r) (cleared ∙ ground (arith, copied), refl, refl)

-- In the text mode, with the cursor in the last line, `putc` of an end of line takes each of the
-- `x * 2 * (y - 1) * 2` bytes from the start of the screen from one line further on: twice as
-- many as the lines that move, so that what follows the screen comes into its last line, and
-- bytes behind the screen are overwritten.
pub putc-scroll-text :
    (font : Font) (vbe_header : Vbe) (s : Screen) (j : ℕ)
    → (vbe_header.color == 0) ≡ true
    → vbe_header.y ≡ s.ypos + 1
    → let s' = putc font vbe_header 0x0a s in
      s'.bytes (vbe_header.addr + j) ≡ (
        if ltb j (vbe_header.x * 2 * (vbe_header.y - 1) * 2)
        then s.bytes (vbe_header.addr + j + vbe_header.x * 2)
        else s.bytes (vbe_header.addr + j))
unfolding putc new_line scroll_text
putc-scroll-text font vbe_header s j mode last =
    let b = vbe_header.x * 2 in
    let count = b * (vbe_header.y - 1) * 2 in
    let r : leb vbe_header.y (s.ypos + 1) ≡ true = ground arith in
    let copied =
      memcpy_lem count (vbe_header.addr + b) vbe_header.addr s.bytes (vbe_header.addr + j)
        (omega arith) in
    rw (mode, r) (copied ∙ ground arith)
