-- ===== src/Frames.antt =====
-- The picture that the server gives to a client: `sgl_read_pixels` of src/server/context.c and what
-- src/server/overlay.c draws on it. A picture is an array of pixels, 32-bit words.
pub mod Flip
pub mod Drawing
mod Tests
use sharedgl.Prelude.{
  ℕ, zero, suc, ◌+◌, ◌-◌, ◌*◌, ◌/◌, ◌%◌, ◌^◌, Bool, List, [], ◌∷◌, ◌==◌, ltb, if◌then◌else◌,
}

abbrev pub Pixels : Type 0
Pixels = ℕ → ℕ

-- The exchange of `*ptop` and `*pbottom`.
abbrev pub swap : Pixels → ℕ → ℕ → Pixels
swap p top bottom k = if k == bottom then p top else if k == top then p bottom else p k

-- The loop over `x`, with `n` columns left; `mw` and `y` are `int` and `height` is unsigned.
unfoldable pub flip_row : ℕ → ℕ → ℕ → ℕ → ℕ → Pixels → Pixels
flip_row mw height y zero x p = p
flip_row mw height y (suc n) x p =
    flip_row mw height y n (x + 1)
      (swap p (y * mw + x) (((height - y - 1) * mw % 2 ^ 32 + x) % 2 ^ 32))

-- The loop over `y`, with `n` rows left.
unfoldable pub flip_rows : ℕ → ℕ → ℕ → ℕ → Pixels → Pixels
flip_rows mw height zero y p = p
flip_rows mw height (suc n) y p = flip_rows mw height n (y + 1) (flip_row mw height y mw 0 p)

-- What `glReadPixels` has read is `read`; `overlay` is `overlay_stage2`.
unfoldable pub sgl_read_pixels : ℕ → ℕ → ℕ → (Pixels → Pixels) → Pixels → Pixels
sgl_read_pixels mw height vflip overlay read =
    if vflip == 0 then overlay read else overlay (flip_rows mw height (height / 2) 0 read)

abbrev pub char_width : ℕ
char_width = 8

abbrev pub char_height : ℕ
char_height = 16

abbrev pub darker : ℕ → ℕ
darker color = color * 120 / 255

-- `color[0]` to `color[3]` of one pixel
unfoldable pub darken : ℕ → ℕ
darken w =
    darker (w % 256)
    + 256 * darker (w / 256 % 256)
    + 65536 * darker (w / 65536 % 256)
    + 16777216 * darker (w / 16777216 % 256)

abbrev pub paint : Pixels → ℕ → ℕ → Pixels
paint p i w k = if k == i then w else p k

-- The loop over `cx`, with `n` columns left; `row` is the glyph's byte, and bit `cx` of it is
-- `row & mask[cx]`. `at` is the index of the character's first pixel of this row.
unfoldable pub draw_row : ℕ → ℕ → ℕ → ℕ → ℕ → Pixels → Pixels
draw_row row at fg zero cx p = p
draw_row row at fg (suc n) cx p =
    let i = at + (char_width - 1 - cx) in
    let dark = paint p i (darken (p i)) in
    draw_row row at fg n (cx + 1) (if row / 2 ^ cx % 2 == 0 then dark else paint dark i fg)

-- The loop over `cy`, with `n` rows left. `glyph` is the character's part of the font.
unfoldable pub draw_rows : (ℕ → ℕ) → ℕ → ℕ → ℕ → ℕ → ℕ → ℕ → Pixels → Pixels
draw_rows glyph width x y fg zero cy p = p
draw_rows glyph width x y fg (suc n) cy p =
    draw_rows glyph width x y fg n (cy + 1)
      (draw_row (glyph cy) ((y + cy) * width + x) fg char_width 0 p)

-- `font` is the table of inc/server/overlay_font.h, and `before k` the byte `k` places in front of it.
module _ (font before : ℕ → ℕ) where
  -- `gylph[cy]`: a `char` is signed, so a byte from 128 on is negative.
  unfoldable pub glyph_row : ℕ → ℕ → ℕ
  glyph_row c cy =
      if ltb c 128 then font (c * char_height + cy) else before ((256 - c) * char_height - cy)

  unfoldable pub overlay_draw_char : ℕ → ℕ → ℕ → ℕ → ℕ → Pixels → Pixels
  overlay_draw_char width c x y fg p = draw_rows (glyph_row c) width x y fg char_height 0 p

  -- The text without its closing 0.
  unfoldable pub overlay_draw_text : ℕ → List ℕ → ℕ → ℕ → ℕ → Pixels → Pixels
  overlay_draw_text width [] x y fg p = p
  overlay_draw_text width (c ∷ text) x y fg p =
      overlay_draw_text width text (x + char_width) y fg (overlay_draw_char width c x y fg p)

  -- What `overlay_stage2` draws: the renderer, the memory in use and the frames per second.
  unfoldable pub overlay_lines : ℕ → List ℕ → List ℕ → List ℕ → Pixels → Pixels
  overlay_lines width renderer mem fps frame =
      overlay_draw_text width fps 0 (char_height * 2) 0xffffff (
        overlay_draw_text width mem 0 (char_height * 1) 0xffffff
          (overlay_draw_text width renderer 0 (char_height * 0) 0xffffff frame))
