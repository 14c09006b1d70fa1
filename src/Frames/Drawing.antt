-- ===== src/Frames/Drawing.antt =====
-- What `overlay_draw_text` of src/server/overlay.c draws.
use sharedgl.Prelude.{
  ℕ, ◌+◌, ◌-◌, ◌*◌, ◌/◌, ◌%◌, ◌^◌, Bool, List, length, get_or, leb, ltb, ◌&&◌, ◌==◌, if◌then◌else◌,
}
use sharedgl.Frames.{Pixels, char_width, darken, paint, glyph_row}

-- A pixel of a character: the colour where the glyph's bit is set, and darker where it is not.
abbrev pub shade : ℕ → ℕ → ℕ → ℕ → ℕ
shade row bit fg w = if row / 2 ^ bit % 2 == 0 then darken w else fg

-- The lowest `n` columns are left to draw.
unfoldable row_pixel : ℕ → ℕ → ℕ → ℕ → Pixels → ℕ → ℕ
row_pixel row at fg n p k =
    if leb at k && ltb k (at + n) then shade row (7 - (k - at)) fg (p k) else p k

abbrev one_pixel : ℕ → ℕ → ℕ → ℕ → Pixels → Pixels
one_pixel row at fg cx p =
    let i = at + (char_width - 1 - cx) in
    let dark = paint p i (darken (p i)) in if row / 2 ^ cx % 2 == 0 then dark else paint dark i fg

-- A picture of which the pixel in row `r` and column `c` is asked for.
module _ (width : ℕ) where
  -- The lowest `n` rows are left to draw, from row `y` on.
  unfoldable char_pixel : (ℕ → ℕ) → ℕ → ℕ → ℕ → ℕ → ℕ → Pixels → ℕ → ℕ → ℕ
  char_pixel glyph x y fg n cy p r c =
      if leb (y + cy) r && (ltb r (y + cy + n) && (leb x c && ltb c (x + 8)))
      then shade (glyph (r - y)) (7 - (c - x)) fg (p (r * width + c))
      else p (r * width + c)

  -- Inside the text's rectangle.
  abbrev pub is_inside : ℕ → ℕ → ℕ → ℕ → ℕ → Bool
  is_inside x y n r c = leb y r && (ltb r (y + 16) && (leb x c && ltb c (x + 8 * n)))

  module _ (font before : ℕ → ℕ) where
    -- The pixel of the text in row `r` and column `c`, where there was `w`.
    unfoldable pub text_pixel : List ℕ → ℕ → ℕ → ℕ → ℕ → ℕ → ℕ → ℕ
    text_pixel text x y fg r c w =
        if is_inside x y (length text) r c
        then shade (glyph_row font before (get_or text ((c - x) / 8) 0) (r - y)) (7 - (c - x) % 8)
            fg w
        else w

    abbrev letter : List ℕ → ℕ → ℕ → ℕ → ℕ → ℕ → ℕ → ℕ
    letter text x y fg r c w =
        shade (glyph_row font before (get_or text ((c - x) / 8) 0) (r - y)) (7 - (c - x) % 8) fg w
