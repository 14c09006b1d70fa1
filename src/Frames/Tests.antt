-- ===== src/Frames/Tests.antt =====
-- Tests and instances for the picture.
use sharedgl.Prelude.{ℕ, ◌+◌, ◌≡◌, refl, [], ◌∷◌, arith}
use sharedgl.Frames.{
  Pixels, flip_row, flip_rows, sgl_read_pixels, darken, glyph_row, draw_row, draw_rows,
  overlay_draw_char, overlay_draw_text,
}
use sharedgl.Frames.Flip.{UpsideDown, sgl_read_pixels-UpsideDown}

-- Three rows of two pixels.
abbrev picture : Pixels
picture k = 10 + k

flipped : sgl_read_pixels 2 3 1 (λ p. p) picture 0 ≡ 14
unfolding sgl_read_pixels flip_rows flip_row
flipped = refl

sgl_read_pixels-UpsideDown_example :
    (out : Pixels) × (sgl_read_pixels 2 3 1 (λ p. p) picture ≡ out) × UpsideDown 2 3 picture out
sgl_read_pixels-UpsideDown_example =
    sgl_read_pixels-UpsideDown 2 3 1 (λ p. p) picture (omega arith) (omega arith)

-- A font with one bit in each row.
abbrev font : ℕ → ℕ
font _ = 4

abbrev before : ℕ → ℕ
before _ = 0

drawn : overlay_draw_text font before 16 (65 ∷ 66 ∷ []) 0 0 7 picture 13 ≡ 7
unfolding overlay_draw_text overlay_draw_char glyph_row draw_rows draw_row
drawn = refl

darkened : overlay_draw_text font before 16 (65 ∷ 66 ∷ []) 0 0 7 picture 12 ≡ 10
unfolding overlay_draw_text overlay_draw_char glyph_row draw_rows draw_row darken
darkened = refl
