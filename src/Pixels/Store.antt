-- ===== src/Pixels/Store.antt =====
-- What glPixelStore sets, and leaves.
use sharedgl.Prelude.{ℕ, ◌≡◌, refl, ◌==◌, if◌then◌else◌}
use sharedgl.Pixels.{Stores, positive_or, set_field, set_pixel_store}
use sharedgl.Pixels.Enum.{
  gl_pack_alignment, gl_pack_row_length, gl_pack_image_height, gl_pack_skip_rows,
  gl_pack_skip_pixels, gl_pack_skip_images, gl_unpack_alignment, gl_unpack_row_length,
  gl_unpack_image_height, gl_unpack_skip_rows, gl_unpack_skip_pixels, gl_unpack_skip_images,
}

-- The parameters that are stored
pub data Parameter : Type 0 where
  pack_alignment : Parameter
  pack_row_length : Parameter
  pack_image_height : Parameter
  pack_skip_rows : Parameter
  pack_skip_pixels : Parameter
  pack_skip_images : Parameter
  unpack_alignment : Parameter
  unpack_row_length : Parameter
  unpack_image_height : Parameter
  unpack_skip_rows : Parameter
  unpack_skip_pixels : Parameter
  unpack_skip_images : Parameter

abbrev pub code : Parameter → ℕ
code pack_alignment = gl_pack_alignment
code pack_row_length = gl_pack_row_length
code pack_image_height = gl_pack_image_height
code pack_skip_rows = gl_pack_skip_rows
code pack_skip_pixels = gl_pack_skip_pixels
code pack_skip_images = gl_pack_skip_images
code unpack_alignment = gl_unpack_alignment
code unpack_row_length = gl_unpack_row_length
code unpack_image_height = gl_unpack_image_height
code unpack_skip_rows = gl_unpack_skip_rows
code unpack_skip_pixels = gl_unpack_skip_pixels
code unpack_skip_images = gl_unpack_skip_images

abbrev pub stored : Parameter → Stores → ℕ
stored pack_alignment s = s.pack.alignment
stored pack_row_length s = s.pack.row_length
stored pack_image_height s = s.pack.image_height
stored pack_skip_rows s = s.pack.skip_rows
stored pack_skip_pixels s = s.pack.skip_pixels
stored pack_skip_images s = s.pack.skip_images
stored unpack_alignment s = s.unpack.alignment
stored unpack_row_length s = s.unpack.row_length
stored unpack_image_height s = s.unpack.image_height
stored unpack_skip_rows s = s.unpack.skip_rows
stored unpack_skip_pixels s = s.unpack.skip_pixels
stored unpack_skip_images s = s.unpack.skip_images

-- An alignment that is not positive is taken for 1.
abbrev pub adjusted : Parameter → ℕ → ℕ
adjusted pack_alignment param = positive_or param 1
adjusted unpack_alignment param = positive_or param 1
adjusted _ param = param

-- Setting a parameter changes what is stored for it, an alignment that is not positive to 1, and for
-- no other.
pub set_pixel_store-stored :
    (p q : Parameter) (param : ℕ) (s : Stores)
    → stored q (set_pixel_store (code p) param s)
      ≡ (if code q == code p then adjusted p param else stored q s)
unfolding set_pixel_store set_field
set_pixel_store-stored pack_alignment pack_alignment param s = refl
set_pixel_store-stored pack_row_length pack_alignment param s = refl
set_pixel_store-stored pack_image_height pack_alignment param s = refl
set_pixel_store-stored pack_skip_rows pack_alignment param s = refl
set_pixel_store-stored pack_skip_pixels pack_alignment param s = refl
set_pixel_store-stored pack_skip_images pack_alignment param s = refl
set_pixel_store-stored unpack_alignment pack_alignment param s = refl
set_pixel_store-stored unpack_row_length pack_alignment param s = refl
set_pixel_store-stored unpack_image_height pack_alignment param s = refl
set_pixel_store-stored unpack_skip_rows pack_alignment param s = refl
set_pixel_store-stored unpack_skip_pixels pack_alignment param s = refl
set_pixel_store-stored unpack_skip_images pack_alignment param s = refl
set_pixel_store-stored _ _ param s = refl
