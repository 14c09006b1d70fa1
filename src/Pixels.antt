-- ===== src/Pixels.antt =====
-- Pixel storage and the sizes of pixels: `glimpl_align_size` to `glimpl_set_pixel_store` of
-- src/client/glimpl.c, without `glimpl_get_legacy_color_array_size`. An int is its 32-bit pattern.
pub mod Enum
pub mod Sizes
pub mod Span
pub mod Store
mod Tests
use Prim.Native.Nat.{bit_and}
use sharedgl.Prelude.{
  ℕ, zero, suc, ◌+◌, ◌-◌, ◌*◌, ◌%◌, Bool, true, false, ◌&&◌, ◌||◌, not, List, [], ◌∷◌, leb, ◌==◌,
  if◌then◌else◌,
}
use sharedgl.Layout.{size_mod, int_sign}
use sharedgl.Pb.{int_to_size}
use sharedgl.Pixels.Enum.*

-- `struct gl_pixel_store_state`
pub record PixelStore : Type 0 where
  pub alignment : ℕ
  pub row_length : ℕ
  pub image_height : ℕ
  pub skip_rows : ℕ
  pub skip_pixels : ℕ
  pub skip_images : ℕ

abbrev pub first_store : PixelStore
first_store = record {
  alignment = 4;
  row_length = 0;
  image_height = 0;
  skip_rows = 0;
  skip_pixels = 0;
  skip_images = 0;
}

-- `glimpl_pack_store` and `glimpl_unpack_store`
pub record Stores : Type 0 where
  pub pack : PixelStore
  pub unpack : PixelStore

abbrev pub among : ℕ → List ℕ → Bool
among x [] = false
among x (y ∷ ys) = (x == y) || among x ys

unfoldable pub align_size : ℕ → ℕ → ℕ
align_size value alignment =
    if leb alignment 1
    then value
    else bit_and ((value + alignment - 1) % size_mod) (size_mod - alignment)

unfoldable pub get_pixel_component_count : ℕ → ℕ
get_pixel_component_count format =
    if among format (gl_rgba ∷ gl_rgba8 ∷ gl_bgra ∷ [])
    then 4
    else if among format (gl_rgb ∷ gl_bgr ∷ gl_rgb8 ∷ [])
    then 3
    else if among format (gl_luminance_alpha ∷ gl_rg ∷ gl_rg8 ∷ gl_depth_stencil ∷ [])
    then 2
    else 1

unfoldable pub type_size : ℕ → ℕ
type_size type =
    if among type (gl_byte ∷ gl_unsigned_byte ∷ [])
    then 1
    else if among type (gl_short ∷ gl_unsigned_short ∷ [])
    then 2
    else if among type
        (gl_int_2_10_10_10_rev ∷ gl_int ∷ gl_unsigned_int_2_10_10_10_rev ∷ gl_unsigned_int ∷ [])
    then 4
    else if type == gl_float
    then 4
    else if type == gl_double
    then 8
    else if type == gl_fixed
    then 4
    else if type == gl_half_float
    then 2
    else 1

unfoldable pub get_pixel_size : ℕ → ℕ → ℕ
get_pixel_size format type =
    if among type (gl_unsigned_byte_3_3_2 ∷ gl_unsigned_byte_2_3_3_rev ∷ [])
    then 1
    else if among type (
        gl_unsigned_short_5_6_5 ∷ gl_unsigned_short_5_6_5_rev ∷ gl_unsigned_short_4_4_4_4
        ∷ gl_unsigned_short_4_4_4_4_rev ∷ gl_unsigned_short_5_5_5_1 ∷ gl_unsigned_short_1_5_5_5_rev
        ∷ [])
    then 2
    else if among type (
        gl_unsigned_int_8_8_8_8 ∷ gl_unsigned_int_8_8_8_8_rev ∷ gl_unsigned_int_10_10_10_2
        ∷ gl_unsigned_int_2_10_10_10_rev ∷ gl_unsigned_int_24_8 ∷ gl_unsigned_int_5_9_9_9_rev
        ∷ gl_unsigned_int_10f_11f_11f_rev ∷ [])
    then 4
    else if type == gl_float_32_unsigned_int_24_8_rev
    then 8
    else get_pixel_component_count format * type_size type

-- `x > 0` for an int, and `x > 0 ? x : otherwise`
abbrev pub positive : ℕ → Bool
positive x = not (int_sign x) && not (x == 0)

abbrev pub positive_or : ℕ → ℕ → ℕ
positive_or x otherwise = if positive x then x else otherwise

-- The strides of a row and of an image
unfoldable pub row_stride : PixelStore → ℕ → ℕ → ℕ → ℕ
row_stride store width format type =
    align_size (positive_or store.row_length width * get_pixel_size format type % size_mod)
      (positive_or store.alignment 1)

unfoldable pub image_stride : PixelStore → ℕ → ℕ → ℕ → ℕ → ℕ
image_stride store width height format type =
    row_stride store width format type * positive_or store.image_height height % size_mod

unfoldable pub start_offset : PixelStore → ℕ → ℕ → ℕ → ℕ → ℕ
start_offset store width height format type =
    int_to_size store.skip_images * image_stride store width height format type
    + int_to_size store.skip_rows * row_stride store width format type
    + int_to_size store.skip_pixels * get_pixel_size format type

unfoldable pub get_pixel_transfer_span : PixelStore → ℕ → ℕ → ℕ → ℕ → ℕ → ℕ
get_pixel_transfer_span store width height depth format type =
    if positive width && positive height && positive depth
    then (start_offset store width height format type
        + (depth - 1) * image_stride store width height format type
        + (height - 1) * row_stride store width format type
        + width * get_pixel_size format type)
      % size_mod
    else 0

-- The second switch: the field of one store that the parameter names
unfoldable pub set_field : ℕ → ℕ → PixelStore → PixelStore
set_field pname param store =
    if among pname (gl_pack_alignment ∷ gl_unpack_alignment ∷ [])
    then record store { alignment = positive_or param 1 }
    else if among pname (gl_pack_row_length ∷ gl_unpack_row_length ∷ [])
    then record store { row_length = param }
    else if among pname (gl_pack_image_height ∷ gl_unpack_image_height ∷ [])
    then record store { image_height = param }
    else if among pname (gl_pack_skip_rows ∷ gl_unpack_skip_rows ∷ [])
    then record store { skip_rows = param }
    else if among pname (gl_pack_skip_pixels ∷ gl_unpack_skip_pixels ∷ [])
    then record store { skip_pixels = param }
    else if among pname (gl_pack_skip_images ∷ gl_unpack_skip_images ∷ [])
    then record store { skip_images = param }
    else store

unfoldable pub set_pixel_store : ℕ → ℕ → Stores → Stores
set_pixel_store pname param s =
    if among pname (
      gl_pack_alignment ∷ gl_pack_row_length ∷ gl_pack_image_height ∷ gl_pack_skip_rows
      ∷ gl_pack_skip_pixels ∷ gl_pack_skip_images ∷ [])
    then record s { pack = set_field pname param s.pack }
    else if among pname (
        gl_unpack_alignment ∷ gl_unpack_row_length ∷ gl_unpack_image_height ∷ gl_unpack_skip_rows
        ∷ gl_unpack_skip_pixels ∷ gl_unpack_skip_images ∷ [])
    then record s { unpack = set_field pname param s.unpack }
    else s
