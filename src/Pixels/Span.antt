-- ===== src/Pixels/Span.antt =====
-- The span of a pixel transfer reaches the end of its last pixel.
use sharedgl.Prelude.{ℕ, zero, suc, ◌+◌, ◌-◌, ◌*◌, ◌%◌, ◌^◌, ◌≤◌, ◌<◌, ◌≡◌, true, arith}
use native.Mathlib.Nat.{le_of_lt, suc-mul, mul-le-mul, mul-le-mul_right}
use sharedgl.Layout.{size_mod}
use sharedgl.Pb.{int_to_size}
use sharedgl.Pixels.{
  PixelStore, positive, positive_or, get_pixel_size, row_stride, image_stride, start_offset,
  get_pixel_transfer_span,
}
use sharedgl.Pixels.Sizes.{
  IsAlignment, Aligned, align_size-Aligned, Aligned-unique, get_pixel_size-le,
}

-- Where the pixel `x` of the row `y` of the image `z` ends, from the client's pointer on.
abbrev pub pixel_end : PixelStore → (pixel row image : ℕ) → (x y z : ℕ) → ℕ
pixel_end store pixel row image x y z =
    store.skip_images * image
    + z * image
    + (store.skip_rows * row + y * row)
    + (store.skip_pixels * pixel + x * pixel + pixel)

-- A transfer with OpenGL's alignments and strides: a row is padded to the alignment, `row` bytes;
-- the sizes are positive ints, the skips are not negative, and nothing reaches 2^64.
pub record IsTransfer (store : PixelStore) (width height depth format type row : ℕ) : Type 0 where
  pub width_range : (1 ≤ width) × (width < 2 ^ 31)
  pub height_range : (1 ≤ height) × (height < 2 ^ 31)
  pub depth_range : (1 ≤ depth) × (depth < 2 ^ 31)
  pub skips :
      (store.skip_images < 2 ^ 31) × (store.skip_rows < 2 ^ 31) × (store.skip_pixels < 2 ^ 31)
  pub alignment : IsAlignment store.alignment
  pub padded :
      Aligned (positive_or store.row_length width * get_pixel_size format type) store.alignment row
  pub image_fits : row * positive_or store.image_height height < size_mod
  pub fits :
      pixel_end store
        (get_pixel_size format type)
        row
        (row * positive_or store.image_height height)
        (width - 1)
        (height - 1)
        (depth - 1)
      < size_mod

positive_or-lt : (x d : ℕ) → d < 2 ^ 31 → positive_or x d < 2 ^ 31
positive_or-lt x d h = ground arith

positive-range : (x : ℕ) → 1 ≤ x → x < 2 ^ 31 → positive x ≡ true
positive-range x h k = ground arith

pub int_to_size-small : (x : ℕ) → x < 2 ^ 31 → int_to_size x ≡ x
unfolding int_to_size
int_to_size-small x h = ground arith

alignment-positive : (a : ℕ) → IsAlignment a → positive_or a 1 ≡ a
alignment-positive a h = ground (arith, h)

pred_mul : (w p : ℕ) → 1 ≤ w → w * p ≡ (w - 1) * p + p
pred_mul zero p h = absurd (omega arith)
pred_mul (suc w) p h = let e : suc w - 1 ≡ w = omega arith in rw e (suc-mul w p)

module _ {store : PixelStore} {width height depth format type row : ℕ}
    (t : IsTransfer store width height depth format type row) where
  abbrev pixel : ℕ
  pixel = get_pixel_size format type

  abbrev image : ℕ
  image = row * positive_or store.image_height height

  row_bytes-le : positive_or store.row_length width * pixel ≤ 2 ^ 31 * 32
  row_bytes-le =
      mul-le-mul (le_of_lt (positive_or-lt store.row_length width t.width_range.1))
        (get_pixel_size-le format type)

  row_stride-row : row_stride store width format type ≡ row
  unfolding row_stride
  row_stride-row =
      let bytes = positive_or store.row_length width * pixel in
      let small : bytes % size_mod ≡ bytes = omega (arith, row_bytes-le) in
      let a = alignment-positive store.alignment t.alignment in
      rw (small, a)
        (Aligned-unique bytes store.alignment _ row t.alignment
          (align_size-Aligned bytes store.alignment (omega (arith, row_bytes-le)) t.alignment)
          t.padded)

  image_stride-image : image_stride store width height format type ≡ image
  unfolding image_stride
  image_stride-image = rw row_stride-row (omega (arith, t.image_fits))

  span_eq :
      get_pixel_transfer_span store width height depth format type
      ≡ pixel_end store pixel row image (width - 1) (height - 1) (depth - 1)
  unfolding get_pixel_transfer_span start_offset
  span_eq =
      let w = positive-range width t.width_range.0 t.width_range.1 in
      let h = positive-range height t.height_range.0 t.height_range.1 in
      let d = positive-range depth t.depth_range.0 t.depth_range.1 in
      let i = int_to_size-small store.skip_images t.skips.0 in
      let r = int_to_size-small store.skip_rows t.skips.1 in
      let p = int_to_size-small store.skip_pixels t.skips.2 in
      rw (w, h, d, i, r, p, image_stride-image, row_stride-row)
        (omega (arith, t.fits, pred_mul width pixel t.width_range.0))

  -- The end of a pixel grows with its place.
  pixel_end-le :
      (x y z x' y' z' : ℕ)
      → x ≤ x'
      → y ≤ y'
      → z ≤ z'
      → pixel_end store pixel row image x y z ≤ pixel_end store pixel row image x' y' z'
  pixel_end-le x y z x' y' z' p q r =
      omega (arith, mul-le-mul_right pixel p, mul-le-mul_right row q, mul-le-mul_right image r)

  -- For a transfer with an alignment of 1, 2, 4 or 8, positive sizes and skips that are not negative,
  -- where nothing reaches 2^64: the span is where the last pixel ends, and no pixel ends behind it.
  pub get_pixel_transfer_span-IsEnd :
      (get_pixel_transfer_span store width height depth format type
        ≡ pixel_end store
            (get_pixel_size format type)
            row
            (row * positive_or store.image_height height)
            (width - 1)
            (height - 1)
            (depth - 1))
      × ((x y z : ℕ)
          → x < width
          → y < height
          → z < depth
          → pixel_end store
              (get_pixel_size format type)
              row
              (row * positive_or store.image_height height)
              x
              y
              z
            ≤ get_pixel_transfer_span store width height depth format type)
  get_pixel_transfer_span-IsEnd = (
    span_eq,
    λ x y z p q r. rw span_eq (
        pixel_end-le x y z (width - 1) (height - 1) (depth - 1) (omega arith) (omega arith)
          (omega arith)),
  )
