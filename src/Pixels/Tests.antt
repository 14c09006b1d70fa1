-- ===== src/Pixels/Tests.antt =====
-- Tests and instances for the pixels.
use sharedgl.Prelude.{◌*◌, ◌≤◌, ◌<◌, ◌≡◌, inl, inr, refl, arith, ℕ}
use sharedgl.Pixels.{
  first_store, positive_or, get_pixel_size, get_pixel_component_count, type_size,
  get_pixel_transfer_span,
}
use sharedgl.Pixels.Enum.{gl_rgb, gl_unsigned_byte}
use sharedgl.Pixels.Span.{IsTransfer, pixel_end, get_pixel_transfer_span-IsEnd}

-- Two rows of three RGB pixels of 9 bytes, padded to 12
three_by_two : IsTransfer first_store 3 2 1 gl_rgb gl_unsigned_byte 12
unfolding get_pixel_size get_pixel_component_count type_size
three_by_two = record {
  width_range = (omega arith, omega arith);
  height_range = (omega arith, omega arith);
  depth_range = (omega arith, omega arith);
  skips = (omega arith, omega arith, omega arith);
  alignment = inr (inr (inl refl));
  padded = record { multiple = refl; covers = omega arith; least = omega arith };
  image_fits = omega arith;
  fits = omega arith;
}

get_pixel_transfer_span-IsEnd_example :
    (get_pixel_transfer_span first_store 3 2 1 gl_rgb gl_unsigned_byte
      ≡ pixel_end first_store
          (get_pixel_size gl_rgb gl_unsigned_byte)
          12
          (12 * positive_or first_store.image_height 2)
          2
          1
          0)
    × ((x y z : ℕ)
        → x < 3
        → y < 2
        → z < 1
        → pixel_end first_store
            (get_pixel_size gl_rgb gl_unsigned_byte)
            12
            (12 * positive_or first_store.image_height 2)
            x
            y
            z
          ≤ get_pixel_transfer_span first_store 3 2 1 gl_rgb gl_unsigned_byte)
get_pixel_transfer_span-IsEnd_example = get_pixel_transfer_span-IsEnd three_by_two

-- 12 bytes and 9 more
span_run :
    pixel_end first_store
      (get_pixel_size gl_rgb gl_unsigned_byte)
      12
      (12 * positive_or first_store.image_height 2)
      2
      1
      0
    ≡ 21
unfolding get_pixel_size get_pixel_component_count type_size
span_run = refl
