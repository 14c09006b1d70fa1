-- ===== src/Pixels/Enum.antt =====
-- The constants of inc/commongl.h for pixels, vertex data and pixel storage.
use sharedgl.Prelude.{ℕ}

abbrev pub gl_unpack_row_length : ℕ
gl_unpack_row_length = 0x0CF2

abbrev pub gl_unpack_skip_rows : ℕ
gl_unpack_skip_rows = 0x0CF3

abbrev pub gl_unpack_skip_pixels : ℕ
gl_unpack_skip_pixels = 0x0CF4

abbrev pub gl_unpack_alignment : ℕ
gl_unpack_alignment = 0x0CF5

abbrev pub gl_pack_row_length : ℕ
gl_pack_row_length = 0x0D02

abbrev pub gl_pack_skip_rows : ℕ
gl_pack_skip_rows = 0x0D03

abbrev pub gl_pack_skip_pixels : ℕ
gl_pack_skip_pixels = 0x0D04

abbrev pub gl_pack_alignment : ℕ
gl_pack_alignment = 0x0D05

abbrev pub gl_byte : ℕ
gl_byte = 0x1400

abbrev pub gl_unsigned_byte : ℕ
gl_unsigned_byte = 0x1401

abbrev pub gl_short : ℕ
gl_short = 0x1402

abbrev pub gl_unsigned_short : ℕ
gl_unsigned_short = 0x1403

abbrev pub gl_int : ℕ
gl_int = 0x1404

abbrev pub gl_unsigned_int : ℕ
gl_unsigned_int = 0x1405

abbrev pub gl_float : ℕ
gl_float = 0x1406

abbrev pub gl_double : ℕ
gl_double = 0x140A

abbrev pub gl_half_float : ℕ
gl_half_float = 0x140B

abbrev pub gl_fixed : ℕ
gl_fixed = 0x140C

abbrev pub gl_stencil_index : ℕ
gl_stencil_index = 0x1901

abbrev pub gl_depth_component : ℕ
gl_depth_component = 0x1902

abbrev pub gl_red : ℕ
gl_red = 0x1903

abbrev pub gl_alpha : ℕ
gl_alpha = 0x1906

abbrev pub gl_rgb : ℕ
gl_rgb = 0x1907

abbrev pub gl_rgba : ℕ
gl_rgba = 0x1908

abbrev pub gl_luminance : ℕ
gl_luminance = 0x1909

abbrev pub gl_luminance_alpha : ℕ
gl_luminance_alpha = 0x190A

abbrev pub gl_unsigned_byte_3_3_2 : ℕ
gl_unsigned_byte_3_3_2 = 0x8032

abbrev pub gl_unsigned_short_4_4_4_4 : ℕ
gl_unsigned_short_4_4_4_4 = 0x8033

abbrev pub gl_unsigned_short_5_5_5_1 : ℕ
gl_unsigned_short_5_5_5_1 = 0x8034

abbrev pub gl_unsigned_int_8_8_8_8 : ℕ
gl_unsigned_int_8_8_8_8 = 0x8035

abbrev pub gl_unsigned_int_10_10_10_2 : ℕ
gl_unsigned_int_10_10_10_2 = 0x8036

abbrev pub gl_rgb8 : ℕ
gl_rgb8 = 0x8051

abbrev pub gl_rgba8 : ℕ
gl_rgba8 = 0x8058

abbrev pub gl_pack_skip_images : ℕ
gl_pack_skip_images = 0x806B

abbrev pub gl_pack_image_height : ℕ
gl_pack_image_height = 0x806C

abbrev pub gl_unpack_skip_images : ℕ
gl_unpack_skip_images = 0x806D

abbrev pub gl_unpack_image_height : ℕ
gl_unpack_image_height = 0x806E

abbrev pub gl_bgr : ℕ
gl_bgr = 0x80E0

abbrev pub gl_bgra : ℕ
gl_bgra = 0x80E1

abbrev pub gl_rg : ℕ
gl_rg = 0x8227

abbrev pub gl_r8 : ℕ
gl_r8 = 0x8229

abbrev pub gl_rg8 : ℕ
gl_rg8 = 0x822B

abbrev pub gl_unsigned_byte_2_3_3_rev : ℕ
gl_unsigned_byte_2_3_3_rev = 0x8362

abbrev pub gl_unsigned_short_5_6_5 : ℕ
gl_unsigned_short_5_6_5 = 0x8363

abbrev pub gl_unsigned_short_5_6_5_rev : ℕ
gl_unsigned_short_5_6_5_rev = 0x8364

abbrev pub gl_unsigned_short_4_4_4_4_rev : ℕ
gl_unsigned_short_4_4_4_4_rev = 0x8365

abbrev pub gl_unsigned_short_1_5_5_5_rev : ℕ
gl_unsigned_short_1_5_5_5_rev = 0x8366

abbrev pub gl_unsigned_int_8_8_8_8_rev : ℕ
gl_unsigned_int_8_8_8_8_rev = 0x8367

abbrev pub gl_unsigned_int_2_10_10_10_rev : ℕ
gl_unsigned_int_2_10_10_10_rev = 0x8368

abbrev pub gl_depth_stencil : ℕ
gl_depth_stencil = 0x84F9

abbrev pub gl_unsigned_int_24_8 : ℕ
gl_unsigned_int_24_8 = 0x84FA

abbrev pub gl_unsigned_int_10f_11f_11f_rev : ℕ
gl_unsigned_int_10f_11f_11f_rev = 0x8C3B

abbrev pub gl_unsigned_int_5_9_9_9_rev : ℕ
gl_unsigned_int_5_9_9_9_rev = 0x8C3E

abbrev pub gl_int_2_10_10_10_rev : ℕ
gl_int_2_10_10_10_rev = 0x8D9F

abbrev pub gl_float_32_unsigned_int_24_8_rev : ℕ
gl_float_32_unsigned_int_24_8_rev = 0x8DAD
