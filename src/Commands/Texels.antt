-- ===== src/Commands/Texels.antt =====
-- The images of textures: glTexImage1D to glTexSubImage2D, `glimpl_texture_image`,
-- `glimpl_texture_subimage` and `glimpl_upload_texture` of src/client/glimpl.c, and their cases in
-- the command switch of src/server/processor.c.
use sharedgl.Prelude.{
  ℕ, ◌%◌, ◌^◌, Option, none, some, List, [], ◌∷◌, ◌++◌, ◌==◌, if◌then◌else◌, take,
}
use sharedgl.Layout.{ceil_div}
use sharedgl.Pixels.{PixelStore, get_pixel_transfer_span}
use sharedgl.Commands.Cmd
use sharedgl.Commands.Decode.{Decoded, off_stream, other, pop6, pop7, pop8, pop9, pop10}

-- A call with its arguments, but for the pixels.
pub data TexelCall : Type 0 where
  tex_image1_d : (target level internalformat width border format type : ℕ) → TexelCall
  tex_sub_image1_d : (target level xoffset width format type : ℕ) → TexelCall
  tex_image3_d : (target level internalformat width height depth border format type : ℕ) → TexelCall
  tex_sub_image3_d :
      (target level xoffset yoffset zoffset width height depth format type : ℕ) → TexelCall
  tex_image2_d : (target level internalformat width height border format type : ℕ) → TexelCall
  tex_sub_image2_d : (target level xoffset yoffset width height format type : ℕ) → TexelCall

-- The pushes of `glimpl_texture_image` behind the pixels; `dims` is the array of that name.
unfoldable pub texture_image_words : ℕ → ℕ → ℕ → ℕ → ℕ → List ℕ → ℕ → ℕ → ℕ → List ℕ
texture_image_words cmd n_dims texture level internalformat dims border format type =
    cmd ∷ texture ∷ level ∷ internalformat ∷ (take n_dims dims ++ (border ∷ format ∷ type ∷ []))

-- The pushes of `glimpl_texture_subimage` behind the pixels.
unfoldable pub texture_subimage_words : ℕ → ℕ → ℕ → ℕ → List ℕ → List ℕ → ℕ → ℕ → List ℕ
texture_subimage_words cmd n_dims texture level offsets dims format type =
    cmd ∷ texture ∷ level ∷ (take n_dims offsets ++ (take n_dims dims ++ (format ∷ type ∷ [])))

-- The words of the command itself
unfoldable pub texel_words : TexelCall → List ℕ
texel_words (tex_image1_d target level internalformat width border format type) =
    texture_image_words Cmd.teximage1d 1 target level internalformat (width ∷ 0 ∷ 0 ∷ []) border
      format type
texel_words (tex_sub_image1_d target level xoffset width format type) =
    texture_subimage_words Cmd.texsubimage1d 1 target level (xoffset ∷ 0 ∷ 0 ∷ [])
      (width ∷ 0 ∷ 0 ∷ []) format type
texel_words (tex_image3_d target level internalformat width height depth border format type) =
    texture_image_words Cmd.teximage3d 3 target level internalformat (width ∷ height ∷ depth ∷ [])
      border format type
texel_words (tex_sub_image3_d target level xoffset yoffset zoffset width height depth format type) =
    texture_subimage_words Cmd.texsubimage3d 3 target level (xoffset ∷ yoffset ∷ zoffset ∷ [])
      (width ∷ height ∷ depth ∷ []) format type
texel_words (tex_image2_d target level internalformat width height border format type) =
    texture_image_words Cmd.teximage2d 2 target level internalformat (width ∷ height ∷ 0 ∷ [])
      border format type
texel_words (tex_sub_image2_d target level xoffset yoffset width height format type) =
    texture_subimage_words Cmd.texsubimage2d 2 target level (xoffset ∷ yoffset ∷ 0 ∷ [])
      (width ∷ height ∷ 0 ∷ []) format type

-- The bytes that the pixels take in the client's memory.
unfoldable pub texel_span : PixelStore → TexelCall → ℕ
texel_span store (tex_image1_d target level internalformat width border format type) =
    get_pixel_transfer_span store width 1 1 format type
texel_span store (tex_sub_image1_d target level xoffset width format type) =
    get_pixel_transfer_span store width 1 1 format type
texel_span store (tex_image3_d target level internalformat width height depth border format type) =
    get_pixel_transfer_span store width height depth format type
texel_span store
      (tex_sub_image3_d target level xoffset yoffset zoffset width height depth format type) =
    get_pixel_transfer_span store width height depth format type
texel_span store (tex_image2_d target level internalformat width height border format type) =
    get_pixel_transfer_span store width height 1 format type
texel_span store (tex_sub_image2_d target level xoffset yoffset width height format type) =
    get_pixel_transfer_span store width height 1 format type

-- The pushes of a call, in order; `pixels` are the words of the client's memory, or NULL.
unfoldable pub texel_stream : PixelStore → TexelCall → Option (List ℕ) → List ℕ
texel_stream store c none = Cmd.vp_null ∷ texel_words c
texel_stream store c (some pixels) =
    Cmd.vp_upload ∷ ceil_div (texel_span store c) 4 % 2 ^ 32 ∷ (pixels ++ texel_words c)

-- The cases of the switch: `other` where the command is none of them.
unfoldable pub exec_texels : List ℕ → Decoded TexelCall
exec_texels [] = off_stream
exec_texels (cmd ∷ ws) =
    if cmd == Cmd.teximage1d
    then pop7 tex_image1_d ws
    else if cmd == Cmd.texsubimage1d
    then pop6 tex_sub_image1_d ws
    else if cmd == Cmd.teximage3d
    then pop9 tex_image3_d ws
    else if cmd == Cmd.texsubimage3d
    then pop10 tex_sub_image3_d ws
    else if cmd == Cmd.teximage2d
    then pop8 tex_image2_d ws
    else if cmd == Cmd.texsubimage2d
    then pop8 tex_sub_image2_d ws
    else other
