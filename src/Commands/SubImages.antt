-- ===== src/Commands/SubImages.antt =====
-- The parts of compressed textures: glCompressedTexSubImage3D to glCompressedTexSubImage1D and
-- `glimpl_compressed_texture_subimage` of src/client/glimpl.c, and their cases in the command switch
-- of src/server/processor.c.
use sharedgl.Prelude.{ℕ, ◌%◌, ◌^◌, List, [], ◌∷◌, ◌++◌, ◌==◌, if◌then◌else◌, take}
use sharedgl.Layout.{ceil_div}
use sharedgl.Commands.Cmd
use sharedgl.Commands.Decode.{Decoded, off_stream, other, pop8, pop10}

-- A call that the server makes, but for the data; the two-dimensional and the one-dimensional one
-- leave words that they pop unused.
pub data SubImageCall : Type 0 where
  compressed_tex_sub_image3_d :
      (target level xoffset yoffset zoffset width height depth format image_size : ℕ) → SubImageCall
  compressed_tex_sub_image2_d :
      (target level xoffset yoffset width height format image_size : ℕ) → SubImageCall
  compressed_tex_sub_image1_d : (target level xoffset width format image_size : ℕ) → SubImageCall

-- The words behind the upload; `offsets` and `dims` are the arrays of that name.
unfoldable pub sub_image_words : ℕ → ℕ → ℕ → ℕ → List ℕ → List ℕ → ℕ → ℕ → List ℕ
sub_image_words cmd n_dims texture level offsets dims format image_size =
    cmd
    ∷ texture
    ∷ level
    ∷ (take n_dims offsets ++ (take n_dims dims ++ (format ∷ image_size ∷ [])))

-- The words of `glimpl_compressed_texture_subimage`, for data that are whole words.
unfoldable pub sub_image_stream : ℕ → ℕ → ℕ → ℕ → List ℕ → List ℕ → ℕ → ℕ → List ℕ → List ℕ
sub_image_stream cmd n_dims texture level offsets dims format image_size values =
    Cmd.vp_upload
    ∷ ceil_div image_size 4 % 2 ^ 32
    ∷ (values ++ sub_image_words cmd n_dims texture level offsets dims format image_size)

-- The cases of the switch: `other` where the command is none of them.
unfoldable pub exec_sub_image : List ℕ → Decoded SubImageCall
exec_sub_image [] = off_stream
exec_sub_image (cmd ∷ ws) =
    if cmd == Cmd.compressedtexsubimage3d
    then pop10 compressed_tex_sub_image3_d ws
    else if cmd == Cmd.compressedtexsubimage2d
    then pop10
        (λ target level xoffset yoffset zoffset width height depth format image_size.
          compressed_tex_sub_image2_d target level xoffset yoffset width height format image_size)
        ws
    else if cmd == Cmd.compressedtexsubimage1d
    then pop8
        (λ target level xoffset yoffset zoffset width format image_size.
          compressed_tex_sub_image1_d target level xoffset width format image_size)
        ws
    else other
