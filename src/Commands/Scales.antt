-- ===== src/Commands/Scales.antt =====
-- The scaling and texture binding functions: glScalef to glBindTexture of src/client/glimpl.c,
-- and their cases in the command switch of src/server/processor.c.
use sharedgl.Prelude.{ℕ, List, [], ◌∷◌, ◌==◌, if◌then◌else◌}
use sharedgl.Commands.Cmd
use sharedgl.Commands.Decode.{Decoded, off_stream, other, pop2, pop3, pop6, pop7, pop8}

-- A call with its arguments; a float is its bit pattern, a narrower integer its `int`.
pub data ScaleCall : Type 0 where
  scalef : (x y z : ℕ) → ScaleCall
  polygon_offset : (factor units : ℕ) → ScaleCall
  copy_tex_image1_d : (target level internalformat x y width border : ℕ) → ScaleCall
  copy_tex_image2_d : (target level internalformat x y width height border : ℕ) → ScaleCall
  copy_tex_sub_image1_d : (target level xoffset x y width : ℕ) → ScaleCall
  copy_tex_sub_image2_d : (target level xoffset yoffset x y width height : ℕ) → ScaleCall
  bind_texture : (target texture : ℕ) → ScaleCall

-- The words that the client's function pushes, in order.
unfoldable pub scale_words : ScaleCall → List ℕ
scale_words (scalef x y z) = Cmd.scalef ∷ x ∷ y ∷ z ∷ []
scale_words (polygon_offset factor units) = Cmd.polygonoffset ∷ factor ∷ units ∷ []
scale_words (copy_tex_image1_d target level internalformat x y width border) =
    Cmd.copyteximage1d ∷ target ∷ level ∷ internalformat ∷ x ∷ y ∷ width ∷ border ∷ []
scale_words (copy_tex_image2_d target level internalformat x y width height border) =
    Cmd.copyteximage2d ∷ target ∷ level ∷ internalformat ∷ x ∷ y ∷ width ∷ height ∷ border ∷ []
scale_words (copy_tex_sub_image1_d target level xoffset x y width) =
    Cmd.copytexsubimage1d ∷ target ∷ level ∷ xoffset ∷ x ∷ y ∷ width ∷ []
scale_words (copy_tex_sub_image2_d target level xoffset yoffset x y width height) =
    Cmd.copytexsubimage2d ∷ target ∷ level ∷ xoffset ∷ yoffset ∷ x ∷ y ∷ width ∷ height ∷ []
scale_words (bind_texture target texture) = Cmd.bindtexture ∷ target ∷ texture ∷ []

-- The cases of the switch: `other` where the command is none of them.
unfoldable pub exec_scale : List ℕ → Decoded ScaleCall
exec_scale [] = off_stream
exec_scale (cmd ∷ ws) =
    if cmd == Cmd.scalef
    then pop3 scalef ws
    else if cmd == Cmd.polygonoffset
    then pop2 polygon_offset ws
    else if cmd == Cmd.copyteximage1d
    then pop7 copy_tex_image1_d ws
    else if cmd == Cmd.copyteximage2d
    then pop8 copy_tex_image2_d ws
    else if cmd == Cmd.copytexsubimage1d
    then pop6 copy_tex_sub_image1_d ws
    else if cmd == Cmd.copytexsubimage2d
    then pop8 copy_tex_sub_image2_d ws
    else if cmd == Cmd.bindtexture
    then pop2 bind_texture ws
    else other
