-- ===== src/Commands/Textures.antt =====
-- The functions on named renderbuffers and textures: glNamedRenderbufferStorage to
-- glBindTextureUnit of src/client/glimpl.c, and their cases in the command switch of
-- src/server/processor.c.
use sharedgl.Prelude.{ℕ, List, [], ◌∷◌, ◌==◌, if◌then◌else◌}
use sharedgl.Pb.{int_to_size}
use sharedgl.Commands.Cmd
use sharedgl.Commands.Decode.{
  Decoded, off_stream, other, pop1, pop2, pop3, pop4, pop5, pop6, pop7, pop8, pop9, low32,
}

-- A call with its arguments; a float is its bit pattern, a narrower integer its `int`.
pub data TextureCall : Type 0 where
  named_renderbuffer_storage : (renderbuffer internalformat width height : ℕ) → TextureCall
  named_renderbuffer_storage_multisample :
      (renderbuffer samples internalformat width height : ℕ) → TextureCall
  texture_buffer : (texture internalformat buffer : ℕ) → TextureCall
  texture_buffer_range : (texture internalformat buffer offset size : ℕ) → TextureCall
  texture_storage1_d : (texture levels internalformat width : ℕ) → TextureCall
  texture_storage2_d : (texture levels internalformat width height : ℕ) → TextureCall
  texture_storage3_d : (texture levels internalformat width height depth : ℕ) → TextureCall
  texture_storage2_d_multisample :
      (texture samples internalformat width height fixedsamplelocations : ℕ) → TextureCall
  texture_storage3_d_multisample :
      (texture samples internalformat width height depth fixedsamplelocations : ℕ) → TextureCall
  copy_texture_sub_image1_d : (texture level xoffset x y width : ℕ) → TextureCall
  copy_texture_sub_image2_d : (texture level xoffset yoffset x y width height : ℕ) → TextureCall
  copy_texture_sub_image3_d :
      (texture level xoffset yoffset zoffset x y width height : ℕ) → TextureCall
  texture_parameterf : (texture pname param : ℕ) → TextureCall
  texture_parameteri : (texture pname param : ℕ) → TextureCall
  generate_texture_mipmap : (texture : ℕ) → TextureCall
  bind_texture_unit : (unit texture : ℕ) → TextureCall

-- The words that the client's function pushes, in order.
unfoldable pub texture_words : TextureCall → List ℕ
texture_words (named_renderbuffer_storage renderbuffer internalformat width height) =
    Cmd.namedrenderbufferstorage ∷ renderbuffer ∷ internalformat ∷ width ∷ height ∷ []
texture_words
      (named_renderbuffer_storage_multisample renderbuffer samples internalformat width height) =
    Cmd.namedrenderbufferstoragemultisample ∷ renderbuffer ∷ samples ∷ internalformat ∷ width
    ∷ height ∷ []
texture_words (texture_buffer texture internalformat buffer) =
    Cmd.texturebuffer ∷ texture ∷ internalformat ∷ buffer ∷ []
texture_words (texture_buffer_range texture internalformat buffer offset size) =
    Cmd.texturebufferrange ∷ texture ∷ internalformat ∷ buffer ∷ low32 offset ∷ low32 size ∷ []
texture_words (texture_storage1_d texture levels internalformat width) =
    Cmd.texturestorage1d ∷ texture ∷ levels ∷ internalformat ∷ width ∷ []
texture_words (texture_storage2_d texture levels internalformat width height) =
    Cmd.texturestorage2d ∷ texture ∷ levels ∷ internalformat ∷ width ∷ height ∷ []
texture_words (texture_storage3_d texture levels internalformat width height depth) =
    Cmd.texturestorage3d ∷ texture ∷ levels ∷ internalformat ∷ width ∷ height ∷ depth ∷ []
texture_words
      (texture_storage2_d_multisample texture samples internalformat width height
        fixedsamplelocations) =
    Cmd.texturestorage2dmultisample ∷ texture ∷ samples ∷ internalformat ∷ width ∷ height
    ∷ fixedsamplelocations ∷ []
texture_words
      (texture_storage3_d_multisample texture samples internalformat width height depth
        fixedsamplelocations) =
    Cmd.texturestorage3dmultisample ∷ texture ∷ samples ∷ internalformat ∷ width ∷ height ∷ depth
    ∷ fixedsamplelocations ∷ []
texture_words (copy_texture_sub_image1_d texture level xoffset x y width) =
    Cmd.copytexturesubimage1d ∷ texture ∷ level ∷ xoffset ∷ x ∷ y ∷ width ∷ []
texture_words (copy_texture_sub_image2_d texture level xoffset yoffset x y width height) =
    Cmd.copytexturesubimage2d ∷ texture ∷ level ∷ xoffset ∷ yoffset ∷ x ∷ y ∷ width ∷ height ∷ []
texture_words (copy_texture_sub_image3_d texture level xoffset yoffset zoffset x y width height) =
    Cmd.copytexturesubimage3d ∷ texture ∷ level ∷ xoffset ∷ yoffset ∷ zoffset ∷ x ∷ y ∷ width
    ∷ height ∷ []
texture_words (texture_parameterf texture pname param) =
    Cmd.textureparameterf ∷ texture ∷ pname ∷ param ∷ []
texture_words (texture_parameteri texture pname param) =
    Cmd.textureparameteri ∷ texture ∷ pname ∷ param ∷ []
texture_words (generate_texture_mipmap texture) = Cmd.generatetexturemipmap ∷ texture ∷ []
texture_words (bind_texture_unit unit texture) = Cmd.bindtextureunit ∷ unit ∷ texture ∷ []

-- The cases of the switch: `other` where the command is none of them.
unfoldable pub exec_texture : List ℕ → Decoded TextureCall
exec_texture [] = off_stream
exec_texture (cmd ∷ ws) =
    if cmd == Cmd.namedrenderbufferstorage
    then pop4 named_renderbuffer_storage ws
    else if cmd == Cmd.namedrenderbufferstoragemultisample
    then pop5 named_renderbuffer_storage_multisample ws
    else if cmd == Cmd.texturebuffer
    then pop3 texture_buffer ws
    else if cmd == Cmd.texturebufferrange
    then pop5
        (λ texture internalformat buffer offset size.
          texture_buffer_range texture internalformat buffer (int_to_size offset)
            (int_to_size size))
        ws
    else if cmd == Cmd.texturestorage1d
    then pop4 texture_storage1_d ws
    else if cmd == Cmd.texturestorage2d
    then pop5 texture_storage2_d ws
    else if cmd == Cmd.texturestorage3d
    then pop6 texture_storage3_d ws
    else if cmd == Cmd.texturestorage2dmultisample
    then pop6 texture_storage2_d_multisample ws
    else if cmd == Cmd.texturestorage3dmultisample
    then pop7 texture_storage3_d_multisample ws
    else if cmd == Cmd.copytexturesubimage1d
    then pop6 copy_texture_sub_image1_d ws
    else if cmd == Cmd.copytexturesubimage2d
    then pop8 copy_texture_sub_image2_d ws
    else if cmd == Cmd.copytexturesubimage3d
    then pop9 copy_texture_sub_image3_d ws
    else if cmd == Cmd.textureparameterf
    then pop3 texture_parameterf ws
    else if cmd == Cmd.textureparameteri
    then pop3 texture_parameteri ws
    else if cmd == Cmd.generatetexturemipmap
    then pop1 generate_texture_mipmap ws
    else if cmd == Cmd.bindtextureunit
    then pop2 bind_texture_unit ws
    else other
