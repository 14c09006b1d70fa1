-- ===== src/Commands/Storages.antt =====
-- The invalidation and buffer range functions: glInvalidateTexSubImage to glTextureView of
-- src/client/glimpl.c, and their cases in the command switch of src/server/processor.c.
use sharedgl.Prelude.{ℕ, List, [], ◌∷◌, ◌==◌, if◌then◌else◌}
use sharedgl.Pb.{int_to_size}
use sharedgl.Commands.Cmd
use sharedgl.Commands.Decode.{
  Decoded, off_stream, other, pop1, pop2, pop3, pop5, pop6, pop7, pop8, low32,
}

-- A call with its arguments; a float is its bit pattern, a narrower integer its `int`.
pub data StorageCall : Type 0 where
  invalidate_tex_sub_image :
      (texture level xoffset yoffset zoffset width height depth : ℕ) → StorageCall
  invalidate_tex_image : (texture level : ℕ) → StorageCall
  invalidate_buffer_sub_data : (buffer offset length : ℕ) → StorageCall
  invalidate_buffer_data : (buffer : ℕ) → StorageCall
  shader_storage_block_binding :
      (program storage_block_index storage_block_binding : ℕ) → StorageCall
  tex_buffer_range : (target internalformat buffer offset size : ℕ) → StorageCall
  tex_storage2_d_multisample :
      (target samples internalformat width height fixedsamplelocations : ℕ) → StorageCall
  tex_storage3_d_multisample :
      (target samples internalformat width height depth fixedsamplelocations : ℕ) → StorageCall
  texture_view :
      (texture target origtexture internalformat minlevel numlevels minlayer numlayers : ℕ)
      → StorageCall

-- The words that the client's function pushes, in order.
unfoldable pub storage_words : StorageCall → List ℕ
storage_words (invalidate_tex_sub_image texture level xoffset yoffset zoffset width height depth) =
    Cmd.invalidatetexsubimage ∷ texture ∷ level ∷ xoffset ∷ yoffset ∷ zoffset ∷ width ∷ height
    ∷ depth ∷ []
storage_words (invalidate_tex_image texture level) = Cmd.invalidateteximage ∷ texture ∷ level ∷ []
storage_words (invalidate_buffer_sub_data buffer offset length) =
    Cmd.invalidatebuffersubdata ∷ buffer ∷ low32 offset ∷ low32 length ∷ []
storage_words (invalidate_buffer_data buffer) = Cmd.invalidatebufferdata ∷ buffer ∷ []
storage_words (shader_storage_block_binding program storage_block_index storage_block_binding) =
    Cmd.shaderstorageblockbinding ∷ program ∷ storage_block_index ∷ storage_block_binding ∷ []
storage_words (tex_buffer_range target internalformat buffer offset size) =
    Cmd.texbufferrange ∷ target ∷ internalformat ∷ buffer ∷ low32 offset ∷ low32 size ∷ []
storage_words
      (tex_storage2_d_multisample target samples internalformat width height fixedsamplelocations) =
    Cmd.texstorage2dmultisample ∷ target ∷ samples ∷ internalformat ∷ width ∷ height
    ∷ fixedsamplelocations ∷ []
storage_words
      (tex_storage3_d_multisample target samples internalformat width height depth
        fixedsamplelocations) =
    Cmd.texstorage3dmultisample ∷ target ∷ samples ∷ internalformat ∷ width ∷ height ∷ depth
    ∷ fixedsamplelocations ∷ []
storage_words
      (texture_view texture target origtexture internalformat minlevel numlevels minlayer
        numlayers) =
    Cmd.textureview ∷ texture ∷ target ∷ origtexture ∷ internalformat ∷ minlevel ∷ numlevels
    ∷ minlayer ∷ numlayers ∷ []

-- The cases of the switch: `other` where the command is none of them.
unfoldable pub exec_storage : List ℕ → Decoded StorageCall
exec_storage [] = off_stream
exec_storage (cmd ∷ ws) =
    if cmd == Cmd.invalidatetexsubimage
    then pop8 invalidate_tex_sub_image ws
    else if cmd == Cmd.invalidateteximage
    then pop2 invalidate_tex_image ws
    else if cmd == Cmd.invalidatebuffersubdata
    then pop3
        (λ buffer offset length.
          invalidate_buffer_sub_data buffer (int_to_size offset) (int_to_size length))
        ws
    else if cmd == Cmd.invalidatebufferdata
    then pop1 invalidate_buffer_data ws
    else if cmd == Cmd.shaderstorageblockbinding
    then pop3 shader_storage_block_binding ws
    else if cmd == Cmd.texbufferrange
    then pop5
        (λ target internalformat buffer offset size.
          tex_buffer_range target internalformat buffer (int_to_size offset) (int_to_size size))
        ws
    else if cmd == Cmd.texstorage2dmultisample
    then pop6 tex_storage2_d_multisample ws
    else if cmd == Cmd.texstorage3dmultisample
    then pop7 tex_storage3_d_multisample ws
    else if cmd == Cmd.textureview
    then pop8 texture_view ws
    else other
