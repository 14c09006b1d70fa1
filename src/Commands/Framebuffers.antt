-- ===== src/Commands/Framebuffers.antt =====
-- The framebuffer functions: glFramebufferTexture1D to glFramebufferTextureLayer of
-- src/client/glimpl.c, and their cases in the command switch of src/server/processor.c.
use sharedgl.Prelude.{ℕ, List, [], ◌∷◌, ◌==◌, if◌then◌else◌}
use sharedgl.Commands.Cmd
use sharedgl.Commands.Decode.{Decoded, off_stream, other, pop1, pop4, pop5, pop6, pop10}

-- A call with its arguments; a float is its bit pattern, a narrower integer its `int`.
pub data FramebufferCall : Type 0 where
  framebuffer_texture1_d : (target attachment textarget texture level : ℕ) → FramebufferCall
  framebuffer_texture2_d : (target attachment textarget texture level : ℕ) → FramebufferCall
  framebuffer_texture3_d : (target attachment textarget texture level zoffset : ℕ) → FramebufferCall
  framebuffer_renderbuffer :
      (target attachment renderbuffertarget renderbuffer : ℕ) → FramebufferCall
  generate_mipmap : (target : ℕ) → FramebufferCall
  blit_framebuffer :
      (src_x0 src_y0 src_x1 src_y1 dst_x0 dst_y0 dst_x1 dst_y1 mask filter : ℕ) → FramebufferCall
  renderbuffer_storage_multisample :
      (target samples internalformat width height : ℕ) → FramebufferCall
  framebuffer_texture_layer : (target attachment texture level layer : ℕ) → FramebufferCall

-- The words that the client's function pushes, in order.
unfoldable pub framebuffer_words : FramebufferCall → List ℕ
framebuffer_words (framebuffer_texture1_d target attachment textarget texture level) =
    Cmd.framebuffertexture1d ∷ target ∷ attachment ∷ textarget ∷ texture ∷ level ∷ []
framebuffer_words (framebuffer_texture2_d target attachment textarget texture level) =
    Cmd.framebuffertexture2d ∷ target ∷ attachment ∷ textarget ∷ texture ∷ level ∷ []
framebuffer_words (framebuffer_texture3_d target attachment textarget texture level zoffset) =
    Cmd.framebuffertexture3d ∷ target ∷ attachment ∷ textarget ∷ texture ∷ level ∷ zoffset ∷ []
framebuffer_words (framebuffer_renderbuffer target attachment renderbuffertarget renderbuffer) =
    Cmd.framebufferrenderbuffer ∷ target ∷ attachment ∷ renderbuffertarget ∷ renderbuffer ∷ []
framebuffer_words (generate_mipmap target) = Cmd.generatemipmap ∷ target ∷ []
framebuffer_words
      (blit_framebuffer src_x0 src_y0 src_x1 src_y1 dst_x0 dst_y0 dst_x1 dst_y1 mask filter) =
    Cmd.blitframebuffer ∷ src_x0 ∷ src_y0 ∷ src_x1 ∷ src_y1 ∷ dst_x0 ∷ dst_y0 ∷ dst_x1 ∷ dst_y1
    ∷ mask ∷ filter ∷ []
framebuffer_words (renderbuffer_storage_multisample target samples internalformat width height) =
    Cmd.renderbufferstoragemultisample ∷ target ∷ samples ∷ internalformat ∷ width ∷ height ∷ []
framebuffer_words (framebuffer_texture_layer target attachment texture level layer) =
    Cmd.framebuffertexturelayer ∷ target ∷ attachment ∷ texture ∷ level ∷ layer ∷ []

-- The cases of the switch: `other` where the command is none of them.
unfoldable pub exec_framebuffer : List ℕ → Decoded FramebufferCall
exec_framebuffer [] = off_stream
exec_framebuffer (cmd ∷ ws) =
    if cmd == Cmd.framebuffertexture1d
    then pop5 framebuffer_texture1_d ws
    else if cmd == Cmd.framebuffertexture2d
    then pop5 framebuffer_texture2_d ws
    else if cmd == Cmd.framebuffertexture3d
    then pop6 framebuffer_texture3_d ws
    else if cmd == Cmd.framebufferrenderbuffer
    then pop4 framebuffer_renderbuffer ws
    else if cmd == Cmd.generatemipmap
    then pop1 generate_mipmap ws
    else if cmd == Cmd.blitframebuffer
    then pop10 blit_framebuffer ws
    else if cmd == Cmd.renderbufferstoragemultisample
    then pop5 renderbuffer_storage_multisample ws
    else if cmd == Cmd.framebuffertexturelayer
    then pop5 framebuffer_texture_layer ws
    else other
