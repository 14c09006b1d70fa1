-- ===== src/Commands/NamedTargets.antt =====
-- The named framebuffer functions: glNamedFramebufferRenderbuffer to glBlitNamedFramebuffer of
-- src/client/glimpl.c, and their cases in the command switch of src/server/processor.c.
use sharedgl.Prelude.{ℕ, List, [], ◌∷◌, ◌==◌, if◌then◌else◌}
use sharedgl.Commands.Cmd
use sharedgl.Commands.Decode.{Decoded, off_stream, other, pop2, pop3, pop4, pop5, pop12}

-- A call with its arguments; a float is its bit pattern, a narrower integer its `int`.
pub data NamedCall : Type 0 where
  named_framebuffer_renderbuffer :
      (framebuffer attachment renderbuffertarget renderbuffer : ℕ) → NamedCall
  named_framebuffer_parameteri : (framebuffer pname param : ℕ) → NamedCall
  named_framebuffer_texture : (framebuffer attachment texture level : ℕ) → NamedCall
  named_framebuffer_texture_layer : (framebuffer attachment texture level layer : ℕ) → NamedCall
  named_framebuffer_draw_buffer : (framebuffer buf : ℕ) → NamedCall
  named_framebuffer_read_buffer : (framebuffer src : ℕ) → NamedCall
  clear_named_framebufferfi : (framebuffer buffer drawbuffer depth stencil : ℕ) → NamedCall
  blit_named_framebuffer :
      (read_framebuffer draw_framebuffer src_x0 src_y0 src_x1 src_y1 dst_x0 dst_y0 dst_x1 dst_y1
        mask filter : ℕ)
      → NamedCall

-- The words that the client's function pushes, in order.
unfoldable pub named_words : NamedCall → List ℕ
named_words
      (named_framebuffer_renderbuffer framebuffer attachment renderbuffertarget renderbuffer) =
    Cmd.namedframebufferrenderbuffer ∷ framebuffer ∷ attachment ∷ renderbuffertarget ∷ renderbuffer
    ∷ []
named_words (named_framebuffer_parameteri framebuffer pname param) =
    Cmd.namedframebufferparameteri ∷ framebuffer ∷ pname ∷ param ∷ []
named_words (named_framebuffer_texture framebuffer attachment texture level) =
    Cmd.namedframebuffertexture ∷ framebuffer ∷ attachment ∷ texture ∷ level ∷ []
named_words (named_framebuffer_texture_layer framebuffer attachment texture level layer) =
    Cmd.namedframebuffertexturelayer ∷ framebuffer ∷ attachment ∷ texture ∷ level ∷ layer ∷ []
named_words (named_framebuffer_draw_buffer framebuffer buf) =
    Cmd.namedframebufferdrawbuffer ∷ framebuffer ∷ buf ∷ []
named_words (named_framebuffer_read_buffer framebuffer src) =
    Cmd.namedframebufferreadbuffer ∷ framebuffer ∷ src ∷ []
named_words (clear_named_framebufferfi framebuffer buffer drawbuffer depth stencil) =
    Cmd.clearnamedframebufferfi ∷ framebuffer ∷ buffer ∷ drawbuffer ∷ depth ∷ stencil ∷ []
named_words
      (blit_named_framebuffer read_framebuffer draw_framebuffer src_x0 src_y0 src_x1 src_y1 dst_x0
        dst_y0 dst_x1 dst_y1 mask filter) =
    Cmd.blitnamedframebuffer ∷ read_framebuffer ∷ draw_framebuffer ∷ src_x0 ∷ src_y0 ∷ src_x1
    ∷ src_y1 ∷ dst_x0 ∷ dst_y0 ∷ dst_x1 ∷ dst_y1 ∷ mask ∷ filter ∷ []

-- The cases of the switch: `other` where the command is none of them.
unfoldable pub exec_named : List ℕ → Decoded NamedCall
exec_named [] = off_stream
exec_named (cmd ∷ ws) =
    if cmd == Cmd.namedframebufferrenderbuffer
    then pop4 named_framebuffer_renderbuffer ws
    else if cmd == Cmd.namedframebufferparameteri
    then pop3 named_framebuffer_parameteri ws
    else if cmd == Cmd.namedframebuffertexture
    then pop4 named_framebuffer_texture ws
    else if cmd == Cmd.namedframebuffertexturelayer
    then pop5 named_framebuffer_texture_layer ws
    else if cmd == Cmd.namedframebufferdrawbuffer
    then pop2 named_framebuffer_draw_buffer ws
    else if cmd == Cmd.namedframebufferreadbuffer
    then pop2 named_framebuffer_read_buffer ws
    else if cmd == Cmd.clearnamedframebufferfi
    then pop5 clear_named_framebufferfi ws
    else if cmd == Cmd.blitnamedframebuffer
    then pop12 blit_named_framebuffer ws
    else other
