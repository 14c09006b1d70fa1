-- ===== src/Commands/Attribs.antt =====
-- The attribute format and transform feedback buffer functions: glVertexAttribFormat to
-- glCopyNamedBufferSubData of src/client/glimpl.c, and their cases in the command switch of
-- src/server/processor.c.
use sharedgl.Prelude.{ℕ, List, [], ◌∷◌, ◌==◌, if◌then◌else◌}
use sharedgl.Pb.{int_to_size}
use sharedgl.Commands.Cmd
use sharedgl.Commands.Decode.{Decoded, off_stream, other, pop0, pop2, pop3, pop4, pop5, low32}

-- A call with its arguments; a float is its bit pattern, a narrower integer its `int`.
pub data AttribCall : Type 0 where
  vertex_attrib_format : (attribindex size type normalized relativeoffset : ℕ) → AttribCall
  vertex_attrib_i_format : (attribindex size type relativeoffset : ℕ) → AttribCall
  vertex_attrib_l_format : (attribindex size type relativeoffset : ℕ) → AttribCall
  vertex_attrib_binding : (attribindex bindingindex : ℕ) → AttribCall
  vertex_binding_divisor : (bindingindex divisor : ℕ) → AttribCall
  pop_debug_group : AttribCall
  clip_control : (origin depth : ℕ) → AttribCall
  transform_feedback_buffer_base : (xfb index buffer : ℕ) → AttribCall
  transform_feedback_buffer_range : (xfb index buffer offset size : ℕ) → AttribCall
  copy_named_buffer_sub_data :
      (read_buffer write_buffer read_offset write_offset size : ℕ) → AttribCall

-- The words that the client's function pushes, in order.
unfoldable pub attrib_words : AttribCall → List ℕ
attrib_words (vertex_attrib_format attribindex size type normalized relativeoffset) =
    Cmd.vertexattribformat ∷ attribindex ∷ size ∷ type ∷ normalized ∷ relativeoffset ∷ []
attrib_words (vertex_attrib_i_format attribindex size type relativeoffset) =
    Cmd.vertexattribiformat ∷ attribindex ∷ size ∷ type ∷ relativeoffset ∷ []
attrib_words (vertex_attrib_l_format attribindex size type relativeoffset) =
    Cmd.vertexattriblformat ∷ attribindex ∷ size ∷ type ∷ relativeoffset ∷ []
attrib_words (vertex_attrib_binding attribindex bindingindex) =
    Cmd.vertexattribbinding ∷ attribindex ∷ bindingindex ∷ []
attrib_words (vertex_binding_divisor bindingindex divisor) =
    Cmd.vertexbindingdivisor ∷ bindingindex ∷ divisor ∷ []
attrib_words pop_debug_group = Cmd.popdebuggroup ∷ []
attrib_words (clip_control origin depth) = Cmd.clipcontrol ∷ origin ∷ depth ∷ []
attrib_words (transform_feedback_buffer_base xfb index buffer) =
    Cmd.transformfeedbackbufferbase ∷ xfb ∷ index ∷ buffer ∷ []
attrib_words (transform_feedback_buffer_range xfb index buffer offset size) =
    Cmd.transformfeedbackbufferrange ∷ xfb ∷ index ∷ buffer ∷ low32 offset ∷ low32 size ∷ []
attrib_words (copy_named_buffer_sub_data read_buffer write_buffer read_offset write_offset size) =
    Cmd.copynamedbuffersubdata
    ∷ read_buffer
    ∷ write_buffer
    ∷ low32 read_offset
    ∷ low32 write_offset
    ∷ low32 size
    ∷ []

-- The cases of the switch: `other` where the command is none of them.
unfoldable pub exec_attrib : List ℕ → Decoded AttribCall
exec_attrib [] = off_stream
exec_attrib (cmd ∷ ws) =
    if cmd == Cmd.vertexattribformat
    then pop5 vertex_attrib_format ws
    else if cmd == Cmd.vertexattribiformat
    then pop4 vertex_attrib_i_format ws
    else if cmd == Cmd.vertexattriblformat
    then pop4 vertex_attrib_l_format ws
    else if cmd == Cmd.vertexattribbinding
    then pop2 vertex_attrib_binding ws
    else if cmd == Cmd.vertexbindingdivisor
    then pop2 vertex_binding_divisor ws
    else if cmd == Cmd.popdebuggroup
    then pop0 pop_debug_group ws
    else if cmd == Cmd.clipcontrol
    then pop2 clip_control ws
    else if cmd == Cmd.transformfeedbackbufferbase
    then pop3 transform_feedback_buffer_base ws
    else if cmd == Cmd.transformfeedbackbufferrange
    then pop5
        (λ xfb index buffer offset size.
          transform_feedback_buffer_range xfb index buffer (int_to_size offset) (int_to_size size))
        ws
    else if cmd == Cmd.copynamedbuffersubdata
    then pop5
        (λ read_buffer write_buffer read_offset write_offset size.
          copy_named_buffer_sub_data read_buffer write_buffer (int_to_size read_offset)
            (int_to_size write_offset) (int_to_size size))
        ws
    else other
