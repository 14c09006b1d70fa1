-- ===== src/Commands/Barriers.antt =====
-- The vertex array attribute, query buffer and barrier functions: glVertexArrayAttribBinding to
-- glMemoryBarrierByRegion of src/client/glimpl.c, and their cases in the command switch of
-- src/server/processor.c.
use sharedgl.Prelude.{ℕ, List, [], ◌∷◌, ◌==◌, if◌then◌else◌}
use sharedgl.Pb.{int_to_size}
use sharedgl.Commands.Cmd
use sharedgl.Commands.Decode.{Decoded, off_stream, other, pop1, pop3, pop4, pop5, pop6, low32}

-- A call with its arguments; a float is its bit pattern, a narrower integer its `int`.
pub data BarrierCall : Type 0 where
  vertex_array_attrib_binding : (vaobj attribindex bindingindex : ℕ) → BarrierCall
  vertex_array_attrib_format :
      (vaobj attribindex size type normalized relativeoffset : ℕ) → BarrierCall
  vertex_array_attrib_i_format : (vaobj attribindex size type relativeoffset : ℕ) → BarrierCall
  vertex_array_attrib_l_format : (vaobj attribindex size type relativeoffset : ℕ) → BarrierCall
  vertex_array_binding_divisor : (vaobj bindingindex divisor : ℕ) → BarrierCall
  get_query_buffer_objecti64v : (id buffer pname offset : ℕ) → BarrierCall
  get_query_buffer_objectiv : (id buffer pname offset : ℕ) → BarrierCall
  get_query_buffer_objectui64v : (id buffer pname offset : ℕ) → BarrierCall
  get_query_buffer_objectuiv : (id buffer pname offset : ℕ) → BarrierCall
  memory_barrier_by_region : (barriers : ℕ) → BarrierCall

-- The words that the client's function pushes, in order.
unfoldable pub barrier_words : BarrierCall → List ℕ
barrier_words (vertex_array_attrib_binding vaobj attribindex bindingindex) =
    Cmd.vertexarrayattribbinding ∷ vaobj ∷ attribindex ∷ bindingindex ∷ []
barrier_words (vertex_array_attrib_format vaobj attribindex size type normalized relativeoffset) =
    Cmd.vertexarrayattribformat ∷ vaobj ∷ attribindex ∷ size ∷ type ∷ normalized ∷ relativeoffset
    ∷ []
barrier_words (vertex_array_attrib_i_format vaobj attribindex size type relativeoffset) =
    Cmd.vertexarrayattribiformat ∷ vaobj ∷ attribindex ∷ size ∷ type ∷ relativeoffset ∷ []
barrier_words (vertex_array_attrib_l_format vaobj attribindex size type relativeoffset) =
    Cmd.vertexarrayattriblformat ∷ vaobj ∷ attribindex ∷ size ∷ type ∷ relativeoffset ∷ []
barrier_words (vertex_array_binding_divisor vaobj bindingindex divisor) =
    Cmd.vertexarraybindingdivisor ∷ vaobj ∷ bindingindex ∷ divisor ∷ []
barrier_words (get_query_buffer_objecti64v id buffer pname offset) =
    Cmd.getquerybufferobjecti64v ∷ id ∷ buffer ∷ pname ∷ low32 offset ∷ []
barrier_words (get_query_buffer_objectiv id buffer pname offset) =
    Cmd.getquerybufferobjectiv ∷ id ∷ buffer ∷ pname ∷ low32 offset ∷ []
barrier_words (get_query_buffer_objectui64v id buffer pname offset) =
    Cmd.getquerybufferobjectui64v ∷ id ∷ buffer ∷ pname ∷ low32 offset ∷ []
barrier_words (get_query_buffer_objectuiv id buffer pname offset) =
    Cmd.getquerybufferobjectuiv ∷ id ∷ buffer ∷ pname ∷ low32 offset ∷ []
barrier_words (memory_barrier_by_region barriers) = Cmd.memorybarrierbyregion ∷ barriers ∷ []

-- The cases of the switch: `other` where the command is none of them.
unfoldable pub exec_barrier : List ℕ → Decoded BarrierCall
exec_barrier [] = off_stream
exec_barrier (cmd ∷ ws) =
    if cmd == Cmd.vertexarrayattribbinding
    then pop3 vertex_array_attrib_binding ws
    else if cmd == Cmd.vertexarrayattribformat
    then pop6 vertex_array_attrib_format ws
    else if cmd == Cmd.vertexarrayattribiformat
    then pop5 vertex_array_attrib_i_format ws
    else if cmd == Cmd.vertexarrayattriblformat
    then pop5 vertex_array_attrib_l_format ws
    else if cmd == Cmd.vertexarraybindingdivisor
    then pop3 vertex_array_binding_divisor ws
    else if cmd == Cmd.getquerybufferobjecti64v
    then pop4
        (λ id buffer pname offset. get_query_buffer_objecti64v id buffer pname (int_to_size offset))
        ws
    else if cmd == Cmd.getquerybufferobjectiv
    then pop4
        (λ id buffer pname offset. get_query_buffer_objectiv id buffer pname (int_to_size offset))
        ws
    else if cmd == Cmd.getquerybufferobjectui64v
    then pop4
        (λ id buffer pname offset.
          get_query_buffer_objectui64v id buffer pname (int_to_size offset))
        ws
    else if cmd == Cmd.getquerybufferobjectuiv
    then pop4
        (λ id buffer pname offset. get_query_buffer_objectuiv id buffer pname (int_to_size offset))
        ws
    else if cmd == Cmd.memorybarrierbyregion
    then pop1 memory_barrier_by_region ws
    else other
