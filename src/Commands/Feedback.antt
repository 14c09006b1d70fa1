-- ===== src/Commands/Feedback.antt =====
-- The transform feedback, integer attribute and clear functions: glBeginTransformFeedback to
-- glClearBufferfi of src/client/glimpl.c, and their cases in the command switch of
-- src/server/processor.c.
use sharedgl.Prelude.{ℕ, List, [], ◌∷◌, ◌==◌, if◌then◌else◌}
use sharedgl.Pb.{int_to_size}
use sharedgl.Commands.Cmd
use sharedgl.Commands.Decode.{Decoded, off_stream, other, pop0, pop1, pop2, pop3, pop4, pop5, low32}

-- A call with its arguments; a float is its bit pattern, a narrower integer its `int`.
pub data FeedbackCall : Type 0 where
  begin_transform_feedback : (primitive_mode : ℕ) → FeedbackCall
  end_transform_feedback : FeedbackCall
  bind_buffer_range : (target index buffer offset size : ℕ) → FeedbackCall
  bind_buffer_base : (target index buffer : ℕ) → FeedbackCall
  clamp_color : (target clamp : ℕ) → FeedbackCall
  begin_conditional_render : (id mode : ℕ) → FeedbackCall
  end_conditional_render : FeedbackCall
  vertex_attrib_i1i : (index x : ℕ) → FeedbackCall
  vertex_attrib_i2i : (index x y : ℕ) → FeedbackCall
  vertex_attrib_i3i : (index x y z : ℕ) → FeedbackCall
  vertex_attrib_i4i : (index x y z w : ℕ) → FeedbackCall
  vertex_attrib_i1ui : (index x : ℕ) → FeedbackCall
  vertex_attrib_i2ui : (index x y : ℕ) → FeedbackCall
  vertex_attrib_i3ui : (index x y z : ℕ) → FeedbackCall
  vertex_attrib_i4ui : (index x y z w : ℕ) → FeedbackCall
  uniform1ui : (location v0 : ℕ) → FeedbackCall
  uniform2ui : (location v0 v1 : ℕ) → FeedbackCall
  uniform3ui : (location v0 v1 v2 : ℕ) → FeedbackCall
  uniform4ui : (location v0 v1 v2 v3 : ℕ) → FeedbackCall
  clear_bufferfi : (buffer drawbuffer depth stencil : ℕ) → FeedbackCall

-- The words that the client's function pushes, in order.
unfoldable pub feedback_words : FeedbackCall → List ℕ
feedback_words (begin_transform_feedback primitive_mode) =
    Cmd.begintransformfeedback ∷ primitive_mode ∷ []
feedback_words end_transform_feedback = Cmd.endtransformfeedback ∷ []
feedback_words (bind_buffer_range target index buffer offset size) =
    Cmd.bindbufferrange ∷ target ∷ index ∷ buffer ∷ low32 offset ∷ low32 size ∷ []
feedback_words (bind_buffer_base target index buffer) =
    Cmd.bindbufferbase ∷ target ∷ index ∷ buffer ∷ []
feedback_words (clamp_color target clamp) = Cmd.clampcolor ∷ target ∷ clamp ∷ []
feedback_words (begin_conditional_render id mode) = Cmd.beginconditionalrender ∷ id ∷ mode ∷ []
feedback_words end_conditional_render = Cmd.endconditionalrender ∷ []
feedback_words (vertex_attrib_i1i index x) = Cmd.vertexattribi1i ∷ index ∷ x ∷ []
feedback_words (vertex_attrib_i2i index x y) = Cmd.vertexattribi2i ∷ index ∷ x ∷ y ∷ []
feedback_words (vertex_attrib_i3i index x y z) = Cmd.vertexattribi3i ∷ index ∷ x ∷ y ∷ z ∷ []
feedback_words (vertex_attrib_i4i index x y z w) = Cmd.vertexattribi4i ∷ index ∷ x ∷ y ∷ z ∷ w ∷ []
feedback_words (vertex_attrib_i1ui index x) = Cmd.vertexattribi1ui ∷ index ∷ x ∷ []
feedback_words (vertex_attrib_i2ui index x y) = Cmd.vertexattribi2ui ∷ index ∷ x ∷ y ∷ []
feedback_words (vertex_attrib_i3ui index x y z) = Cmd.vertexattribi3ui ∷ index ∷ x ∷ y ∷ z ∷ []
feedback_words (vertex_attrib_i4ui index x y z w) =
    Cmd.vertexattribi4ui ∷ index ∷ x ∷ y ∷ z ∷ w ∷ []
feedback_words (uniform1ui location v0) = Cmd.uniform1ui ∷ location ∷ v0 ∷ []
feedback_words (uniform2ui location v0 v1) = Cmd.uniform2ui ∷ location ∷ v0 ∷ v1 ∷ []
feedback_words (uniform3ui location v0 v1 v2) = Cmd.uniform3ui ∷ location ∷ v0 ∷ v1 ∷ v2 ∷ []
feedback_words (uniform4ui location v0 v1 v2 v3) =
    Cmd.uniform4ui ∷ location ∷ v0 ∷ v1 ∷ v2 ∷ v3 ∷ []
feedback_words (clear_bufferfi buffer drawbuffer depth stencil) =
    Cmd.clearbufferfi ∷ buffer ∷ drawbuffer ∷ depth ∷ stencil ∷ []

-- The cases of the switch: `other` where the command is none of them.
unfoldable pub exec_feedback : List ℕ → Decoded FeedbackCall
exec_feedback [] = off_stream
exec_feedback (cmd ∷ ws) =
    if cmd == Cmd.begintransformfeedback
    then pop1 begin_transform_feedback ws
    else if cmd == Cmd.endtransformfeedback
    then pop0 end_transform_feedback ws
    else if cmd == Cmd.bindbufferrange
    then pop5
        (λ target index buffer offset size.
          bind_buffer_range target index buffer (int_to_size offset) (int_to_size size))
        ws
    else if cmd == Cmd.bindbufferbase
    then pop3 bind_buffer_base ws
    else if cmd == Cmd.clampcolor
    then pop2 clamp_color ws
    else if cmd == Cmd.beginconditionalrender
    then pop2 begin_conditional_render ws
    else if cmd == Cmd.endconditionalrender
    then pop0 end_conditional_render ws
    else if cmd == Cmd.vertexattribi1i
    then pop2 vertex_attrib_i1i ws
    else if cmd == Cmd.vertexattribi2i
    then pop3 vertex_attrib_i2i ws
    else if cmd == Cmd.vertexattribi3i
    then pop4 vertex_attrib_i3i ws
    else if cmd == Cmd.vertexattribi4i
    then pop5 vertex_attrib_i4i ws
    else if cmd == Cmd.vertexattribi1ui
    then pop2 vertex_attrib_i1ui ws
    else if cmd == Cmd.vertexattribi2ui
    then pop3 vertex_attrib_i2ui ws
    else if cmd == Cmd.vertexattribi3ui
    then pop4 vertex_attrib_i3ui ws
    else if cmd == Cmd.vertexattribi4ui
    then pop5 vertex_attrib_i4ui ws
    else if cmd == Cmd.uniform1ui
    then pop2 uniform1ui ws
    else if cmd == Cmd.uniform2ui
    then pop3 uniform2ui ws
    else if cmd == Cmd.uniform3ui
    then pop4 uniform3ui ws
    else if cmd == Cmd.uniform4ui
    then pop5 uniform4ui ws
    else if cmd == Cmd.clearbufferfi
    then pop4 clear_bufferfi ws
    else other
