-- ===== src/Commands/Images.antt =====
-- The image, texture storage and indirect functions: glBindImageTexture to
-- glFramebufferParameteri of src/client/glimpl.c, and their cases in the command switch of
-- src/server/processor.c.
use sharedgl.Prelude.{ℕ, List, [], ◌∷◌, ◌==◌, if◌then◌else◌}
use sharedgl.Pb.{int_to_size}
use sharedgl.Commands.Cmd
use sharedgl.Commands.Decode.{
  Decoded, off_stream, other, pop1, pop3, pop4, pop5, pop6, pop7, pop15, low32,
}

-- A call with its arguments; a float is its bit pattern, a narrower integer its `int`.
pub data ImageCall : Type 0 where
  bind_image_texture : (unit texture level layered layer access format : ℕ) → ImageCall
  memory_barrier : (barriers : ℕ) → ImageCall
  tex_storage1_d : (target levels internalformat width : ℕ) → ImageCall
  tex_storage2_d : (target levels internalformat width height : ℕ) → ImageCall
  tex_storage3_d : (target levels internalformat width height depth : ℕ) → ImageCall
  draw_transform_feedback_instanced : (mode id instancecount : ℕ) → ImageCall
  draw_transform_feedback_stream_instanced : (mode id stream instancecount : ℕ) → ImageCall
  dispatch_compute_indirect : (indirect : ℕ) → ImageCall
  copy_image_sub_data :
      (src_name src_target src_level src_x src_y src_z dst_name dst_target dst_level dst_x dst_y
        dst_z src_width src_height src_depth : ℕ)
      → ImageCall
  framebuffer_parameteri : (target pname param : ℕ) → ImageCall

-- The words that the client's function pushes, in order.
unfoldable pub image_words : ImageCall → List ℕ
image_words (bind_image_texture unit texture level layered layer access format) =
    Cmd.bindimagetexture ∷ unit ∷ texture ∷ level ∷ layered ∷ layer ∷ access ∷ format ∷ []
image_words (memory_barrier barriers) = Cmd.memorybarrier ∷ barriers ∷ []
image_words (tex_storage1_d target levels internalformat width) =
    Cmd.texstorage1d ∷ target ∷ levels ∷ internalformat ∷ width ∷ []
image_words (tex_storage2_d target levels internalformat width height) =
    Cmd.texstorage2d ∷ target ∷ levels ∷ internalformat ∷ width ∷ height ∷ []
image_words (tex_storage3_d target levels internalformat width height depth) =
    Cmd.texstorage3d ∷ target ∷ levels ∷ internalformat ∷ width ∷ height ∷ depth ∷ []
image_words (draw_transform_feedback_instanced mode id instancecount) =
    Cmd.drawtransformfeedbackinstanced ∷ mode ∷ id ∷ instancecount ∷ []
image_words (draw_transform_feedback_stream_instanced mode id stream instancecount) =
    Cmd.drawtransformfeedbackstreaminstanced ∷ mode ∷ id ∷ stream ∷ instancecount ∷ []
image_words (dispatch_compute_indirect indirect) = Cmd.dispatchcomputeindirect ∷ low32 indirect ∷ []
image_words
      (copy_image_sub_data src_name src_target src_level src_x src_y src_z dst_name dst_target
        dst_level dst_x dst_y dst_z src_width src_height src_depth) =
    Cmd.copyimagesubdata ∷ src_name ∷ src_target ∷ src_level ∷ src_x ∷ src_y ∷ src_z ∷ dst_name
    ∷ dst_target ∷ dst_level ∷ dst_x ∷ dst_y ∷ dst_z ∷ src_width ∷ src_height ∷ src_depth ∷ []
image_words (framebuffer_parameteri target pname param) =
    Cmd.framebufferparameteri ∷ target ∷ pname ∷ param ∷ []

-- The cases of the switch: `other` where the command is none of them.
unfoldable pub exec_image : List ℕ → Decoded ImageCall
exec_image [] = off_stream
exec_image (cmd ∷ ws) =
    if cmd == Cmd.bindimagetexture
    then pop7 bind_image_texture ws
    else if cmd == Cmd.memorybarrier
    then pop1 memory_barrier ws
    else if cmd == Cmd.texstorage1d
    then pop4 tex_storage1_d ws
    else if cmd == Cmd.texstorage2d
    then pop5 tex_storage2_d ws
    else if cmd == Cmd.texstorage3d
    then pop6 tex_storage3_d ws
    else if cmd == Cmd.drawtransformfeedbackinstanced
    then pop3 draw_transform_feedback_instanced ws
    else if cmd == Cmd.drawtransformfeedbackstreaminstanced
    then pop4 draw_transform_feedback_stream_instanced ws
    else if cmd == Cmd.dispatchcomputeindirect
    then pop1 (λ indirect. dispatch_compute_indirect (int_to_size indirect)) ws
    else if cmd == Cmd.copyimagesubdata
    then pop15 copy_image_sub_data ws
    else if cmd == Cmd.framebufferparameteri
    then pop3 framebuffer_parameteri ws
    else other
