-- ===== src/Server/Tests.antt =====
-- Tests and instances for the server's command loop.
use sharedgl.Prelude.{
  ℕ, suc, ◌+◌, ◌<◌, ◌≡◌, arith, List, [], ◌∷◌, ◌++◌, false, none, some, refl, length,
}
use sharedgl.Commands.Cmd
use sharedgl.Commands.Objects.{create_program, delete_buffers, clear, object_words, for_each}
use sharedgl.Commands.Feedback.{bind_buffer_range, feedback_words}
use sharedgl.Commands.Values.{uniform_matrix2x3fv, value_count, value_words, command_words}
use sharedgl.Commands.Texels.{
  tex_image2_d, texel_stream, texel_words, texel_span, texture_image_words,
}
use sharedgl.Commands.SubImages.{compressed_tex_sub_image2_d, sub_image_stream}
use sharedgl.Pb.{int_to_size}
use sharedgl.Pixels.{
  first_store, get_pixel_transfer_span, row_stride, image_stride, start_offset, align_size,
  get_pixel_size, get_pixel_component_count, type_size,
}
use sharedgl.Server.Uploads.{IsUpload, IsTexels, with_data}
use sharedgl.Server.SubImages.{run-compressed_sub_image2_d}
use sharedgl.Server.{Effect, Server, run, finished}
use sharedgl.Server.Client.{
  ClientCall, gl_object, gl_feedback, gl_values, gl_texels, goodbye, swap_buffers, client_words,
  stream_words, swap_words, goodbye_words, vertexattrib4ubv_words, perform_all,
}
use sharedgl.Server.Stream.{run-stream_words, run-vertexattrib4ubv}

abbrev pub idle : Server
idle = record {
  trace = [];
  net = false;
  width = 640;
  height = 480;
  uploaded = none;
  retval = 0;
  release_client_slot = 0;
  expecting_retval = false;
  did_swap_buffers = false;
}

-- A driver that numbers its programs.
abbrev pub counting : List Effect → ℕ
counting = length

abbrev frame : List ClientCall
frame =
    gl_object (clear 16384)
    ∷ gl_object create_program
    ∷ gl_object (delete_buffers (4 ∷ 5 ∷ []))
    ∷ gl_feedback (bind_buffer_range 35982 0 4 16 64)
    ∷ swap_buffers 640 480 1 6408
    ∷ gl_values (uniform_matrix2x3fv 3 1 0) (1 ∷ 2 ∷ 3 ∷ 4 ∷ 5 ∷ 6 ∷ [])
    ∷ gl_texels first_store (tex_image2_d 3553 0 6408 1 1 0 6408 5121) (some (77 ∷ []))
    ∷ gl_texels first_store (tex_image2_d 3553 0 6408 8 8 0 6408 5121) none
    ∷ goodbye 3
    ∷ []

frame-size : length (stream_words frame) < 99
unfolding stream_words client_words object_words for_each feedback_words swap_words goodbye_words
    value_words command_words texel_stream texel_words texture_image_words
frame-size = omega arith

six : IsUpload (value_count (uniform_matrix2x3fv 3 1 0)) (1 ∷ 2 ∷ 3 ∷ 4 ∷ 5 ∷ 6 ∷ [])
unfolding value_count
six = (refl, omega arith)

texel : IsTexels first_store (tex_image2_d 3553 0 6408 1 1 0 6408 5121) (some (77 ∷ []))
unfolding texel_span get_pixel_transfer_span row_stride image_stride start_offset align_size
    get_pixel_size get_pixel_component_count type_size int_to_size
texel = (refl, omega arith)

run-stream_words_example :
    run counting 99
      (length (stream_words frame) + suc 0)
      idle
      (stream_words frame ++ (Cmd.invalid ∷ []))
    ≡ finished (perform_all counting 0 frame idle) []
run-stream_words_example =
    run-stream_words counting frame 99 idle []
      (tt, (tt, (tt, ((omega arith, omega arith), (tt, (six, (texel, (tt, (tt, tt)))))))))
      frame-size

run-vertexattrib4ubv_example :
    run counting 9 9 idle (vertexattrib4ubv_words 0 10 20 30 255 ++ (Cmd.invalid ∷ []))
    ≡ finished idle (10 ∷ 20 ∷ 30 ∷ 255 ∷ Cmd.invalid ∷ [])
run-vertexattrib4ubv_example =
    run-vertexattrib4ubv counting 9 9 10 20 30 255 idle (Cmd.invalid ∷ []) (omega arith)

-- The clearing behind is lost.
run-compressed_sub_image2_d_example :
    run counting 9 30 idle (
      sub_image_stream Cmd.compressedtexsubimage2d 2 3553 0
        (0 ∷ 0 ∷ 0 ∷ [])
        (4 ∷ 4 ∷ 0 ∷ [])
        33776
        8
        (5 ∷ 6 ∷ [])
      ++ (Cmd.clear ∷ 16384 ∷ Cmd.invalid ∷ []))
    ≡ run counting 7 30
        (with_data counting idle
          (some (5 ∷ 6 ∷ []))
          (Effect.sub_image (compressed_tex_sub_image2_d 3553 0 0 0 4 33776 Cmd.clear 16384)))
        (Cmd.invalid ∷ [])
run-compressed_sub_image2_d_example =
    run-compressed_sub_image2_d counting 3553 0 0 0 4 4 33776 8 Cmd.clear 16384 7 30 idle
      (5 ∷ 6 ∷ []) (Cmd.invalid ∷ []) refl (omega arith)
