-- ===== src/Server/Stream.antt =====
-- A submission as a whole: the server does what the client called, in order.
use mathlib.Core.List.{append_assoc}
use native.Mathlib.Nat.{add_assoc}
use sharedgl.Prelude.{
  ℕ, zero, suc, ◌+◌, ◌-◌, ◌<◌, ◌≤◌, ◌≡◌, refl, ap, ◌∙◌, List, [], ◌∷◌, ◌++◌, length, length-append,
  arith,
}
use sharedgl.Commands.Cmd
use sharedgl.Commands.Objects.{
  ObjectCall, call_list, delete_buffers, delete_textures, delete_vertex_arrays, object_words,
  for_each, exec_object,
}
use sharedgl.Commands.Stencil.{exec_stencil}
use sharedgl.Commands.Lighting.{exec_lighting}
use sharedgl.Commands.Names.{exec_names}
use sharedgl.Commands.Evaluators.{exec_evaluator}
use sharedgl.Commands.Uniforms.{exec_uniform}
use sharedgl.Commands.Feedback.{exec_feedback}
use sharedgl.Commands.Framebuffers.{exec_framebuffer}
use sharedgl.Commands.Samplers.{exec_sampler}
use sharedgl.Commands.Packed.{exec_packed}
use sharedgl.Commands.Pipelines.{exec_pipeline}
use sharedgl.Commands.Textures.{exec_texture}
use sharedgl.Commands.Images.{exec_image}
use sharedgl.Commands.Storages.{exec_storage}
use sharedgl.Commands.Attribs.{exec_attrib}
use sharedgl.Commands.NamedTargets.{exec_named}
use sharedgl.Commands.Barriers.{exec_barrier}
use sharedgl.Commands.Rasters.{exec_raster}
use sharedgl.Commands.Matrices.{exec_matrix}
use sharedgl.Commands.Scales.{exec_scale}
use sharedgl.Commands.Coordinates.{exec_coordinate}
use sharedgl.Commands.Secondaries.{exec_secondary}
use sharedgl.Commands.Values.{exec_values, value_words}
use sharedgl.Commands.Texels.{exec_texels}
use sharedgl.Commands.SubImages.{exec_sub_image, sub_image_stream}
use sharedgl.Server.Uploads.{value_words-step, texel_stream-step, texel_stream-size}
use sharedgl.Server.SubImages.{sub_image_stream-step}
use sharedgl.Server.{Effect, Server, exec_internal, exec_gl, exec, run, gl_call, finished, effect}
use sharedgl.Server.Rounds
use sharedgl.Server.Sizes
use sharedgl.Server.Client.{
  ClientCall, gl_object, gl_stencil, gl_lighting, gl_names, gl_evaluator, gl_uniform, gl_feedback,
  gl_framebuffer, gl_sampler, gl_packed, gl_pipeline, gl_texture, gl_image, gl_storage, gl_attrib,
  gl_named, gl_barrier, gl_raster, gl_matrix, gl_scale, gl_coordinate, gl_secondary, gl_values,
  compressed_sub_image, gl_texels, create_context, swap_buffers, goodbye, client_words,
  vertexattrib4ubv_words, swap_words, goodbye_words, stream_words, IsNarrow, AllNarrow, each,
  perform_object, perform, perform_all,
}

-- The rounds of the loop that a call takes.
abbrev pub object_rounds : ObjectCall → ℕ
object_rounds (delete_buffers buffers) = length buffers
object_rounds (delete_textures textures) = length textures
object_rounds (delete_vertex_arrays arrays) = length arrays
object_rounds _ = 1

abbrev pub rounds : ClientCall → ℕ
rounds (gl_object c) = object_rounds c
rounds (gl_values c values) = 2
rounds (gl_texels store c pixels) = 2
rounds (compressed_sub_image t l x y z w h d f size values) = 2
rounds _ = 1

zero-add-suc : (n : ℕ) → 0 + suc n ≡ suc n
zero-add-suc n = omega arith

two-add : (n : ℕ) → 2 + n ≡ suc (suc n)
two-add n = omega arith

one-add : (n : ℕ) → 1 + n ≡ suc n
one-add n = omega arith

swap-total :
    (pos total k w h v f : ℕ) → total ≡ pos + length (swap_words w h v f) + k → total ≡ pos + 5 + k
unfolding swap_words
swap-total pos total k w h v f e = e

abbrev all_rounds : List ClientCall → ℕ
all_rounds [] = 0
all_rounds (c ∷ cs) = rounds c + all_rounds cs

for_each-length : (cmd : ℕ) (os : List ℕ) → length os ≤ length (for_each cmd os)
unfolding for_each
for_each-length cmd [] = omega arith
for_each-length cmd (o ∷ os) = omega (arith, for_each-length cmd os)

object_rounds-le : (c : ObjectCall) → object_rounds c ≤ length (object_words c)
unfolding object_words
object_rounds-le (delete_buffers os) = for_each-length Cmd.deletebuffers os
object_rounds-le (delete_textures os) = for_each-length Cmd.deletetextures os
object_rounds-le (delete_vertex_arrays os) = for_each-length Cmd.deletevertexarrays os
object_rounds-le (call_list list) = omega arith
object_rounds-le _ = omega arith

module _ (driver : List Effect → ℕ) where
  buffers-step :
      (os : List ℕ) (fuel total : ℕ) (s : Server) (rest : List ℕ)
      → run driver (length os + fuel) total s (for_each Cmd.deletebuffers os ++ rest)
        ≡ run driver fuel total (each driver delete_buffers os s) rest
  unfolding run exec exec_internal exec_gl exec_object for_each
  buffers-step [] fuel total s rest = ap (λ k. run driver k total s rest) (omega arith)
  buffers-step (o ∷ os) fuel total s rest =
      let e : suc (length os) + fuel ≡ suc (length os + fuel) = omega arith in
      rw e (
        buffers-step os fuel total (gl_call driver s (Effect.object (delete_buffers (o ∷ []))))
          rest)

  textures-step :
      (os : List ℕ) (fuel total : ℕ) (s : Server) (rest : List ℕ)
      → run driver (length os + fuel) total s (for_each Cmd.deletetextures os ++ rest)
        ≡ run driver fuel total (each driver delete_textures os s) rest
  unfolding run exec exec_internal exec_gl exec_object for_each
  textures-step [] fuel total s rest = ap (λ k. run driver k total s rest) (omega arith)
  textures-step (o ∷ os) fuel total s rest =
      let e : suc (length os) + fuel ≡ suc (length os + fuel) = omega arith in
      rw e (
        textures-step os fuel total (gl_call driver s (Effect.object (delete_textures (o ∷ []))))
          rest)

  vertex_arrays-step :
      (os : List ℕ) (fuel total : ℕ) (s : Server) (rest : List ℕ)
      → run driver (length os + fuel) total s (for_each Cmd.deletevertexarrays os ++ rest)
        ≡ run driver fuel total (each driver delete_vertex_arrays os s) rest
  unfolding run exec exec_internal exec_gl exec_object for_each
  vertex_arrays-step [] fuel total s rest = ap (λ k. run driver k total s rest) (omega arith)
  vertex_arrays-step (o ∷ os) fuel total s rest =
      let e : suc (length os) + fuel ≡ suc (length os + fuel) = omega arith in
      rw e (
        vertex_arrays-step os fuel total
          (gl_call driver s (Effect.object (delete_vertex_arrays (o ∷ [])))) rest)

  object-step :
      (c : ObjectCall) (fuel total : ℕ) (s : Server) (rest : List ℕ)
      → run driver (object_rounds c + fuel) total s (object_words c ++ rest)
        ≡ run driver fuel total (perform_object driver c s) rest
  unfolding run exec exec_internal exec_gl exec_object object_words
  object-step (delete_buffers os) fuel total s rest = buffers-step os fuel total s rest
  object-step (delete_textures os) fuel total s rest = textures-step os fuel total s rest
  object-step (delete_vertex_arrays os) fuel total s rest = vertex_arrays-step os fuel total s rest
  object-step (call_list list) fuel total s rest = rw (one-add fuel) refl
  object-step _ fuel total s rest = rw (one-add fuel) refl

  swap-step :
      (w h v f fuel pos total : ℕ) (s : Server) (rest : List ℕ)
      → total ≡ pos + 5 + length rest
      → run driver (suc fuel) total s (swap_words w h v f ++ rest)
        ≡ run driver fuel total (perform driver pos (swap_buffers w h v f) s) rest
  unfolding run exec exec_internal swap_words
  swap-step w h v f fuel pos total s rest e =
      ap
        (λ k.
          run driver fuel total
            (record (effect s (Effect.read_pixels w h v f k)) { did_swap_buffers = s.net }) rest)
        (omega arith)

  goodbye-step :
      (id fuel pos total : ℕ) (s : Server) (rest : List ℕ)
      → run driver (suc fuel) total s (goodbye_words id ++ rest)
        ≡ run driver fuel total (perform driver pos (goodbye id) s) rest
  unfolding run exec exec_internal goodbye_words
  goodbye-step id fuel pos total s rest = refl

  create_context-step :
      (fuel pos total : ℕ) (s : Server) (rest : List ℕ)
      → run driver (suc fuel) total s (Cmd.create_context ∷ rest)
        ≡ run driver fuel total (perform driver pos create_context s) rest
  unfolding run exec exec_internal
  create_context-step fuel pos total s rest = refl

  call-step :
      (c : ClientCall) (fuel pos total : ℕ) (s : Server) (rest : List ℕ)
      → IsNarrow c
      → total ≡ pos + length (client_words c) + length rest
      → run driver (rounds c + fuel) total s (client_words c ++ rest)
        ≡ run driver fuel total (perform driver pos c s) rest
  unfolding client_words
  call-step (gl_object c) fuel pos total s rest h e = object-step c fuel total s rest
  call-step (gl_stencil c) fuel pos total s rest h e =
      rw (one-add fuel) (Rounds.stencil-step driver fuel total s c rest)
  call-step (gl_lighting c) fuel pos total s rest h e =
      rw (one-add fuel) (Rounds.lighting-step driver fuel total s c rest)
  call-step (gl_names c) fuel pos total s rest h e =
      rw (one-add fuel) (Rounds.names-step driver fuel total s c rest)
  call-step (gl_evaluator c) fuel pos total s rest h e =
      rw (one-add fuel) (Rounds.evaluator-step driver fuel total s c rest)
  call-step (gl_uniform c) fuel pos total s rest h e =
      rw (one-add fuel) (Rounds.uniform-step driver fuel total s c rest)
  call-step (gl_feedback c) fuel pos total s rest h e =
      rw (one-add fuel) (Rounds.feedback-step driver fuel total s c rest h)
  call-step (gl_framebuffer c) fuel pos total s rest h e =
      rw (one-add fuel) (Rounds.framebuffer-step driver fuel total s c rest)
  call-step (gl_sampler c) fuel pos total s rest h e =
      rw (one-add fuel) (Rounds.sampler-step driver fuel total s c rest)
  call-step (gl_packed c) fuel pos total s rest h e =
      rw (one-add fuel) (Rounds.packed-step driver fuel total s c rest)
  call-step (gl_pipeline c) fuel pos total s rest h e =
      rw (one-add fuel) (Rounds.pipeline-step driver fuel total s c rest)
  call-step (gl_texture c) fuel pos total s rest h e =
      rw (one-add fuel) (Rounds.texture-step driver fuel total s c rest h)
  call-step (gl_image c) fuel pos total s rest h e =
      rw (one-add fuel) (Rounds.image-step driver fuel total s c rest h)
  call-step (gl_storage c) fuel pos total s rest h e =
      rw (one-add fuel) (Rounds.storage-step driver fuel total s c rest h)
  call-step (gl_attrib c) fuel pos total s rest h e =
      rw (one-add fuel) (Rounds.attrib-step driver fuel total s c rest h)
  call-step (gl_named c) fuel pos total s rest h e =
      rw (one-add fuel) (Rounds.named-step driver fuel total s c rest)
  call-step (gl_barrier c) fuel pos total s rest h e =
      rw (one-add fuel) (Rounds.barrier-step driver fuel total s c rest h)
  call-step (gl_raster c) fuel pos total s rest h e =
      rw (one-add fuel) (Rounds.raster-step driver fuel total s c rest)
  call-step (gl_matrix c) fuel pos total s rest h e =
      rw (one-add fuel) (Rounds.matrix-step driver fuel total s c rest)
  call-step (gl_scale c) fuel pos total s rest h e =
      rw (one-add fuel) (Rounds.scale-step driver fuel total s c rest)
  call-step (gl_coordinate c) fuel pos total s rest h e =
      rw (one-add fuel) (Rounds.coordinate-step driver fuel total s c rest)
  call-step (gl_secondary c) fuel pos total s rest h e =
      rw (one-add fuel) (Rounds.secondary-step driver fuel total s c rest)
  call-step (gl_values c values) fuel pos total s rest h e =
      rw (two-add fuel) (value_words-step driver c fuel total s values rest h.0 h.1)
  call-step (compressed_sub_image t l x y z w d k f size values) fuel pos total s rest h e =
      rw (two-add fuel)
        (sub_image_stream-step driver t l x y z w d k f size fuel total s values rest h.0 h.1)
  call-step (gl_texels store c pixels) fuel pos total s rest h e =
      rw (two-add fuel) (texel_stream-step driver store c pixels fuel total s rest h)
  call-step create_context fuel pos total s rest h e =
      rw (one-add fuel) (create_context-step fuel pos total s rest)
  call-step (swap_buffers w h v f) fuel pos total s rest n e =
      rw (one-add fuel)
        (swap-step w h v f fuel pos total s rest (swap-total pos total (length rest) w h v f e))
  call-step (goodbye id) fuel pos total s rest h e =
      rw (one-add fuel) (goodbye-step id fuel pos total s rest)

  run-stream :
      (cs : List ClientCall) (fuel pos total : ℕ) (s : Server) (rest : List ℕ)
      → AllNarrow cs
      → total ≡ pos + length (stream_words cs) + suc (length rest)
      → run driver (all_rounds cs + suc fuel) total s (stream_words cs ++ (Cmd.invalid ∷ rest))
        ≡ finished (perform_all driver pos cs s) rest
  unfolding stream_words perform_all
  run-stream [] fuel pos total s rest h e = unfold run in rw (zero-add-suc fuel) refl
  run-stream (c ∷ cs) fuel pos total s rest h e =
      let size = length-append (client_words c) (stream_words cs) in
      let tail = length-append (stream_words cs) (Cmd.invalid ∷ rest) in
      rw (add_assoc (rounds c) (all_rounds cs) (suc fuel), append_assoc)
        (call-step c (all_rounds cs + suc fuel) pos total s
            (stream_words cs ++ (Cmd.invalid ∷ rest)) h.0 (omega (arith, size, tail))
          ∙ run-stream cs fuel (pos + length (client_words c)) total (perform driver pos c s) rest
              h.1 (omega (arith, size)))

rounds-le : (c : ClientCall) → rounds c ≤ length (client_words c)
unfolding client_words swap_words goodbye_words
rounds-le (gl_object c) = object_rounds-le c
rounds-le (gl_stencil c) = Sizes.stencil_words-pos c
rounds-le (gl_lighting c) = Sizes.lighting_words-pos c
rounds-le (gl_names c) = Sizes.names_words-pos c
rounds-le (gl_evaluator c) = Sizes.evaluator_words-pos c
rounds-le (gl_uniform c) = Sizes.uniform_words-pos c
rounds-le (gl_feedback c) = Sizes.feedback_words-pos c
rounds-le (gl_framebuffer c) = Sizes.framebuffer_words-pos c
rounds-le (gl_sampler c) = Sizes.sampler_words-pos c
rounds-le (gl_packed c) = Sizes.packed_words-pos c
rounds-le (gl_pipeline c) = Sizes.pipeline_words-pos c
rounds-le (gl_texture c) = Sizes.texture_words-pos c
rounds-le (gl_image c) = Sizes.image_words-pos c
rounds-le (gl_storage c) = Sizes.storage_words-pos c
rounds-le (gl_attrib c) = Sizes.attrib_words-pos c
rounds-le (gl_named c) = Sizes.named_words-pos c
rounds-le (gl_barrier c) = Sizes.barrier_words-pos c
rounds-le (gl_raster c) = Sizes.raster_words-pos c
rounds-le (gl_matrix c) = Sizes.matrix_words-pos c
rounds-le (gl_scale c) = Sizes.scale_words-pos c
rounds-le (gl_coordinate c) = Sizes.coordinate_words-pos c
rounds-le (gl_secondary c) = Sizes.secondary_words-pos c
rounds-le (gl_values c values) = unfold value_words in omega arith
rounds-le (compressed_sub_image t l x y z w h d f size values) =
    unfold sub_image_stream in omega arith
rounds-le (gl_texels store c pixels) = texel_stream-size store c pixels
rounds-le create_context = omega arith
rounds-le (swap_buffers w h v f) = omega arith
rounds-le (goodbye id) = omega arith

-- The rounds are at most the words.
all_rounds-le : (cs : List ClientCall) → all_rounds cs ≤ length (stream_words cs)
unfolding stream_words
all_rounds-le [] = omega arith
all_rounds-le (c ∷ cs) =
    omega (arith, rounds-le c, all_rounds-le cs, length-append (client_words c) (stream_words cs))

-- `glVertexAttrib4ubv` has no case in the switch, so its arguments are taken for commands: with
-- index 0 the submission ends there, and all that the client pushed behind is dropped.
pub run-vertexattrib4ubv :
    (driver : List Effect → ℕ) (fuel total x y z w : ℕ) (s : Server) (rest : List ℕ)
    → 2 ≤ fuel
    → run driver fuel total s (vertexattrib4ubv_words 0 x y z w ++ rest)
      ≡ finished s (x ∷ y ∷ z ∷ w ∷ rest)
unfolding run exec exec_internal exec_gl exec_object vertexattrib4ubv_words
run-vertexattrib4ubv driver zero total x y z w s rest h = absurd (omega arith)
run-vertexattrib4ubv driver (suc zero) total x y z w s rest h = absurd (omega arith)
run-vertexattrib4ubv driver (suc (suc fuel)) total x y z w s rest h =
    unfold exec_stencil exec_lighting exec_names exec_evaluator exec_uniform exec_feedback
      exec_framebuffer exec_sampler exec_packed exec_pipeline exec_texture exec_image exec_storage
      exec_attrib exec_named exec_barrier exec_raster exec_matrix exec_scale exec_coordinate
      exec_secondary exec_values exec_sub_image exec_texels in
    refl

-- Whatever list of the modelled calls a client makes, if its 64-bit arguments are below 2^31 and its
-- data are as long as the calls say: with more fuel than words, the server's loop over the pushed
-- words and the closing 0 does for each call, in order, exactly what the call asks for, and stops
-- at the words behind the 0, whatever they are.
pub run-stream_words :
    (driver : List Effect → ℕ) (cs : List ClientCall) (fuel : ℕ) (s : Server) (rest : List ℕ)
    → AllNarrow cs
    → length (stream_words cs) < fuel
    → run driver fuel
        (length (stream_words cs) + suc (length rest))
        s
        (stream_words cs ++ (Cmd.invalid ∷ rest))
      ≡ finished (perform_all driver 0 cs s) rest
run-stream_words driver cs fuel s rest h q =
    ap
      (λ k.
        run driver k (length (stream_words cs) + suc (length rest)) s
          (stream_words cs ++ (Cmd.invalid ∷ rest)))
      (omega (arith, all_rounds-le cs))
    ∙ run-stream driver cs (fuel - all_rounds cs - 1) 0 _ s rest h (omega arith)
