-- ===== src/Server/Rounds.antt =====
-- One round of the switch for each call of the client: the words that the client pushes for it make
-- the server do exactly that call.
use sharedgl.Prelude.{ℕ, suc, ◌^◌, ◌<◌, ◌≡◌, refl, List, ◌++◌, length, arith}
use sharedgl.Pb.{int_to_size}
use sharedgl.Commands.Decode.{low32}
use sharedgl.Commands.Stencil.{StencilCall, stencil_mask, stencil_words, exec_stencil}
use sharedgl.Commands.Lighting.{LightingCall, fogi, lighting_words, exec_lighting}
use sharedgl.Commands.Names.{NamesCall, init_names, names_words, exec_names}
use sharedgl.Commands.Evaluators.{EvaluatorCall, eval_coord2f, evaluator_words, exec_evaluator}
use sharedgl.Commands.Uniforms.{UniformCall, uniform2f, uniform_words, exec_uniform}
use sharedgl.Commands.Feedback.{FeedbackCall, bind_buffer_range, feedback_words, exec_feedback}
use sharedgl.Commands.Framebuffers.{
  FramebufferCall, framebuffer_texture1_d, framebuffer_words, exec_framebuffer,
}
use sharedgl.Commands.Samplers.{SamplerCall, bind_sampler, sampler_words, exec_sampler}
use sharedgl.Commands.Packed.{PackedCall, multi_tex_coord_p2ui, packed_words, exec_packed}
use sharedgl.Commands.Pipelines.{
  PipelineCall, pause_transform_feedback, pipeline_words, exec_pipeline,
}
use sharedgl.Commands.Textures.{TextureCall, texture_buffer_range, texture_words, exec_texture}
use sharedgl.Commands.Images.{ImageCall, dispatch_compute_indirect, image_words, exec_image}
use sharedgl.Commands.Storages.{
  StorageCall, invalidate_buffer_sub_data, tex_buffer_range, storage_words, exec_storage,
}
use sharedgl.Commands.Attribs.{
  AttribCall, transform_feedback_buffer_range, copy_named_buffer_sub_data, attrib_words,
  exec_attrib,
}
use sharedgl.Commands.NamedTargets.{
  NamedCall, named_framebuffer_renderbuffer, named_words, exec_named,
}
use sharedgl.Commands.Barriers.{
  BarrierCall, get_query_buffer_objecti64v, get_query_buffer_objectiv, get_query_buffer_objectui64v,
  get_query_buffer_objectuiv, barrier_words, exec_barrier,
}
use sharedgl.Commands.Rasters.{RasterCall, cull_face, raster_words, exec_raster}
use sharedgl.Commands.Matrices.{MatrixCall, matrix_mode, matrix_words, exec_matrix}
use sharedgl.Commands.Scales.{ScaleCall, scalef, scale_words, exec_scale}
use sharedgl.Commands.Coordinates.{
  CoordinateCall, multi_tex_coord4f, coordinate_words, exec_coordinate,
}
use sharedgl.Commands.Secondaries.{
  SecondaryCall, secondary_color3f, secondary_words, exec_secondary,
}
use sharedgl.Server.{Effect, Server, gl_call, exec_internal, exec_gl, exec, run}
use sharedgl.Commands.Objects.{exec_object}

-- A 64-bit offset or size below 2^31 arrives as it is.
pub int_to_size-low32 : (v : ℕ) → v < 2 ^ 31 → int_to_size (low32 v) ≡ v
unfolding int_to_size
int_to_size-low32 v h = ground arith

-- The 64-bit arguments are below 2^31.
abbrev pub IsFeedbackNarrow : FeedbackCall → Type 0
IsFeedbackNarrow (bind_buffer_range target index buffer offset size) =
    (offset < 2 ^ 31) × (size < 2 ^ 31)
IsFeedbackNarrow _ = Unit

-- The 64-bit arguments are below 2^31.
abbrev pub IsTextureNarrow : TextureCall → Type 0
IsTextureNarrow (texture_buffer_range texture internalformat buffer offset size) =
    (offset < 2 ^ 31) × (size < 2 ^ 31)
IsTextureNarrow _ = Unit

-- The 64-bit arguments are below 2^31.
abbrev pub IsImageNarrow : ImageCall → Type 0
IsImageNarrow (dispatch_compute_indirect indirect) = (indirect < 2 ^ 31)
IsImageNarrow _ = Unit

-- The 64-bit arguments are below 2^31.
abbrev pub IsStorageNarrow : StorageCall → Type 0
IsStorageNarrow (invalidate_buffer_sub_data buffer offset length) =
    (offset < 2 ^ 31) × (length < 2 ^ 31)
IsStorageNarrow (tex_buffer_range target internalformat buffer offset size) =
    (offset < 2 ^ 31) × (size < 2 ^ 31)
IsStorageNarrow _ = Unit

-- The 64-bit arguments are below 2^31.
abbrev pub IsAttribNarrow : AttribCall → Type 0
IsAttribNarrow (transform_feedback_buffer_range xfb index buffer offset size) =
    (offset < 2 ^ 31) × (size < 2 ^ 31)
IsAttribNarrow (copy_named_buffer_sub_data read_buffer write_buffer read_offset write_offset size) =
    (read_offset < 2 ^ 31) × (write_offset < 2 ^ 31) × (size < 2 ^ 31)
IsAttribNarrow _ = Unit

-- The 64-bit arguments are below 2^31.
abbrev pub IsBarrierNarrow : BarrierCall → Type 0
IsBarrierNarrow (get_query_buffer_objecti64v id buffer pname offset) = (offset < 2 ^ 31)
IsBarrierNarrow (get_query_buffer_objectiv id buffer pname offset) = (offset < 2 ^ 31)
IsBarrierNarrow (get_query_buffer_objectui64v id buffer pname offset) = (offset < 2 ^ 31)
IsBarrierNarrow (get_query_buffer_objectuiv id buffer pname offset) = (offset < 2 ^ 31)
IsBarrierNarrow _ = Unit

module _ (driver : List Effect → ℕ) (fuel total : ℕ) (s : Server) where
  pub stencil-step :
      (c : StencilCall) (rest : List ℕ)
      → run driver (suc fuel) total s (stencil_words c ++ rest)
        ≡ run driver fuel total (gl_call driver s (Effect.stencil c)) rest
  unfolding run exec exec_internal exec_gl exec_object exec_stencil stencil_words
  stencil-step (stencil_mask mask) rest = refl
  stencil-step _ rest = refl

  pub lighting-step :
      (c : LightingCall) (rest : List ℕ)
      → run driver (suc fuel) total s (lighting_words c ++ rest)
        ≡ run driver fuel total (gl_call driver s (Effect.lighting c)) rest
  unfolding run exec exec_internal exec_gl exec_object exec_stencil exec_lighting lighting_words
  lighting-step (fogi pname param) rest = refl
  lighting-step _ rest = refl

  pub names-step :
      (c : NamesCall) (rest : List ℕ)
      → run driver (suc fuel) total s (names_words c ++ rest)
        ≡ run driver fuel total (gl_call driver s (Effect.names c)) rest
  unfolding run exec exec_internal exec_gl exec_object exec_stencil exec_lighting exec_names
      names_words
  names-step init_names rest = refl
  names-step _ rest = refl

  pub evaluator-step :
      (c : EvaluatorCall) (rest : List ℕ)
      → run driver (suc fuel) total s (evaluator_words c ++ rest)
        ≡ run driver fuel total (gl_call driver s (Effect.evaluator c)) rest
  unfolding run exec exec_internal exec_gl exec_object exec_stencil exec_lighting exec_names
      exec_evaluator evaluator_words
  evaluator-step (eval_coord2f u v) rest = refl
  evaluator-step _ rest = refl

  pub uniform-step :
      (c : UniformCall) (rest : List ℕ)
      → run driver (suc fuel) total s (uniform_words c ++ rest)
        ≡ run driver fuel total (gl_call driver s (Effect.uniform c)) rest
  unfolding run exec exec_internal exec_gl exec_object exec_stencil exec_lighting exec_names
      exec_evaluator exec_uniform uniform_words
  uniform-step (uniform2f location v0 v1) rest = refl
  uniform-step _ rest = refl

  pub feedback-step :
      (c : FeedbackCall) (rest : List ℕ)
      → IsFeedbackNarrow c
      → run driver (suc fuel) total s (feedback_words c ++ rest)
        ≡ run driver fuel total (gl_call driver s (Effect.feedback c)) rest
  unfolding run exec exec_internal exec_gl exec_object exec_stencil exec_lighting exec_names
      exec_evaluator exec_uniform exec_feedback feedback_words
  feedback-step (bind_buffer_range target index buffer offset size) rest h =
      rw (int_to_size-low32 offset h.0, int_to_size-low32 size h.1) refl
  feedback-step _ rest h = refl

  pub framebuffer-step :
      (c : FramebufferCall) (rest : List ℕ)
      → run driver (suc fuel) total s (framebuffer_words c ++ rest)
        ≡ run driver fuel total (gl_call driver s (Effect.framebuffer c)) rest
  unfolding run exec exec_internal exec_gl exec_object exec_stencil exec_lighting exec_names
      exec_evaluator exec_uniform exec_feedback exec_framebuffer framebuffer_words
  framebuffer-step (framebuffer_texture1_d target attachment textarget texture level) rest = refl
  framebuffer-step _ rest = refl

  pub sampler-step :
      (c : SamplerCall) (rest : List ℕ)
      → run driver (suc fuel) total s (sampler_words c ++ rest)
        ≡ run driver fuel total (gl_call driver s (Effect.sampler c)) rest
  unfolding run exec exec_internal exec_gl exec_object exec_stencil exec_lighting exec_names
      exec_evaluator exec_uniform exec_feedback exec_framebuffer exec_sampler sampler_words
  sampler-step (bind_sampler unit sampler) rest = refl
  sampler-step _ rest = refl

  pub packed-step :
      (c : PackedCall) (rest : List ℕ)
      → run driver (suc fuel) total s (packed_words c ++ rest)
        ≡ run driver fuel total (gl_call driver s (Effect.packed c)) rest
  unfolding run exec exec_internal exec_gl exec_object exec_stencil exec_lighting exec_names
      exec_evaluator exec_uniform exec_feedback exec_framebuffer exec_sampler exec_packed
      packed_words
  packed-step (multi_tex_coord_p2ui texture type coords) rest = refl
  packed-step _ rest = refl

  pub pipeline-step :
      (c : PipelineCall) (rest : List ℕ)
      → run driver (suc fuel) total s (pipeline_words c ++ rest)
        ≡ run driver fuel total (gl_call driver s (Effect.pipeline c)) rest
  unfolding run exec exec_internal exec_gl exec_object exec_stencil exec_lighting exec_names
      exec_evaluator exec_uniform exec_feedback exec_framebuffer exec_sampler exec_packed
      exec_pipeline pipeline_words
  pipeline-step pause_transform_feedback rest = refl
  pipeline-step _ rest = refl

  pub texture-step :
      (c : TextureCall) (rest : List ℕ)
      → IsTextureNarrow c
      → run driver (suc fuel) total s (texture_words c ++ rest)
        ≡ run driver fuel total (gl_call driver s (Effect.texture c)) rest
  unfolding run exec exec_internal exec_gl exec_object exec_stencil exec_lighting exec_names
      exec_evaluator exec_uniform exec_feedback exec_framebuffer exec_sampler exec_packed
      exec_pipeline exec_texture texture_words
  texture-step (texture_buffer_range texture internalformat buffer offset size) rest h =
      rw (int_to_size-low32 offset h.0, int_to_size-low32 size h.1) refl
  texture-step _ rest h = refl

  pub image-step :
      (c : ImageCall) (rest : List ℕ)
      → IsImageNarrow c
      → run driver (suc fuel) total s (image_words c ++ rest)
        ≡ run driver fuel total (gl_call driver s (Effect.image c)) rest
  unfolding run exec exec_internal exec_gl exec_object exec_stencil exec_lighting exec_names
      exec_evaluator exec_uniform exec_feedback exec_framebuffer exec_sampler exec_packed
      exec_pipeline exec_texture exec_image image_words
  image-step (dispatch_compute_indirect indirect) rest h = rw (int_to_size-low32 indirect h) refl
  image-step _ rest h = refl

  pub storage-step :
      (c : StorageCall) (rest : List ℕ)
      → IsStorageNarrow c
      → run driver (suc fuel) total s (storage_words c ++ rest)
        ≡ run driver fuel total (gl_call driver s (Effect.storage c)) rest
  unfolding run exec exec_internal exec_gl exec_object exec_stencil exec_lighting exec_names
      exec_evaluator exec_uniform exec_feedback exec_framebuffer exec_sampler exec_packed
      exec_pipeline exec_texture exec_image exec_storage storage_words
  storage-step (invalidate_buffer_sub_data buffer offset length) rest h =
      rw (int_to_size-low32 offset h.0, int_to_size-low32 length h.1) refl
  storage-step (tex_buffer_range target internalformat buffer offset size) rest h =
      rw (int_to_size-low32 offset h.0, int_to_size-low32 size h.1) refl
  storage-step _ rest h = refl

  pub attrib-step :
      (c : AttribCall) (rest : List ℕ)
      → IsAttribNarrow c
      → run driver (suc fuel) total s (attrib_words c ++ rest)
        ≡ run driver fuel total (gl_call driver s (Effect.attrib c)) rest
  unfolding run exec exec_internal exec_gl exec_object exec_stencil exec_lighting exec_names
      exec_evaluator exec_uniform exec_feedback exec_framebuffer exec_sampler exec_packed
      exec_pipeline exec_texture exec_image exec_storage exec_attrib attrib_words
  attrib-step (transform_feedback_buffer_range xfb index buffer offset size) rest h =
      rw (int_to_size-low32 offset h.0, int_to_size-low32 size h.1) refl
  attrib-step (copy_named_buffer_sub_data read_buffer write_buffer read_offset write_offset size)
        rest h =
      rw
        (
          int_to_size-low32 read_offset h.0,
          int_to_size-low32 write_offset h.1,
          int_to_size-low32 size h.2,
        )
        refl
  attrib-step _ rest h = refl

  pub named-step :
      (c : NamedCall) (rest : List ℕ)
      → run driver (suc fuel) total s (named_words c ++ rest)
        ≡ run driver fuel total (gl_call driver s (Effect.named c)) rest
  unfolding run exec exec_internal exec_gl exec_object exec_stencil exec_lighting exec_names
      exec_evaluator exec_uniform exec_feedback exec_framebuffer exec_sampler exec_packed
      exec_pipeline exec_texture exec_image exec_storage exec_attrib exec_named named_words
  named-step (named_framebuffer_renderbuffer framebuffer attachment renderbuffertarget renderbuffer)
        rest =
      refl
  named-step _ rest = refl

  pub barrier-step :
      (c : BarrierCall) (rest : List ℕ)
      → IsBarrierNarrow c
      → run driver (suc fuel) total s (barrier_words c ++ rest)
        ≡ run driver fuel total (gl_call driver s (Effect.barrier c)) rest
  unfolding run exec exec_internal exec_gl exec_object exec_stencil exec_lighting exec_names
      exec_evaluator exec_uniform exec_feedback exec_framebuffer exec_sampler exec_packed
      exec_pipeline exec_texture exec_image exec_storage exec_attrib exec_named exec_barrier
      barrier_words
  barrier-step (get_query_buffer_objecti64v id buffer pname offset) rest h =
      rw (int_to_size-low32 offset h) refl
  barrier-step (get_query_buffer_objectiv id buffer pname offset) rest h =
      rw (int_to_size-low32 offset h) refl
  barrier-step (get_query_buffer_objectui64v id buffer pname offset) rest h =
      rw (int_to_size-low32 offset h) refl
  barrier-step (get_query_buffer_objectuiv id buffer pname offset) rest h =
      rw (int_to_size-low32 offset h) refl
  barrier-step _ rest h = refl

  pub raster-step :
      (c : RasterCall) (rest : List ℕ)
      → run driver (suc fuel) total s (raster_words c ++ rest)
        ≡ run driver fuel total (gl_call driver s (Effect.raster c)) rest
  unfolding run exec exec_internal exec_gl exec_object exec_stencil exec_lighting exec_names
      exec_evaluator exec_uniform exec_feedback exec_framebuffer exec_sampler exec_packed
      exec_pipeline exec_texture exec_image exec_storage exec_attrib exec_named exec_barrier
      exec_raster raster_words
  raster-step (cull_face mode) rest = refl
  raster-step _ rest = refl

  pub matrix-step :
      (c : MatrixCall) (rest : List ℕ)
      → run driver (suc fuel) total s (matrix_words c ++ rest)
        ≡ run driver fuel total (gl_call driver s (Effect.matrix c)) rest
  unfolding run exec exec_internal exec_gl exec_object exec_stencil exec_lighting exec_names
      exec_evaluator exec_uniform exec_feedback exec_framebuffer exec_sampler exec_packed
      exec_pipeline exec_texture exec_image exec_storage exec_attrib exec_named exec_barrier
      exec_raster exec_matrix matrix_words
  matrix-step (matrix_mode mode) rest = refl
  matrix-step _ rest = refl

  pub scale-step :
      (c : ScaleCall) (rest : List ℕ)
      → run driver (suc fuel) total s (scale_words c ++ rest)
        ≡ run driver fuel total (gl_call driver s (Effect.scale c)) rest
  unfolding run exec exec_internal exec_gl exec_object exec_stencil exec_lighting exec_names
      exec_evaluator exec_uniform exec_feedback exec_framebuffer exec_sampler exec_packed
      exec_pipeline exec_texture exec_image exec_storage exec_attrib exec_named exec_barrier
      exec_raster exec_matrix exec_scale scale_words
  scale-step (scalef x y z) rest = refl
  scale-step _ rest = refl

  pub coordinate-step :
      (c : CoordinateCall) (rest : List ℕ)
      → run driver (suc fuel) total s (coordinate_words c ++ rest)
        ≡ run driver fuel total (gl_call driver s (Effect.coordinate c)) rest
  unfolding run exec exec_internal exec_gl exec_object exec_stencil exec_lighting exec_names
      exec_evaluator exec_uniform exec_feedback exec_framebuffer exec_sampler exec_packed
      exec_pipeline exec_texture exec_image exec_storage exec_attrib exec_named exec_barrier
      exec_raster exec_matrix exec_scale exec_coordinate coordinate_words
  coordinate-step (multi_tex_coord4f target s t r q) rest = refl
  coordinate-step _ rest = refl

  pub secondary-step :
      (c : SecondaryCall) (rest : List ℕ)
      → run driver (suc fuel) total s (secondary_words c ++ rest)
        ≡ run driver fuel total (gl_call driver s (Effect.secondary c)) rest
  unfolding run exec exec_internal exec_gl exec_object exec_stencil exec_lighting exec_names
      exec_evaluator exec_uniform exec_feedback exec_framebuffer exec_sampler exec_packed
      exec_pipeline exec_texture exec_image exec_storage exec_attrib exec_named exec_barrier
      exec_raster exec_matrix exec_scale exec_coordinate exec_secondary secondary_words
  secondary-step (secondary_color3f red green blue) rest = refl
  secondary-step _ rest = refl
