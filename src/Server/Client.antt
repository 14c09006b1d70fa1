-- ===== src/Server/Client.antt =====
-- The calls of a client of the modelled commands: the words that src/client/glimpl.c pushes for
-- each, and what the server is to do for it.
use sharedgl.Prelude.{Option, some, ℕ, ◌+◌, ◌*◌, List, [], ◌∷◌, ◌++◌, if◌then◌else◌, length, false}
use sharedgl.Commands.Cmd
use sharedgl.Commands.Objects.{
  ObjectCall, delete_buffers, delete_textures, delete_vertex_arrays, object_words,
}
use sharedgl.Commands.Stencil.{StencilCall, stencil_words}
use sharedgl.Commands.Lighting.{LightingCall, lighting_words}
use sharedgl.Commands.Names.{NamesCall, names_words}
use sharedgl.Commands.Evaluators.{EvaluatorCall, evaluator_words}
use sharedgl.Commands.Uniforms.{UniformCall, uniform_words}
use sharedgl.Commands.Feedback.{FeedbackCall, feedback_words}
use sharedgl.Commands.Framebuffers.{FramebufferCall, framebuffer_words}
use sharedgl.Commands.Samplers.{SamplerCall, sampler_words}
use sharedgl.Commands.Packed.{PackedCall, packed_words}
use sharedgl.Commands.Pipelines.{PipelineCall, pipeline_words}
use sharedgl.Commands.Textures.{TextureCall, texture_words}
use sharedgl.Commands.Images.{ImageCall, image_words}
use sharedgl.Commands.Storages.{StorageCall, storage_words}
use sharedgl.Commands.Attribs.{AttribCall, attrib_words}
use sharedgl.Commands.NamedTargets.{NamedCall, named_words}
use sharedgl.Commands.Barriers.{BarrierCall, barrier_words}
use sharedgl.Commands.Rasters.{RasterCall, raster_words}
use sharedgl.Commands.Matrices.{MatrixCall, matrix_words}
use sharedgl.Commands.Scales.{ScaleCall, scale_words}
use sharedgl.Commands.Coordinates.{CoordinateCall, coordinate_words}
use sharedgl.Commands.Secondaries.{SecondaryCall, secondary_words}
use sharedgl.Commands.Values.{ValueCall, value_count, value_words}
use sharedgl.Commands.SubImages.{compressed_tex_sub_image3_d, sub_image_stream}
use sharedgl.Commands.Texels.{TexelCall, texel_stream}
use sharedgl.Pixels.{PixelStore}
use sharedgl.Server.Uploads.{IsUpload, IsTexels, with_data}
use sharedgl.Layout.{ceil_div}
use sharedgl.Server.{Effect, Server, pack, effect, gl_call}
use sharedgl.Server.Rounds.{
  IsFeedbackNarrow, IsTextureNarrow, IsImageNarrow, IsStorageNarrow, IsAttribNarrow,
  IsBarrierNarrow,
}

pub data ClientCall : Type 0 where
  gl_object : ObjectCall → ClientCall
  gl_stencil : StencilCall → ClientCall
  gl_lighting : LightingCall → ClientCall
  gl_names : NamesCall → ClientCall
  gl_evaluator : EvaluatorCall → ClientCall
  gl_uniform : UniformCall → ClientCall
  gl_feedback : FeedbackCall → ClientCall
  gl_framebuffer : FramebufferCall → ClientCall
  gl_sampler : SamplerCall → ClientCall
  gl_packed : PackedCall → ClientCall
  gl_pipeline : PipelineCall → ClientCall
  gl_texture : TextureCall → ClientCall
  gl_image : ImageCall → ClientCall
  gl_storage : StorageCall → ClientCall
  gl_attrib : AttribCall → ClientCall
  gl_named : NamedCall → ClientCall
  gl_barrier : BarrierCall → ClientCall
  gl_raster : RasterCall → ClientCall
  gl_matrix : MatrixCall → ClientCall
  gl_scale : ScaleCall → ClientCall
  gl_coordinate : CoordinateCall → ClientCall
  gl_secondary : SecondaryCall → ClientCall
  gl_values : ValueCall → (values : List ℕ) → ClientCall
  compressed_sub_image :
      (target level xoffset yoffset zoffset width height depth format image_size : ℕ)
      → (values : List ℕ) → ClientCall
  gl_texels : PixelStore → TexelCall → (pixels : Option (List ℕ)) → ClientCall
  create_context : ClientCall
  swap_buffers : (width height vflip format : ℕ) → ClientCall
  goodbye : (id : ℕ) → ClientCall

-- The pushes of `swap_buffers_shm`
unfoldable pub swap_words : ℕ → ℕ → ℕ → ℕ → List ℕ
swap_words width height vflip format = Cmd.swap_buffers ∷ width ∷ height ∷ vflip ∷ format ∷ []

-- The pushes of `glimpl_goodbye`, but for the 0 behind them
unfoldable pub goodbye_words : ℕ → List ℕ
goodbye_words id = Cmd.goodbye_world ∷ id ∷ []

-- The pushes of `glVertexAttrib4ubv`, which is not among the calls below
unfoldable pub vertexattrib4ubv_words : ℕ → ℕ → ℕ → ℕ → ℕ → List ℕ
vertexattrib4ubv_words index x y z w = Cmd.vertexattrib4ubv ∷ index ∷ x ∷ y ∷ z ∷ w ∷ []

unfoldable pub client_words : ClientCall → List ℕ
client_words (gl_object c) = object_words c
client_words (gl_stencil c) = stencil_words c
client_words (gl_lighting c) = lighting_words c
client_words (gl_names c) = names_words c
client_words (gl_evaluator c) = evaluator_words c
client_words (gl_uniform c) = uniform_words c
client_words (gl_feedback c) = feedback_words c
client_words (gl_framebuffer c) = framebuffer_words c
client_words (gl_sampler c) = sampler_words c
client_words (gl_packed c) = packed_words c
client_words (gl_pipeline c) = pipeline_words c
client_words (gl_texture c) = texture_words c
client_words (gl_image c) = image_words c
client_words (gl_storage c) = storage_words c
client_words (gl_attrib c) = attrib_words c
client_words (gl_named c) = named_words c
client_words (gl_barrier c) = barrier_words c
client_words (gl_raster c) = raster_words c
client_words (gl_matrix c) = matrix_words c
client_words (gl_scale c) = scale_words c
client_words (gl_coordinate c) = coordinate_words c
client_words (gl_secondary c) = secondary_words c
client_words (gl_values c values) = value_words c values
client_words (compressed_sub_image t l x y z w h d f size values) =
    sub_image_stream Cmd.compressedtexsubimage3d 3 t l (x ∷ y ∷ z ∷ []) (w ∷ h ∷ d ∷ []) f size
      values
client_words (gl_texels store c pixels) = texel_stream store c pixels
client_words create_context = Cmd.create_context ∷ []
client_words (swap_buffers width height vflip format) = swap_words width height vflip format
client_words (goodbye id) = goodbye_words id

-- One call after another
unfoldable pub stream_words : List ClientCall → List ℕ
stream_words [] = []
stream_words (c ∷ cs) = client_words c ++ stream_words cs

-- The 64-bit arguments fit the wire, and the data are as long as the call says.
abbrev pub IsNarrow : ClientCall → Type 0
IsNarrow (gl_feedback c) = IsFeedbackNarrow c
IsNarrow (gl_texture c) = IsTextureNarrow c
IsNarrow (gl_image c) = IsImageNarrow c
IsNarrow (gl_storage c) = IsStorageNarrow c
IsNarrow (gl_attrib c) = IsAttribNarrow c
IsNarrow (gl_barrier c) = IsBarrierNarrow c
IsNarrow (gl_values c values) = IsUpload (value_count c) values
IsNarrow (compressed_sub_image t l x y z w h d f size values) = IsUpload (ceil_div size 4) values
IsNarrow (gl_texels store c pixels) = IsTexels store c pixels
IsNarrow _ = Unit

abbrev pub AllNarrow : List ClientCall → Type 0
AllNarrow [] = Unit
AllNarrow (c ∷ cs) = IsNarrow c × AllNarrow cs

module _ (driver : List Effect → ℕ) where
  -- A delete function's loop: each object by itself.
  abbrev pub each : (List ℕ → ObjectCall) → List ℕ → Server → Server
  each f [] s = s
  each f (o ∷ os) s = each f os (gl_call driver s (Effect.object (f (o ∷ []))))

  abbrev pub perform_object : ObjectCall → Server → Server
  perform_object (delete_buffers buffers) s = each delete_buffers buffers s
  perform_object (delete_textures textures) s = each delete_textures textures s
  perform_object (delete_vertex_arrays arrays) s = each delete_vertex_arrays arrays s
  perform_object c s = gl_call driver s (Effect.object c)

  -- What the server is to do for a call in front of which `pos` words stand.
  abbrev pub perform : ℕ → ClientCall → Server → Server
  perform pos (gl_object c) s = perform_object c s
  perform pos (gl_stencil c) s = gl_call driver s (Effect.stencil c)
  perform pos (gl_lighting c) s = gl_call driver s (Effect.lighting c)
  perform pos (gl_names c) s = gl_call driver s (Effect.names c)
  perform pos (gl_evaluator c) s = gl_call driver s (Effect.evaluator c)
  perform pos (gl_uniform c) s = gl_call driver s (Effect.uniform c)
  perform pos (gl_feedback c) s = gl_call driver s (Effect.feedback c)
  perform pos (gl_framebuffer c) s = gl_call driver s (Effect.framebuffer c)
  perform pos (gl_sampler c) s = gl_call driver s (Effect.sampler c)
  perform pos (gl_packed c) s = gl_call driver s (Effect.packed c)
  perform pos (gl_pipeline c) s = gl_call driver s (Effect.pipeline c)
  perform pos (gl_texture c) s = gl_call driver s (Effect.texture c)
  perform pos (gl_image c) s = gl_call driver s (Effect.image c)
  perform pos (gl_storage c) s = gl_call driver s (Effect.storage c)
  perform pos (gl_attrib c) s = gl_call driver s (Effect.attrib c)
  perform pos (gl_named c) s = gl_call driver s (Effect.named c)
  perform pos (gl_barrier c) s = gl_call driver s (Effect.barrier c)
  perform pos (gl_raster c) s = gl_call driver s (Effect.raster c)
  perform pos (gl_matrix c) s = gl_call driver s (Effect.matrix c)
  perform pos (gl_scale c) s = gl_call driver s (Effect.scale c)
  perform pos (gl_coordinate c) s = gl_call driver s (Effect.coordinate c)
  perform pos (gl_secondary c) s = gl_call driver s (Effect.secondary c)
  perform pos (gl_values c values) s = with_data driver s (some values) (Effect.matrix_values c)
  perform pos (compressed_sub_image t l x y z w h d f size values) s =
      with_data driver s (some values)
        (Effect.sub_image (compressed_tex_sub_image3_d t l x y z w h d f size))
  perform pos (gl_texels store c pixels) s = with_data driver s pixels (Effect.texels c)
  perform pos create_context s = record s { retval = pack s.width s.height }
  perform pos (swap_buffers width height vflip format) s =
      record (effect s (Effect.read_pixels width height vflip format (4 * (pos + 5)))) {
        did_swap_buffers = s.net;
      }
  perform pos (goodbye id) s =
      if s.net
      then record s { expecting_retval = false }
      else record (effect s (Effect.connection_rem id)) { release_client_slot = id }

  unfoldable pub perform_all : ℕ → List ClientCall → Server → Server
  perform_all pos [] s = s
  perform_all pos (c ∷ cs) s = perform_all (pos + length (client_words c)) cs (perform pos c s)
