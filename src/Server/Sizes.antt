-- ===== src/Server/Sizes.antt =====
-- Each call pushes its command, so at least one word.
use sharedgl.Prelude.{◌≤◌, length, arith}
use sharedgl.Commands.Stencil.{StencilCall, stencil_mask, stencil_words}
use sharedgl.Commands.Lighting.{LightingCall, fogi, lighting_words}
use sharedgl.Commands.Names.{NamesCall, init_names, names_words}
use sharedgl.Commands.Evaluators.{EvaluatorCall, eval_coord2f, evaluator_words}
use sharedgl.Commands.Uniforms.{UniformCall, uniform2f, uniform_words}
use sharedgl.Commands.Feedback.{FeedbackCall, begin_transform_feedback, feedback_words}
use sharedgl.Commands.Framebuffers.{FramebufferCall, framebuffer_texture1_d, framebuffer_words}
use sharedgl.Commands.Samplers.{SamplerCall, bind_sampler, sampler_words}
use sharedgl.Commands.Packed.{PackedCall, multi_tex_coord_p2ui, packed_words}
use sharedgl.Commands.Pipelines.{PipelineCall, pause_transform_feedback, pipeline_words}
use sharedgl.Commands.Textures.{TextureCall, named_renderbuffer_storage, texture_words}
use sharedgl.Commands.Images.{ImageCall, bind_image_texture, image_words}
use sharedgl.Commands.Storages.{StorageCall, invalidate_tex_sub_image, storage_words}
use sharedgl.Commands.Attribs.{AttribCall, vertex_attrib_format, attrib_words}
use sharedgl.Commands.NamedTargets.{NamedCall, named_framebuffer_renderbuffer, named_words}
use sharedgl.Commands.Barriers.{BarrierCall, vertex_array_attrib_binding, barrier_words}
use sharedgl.Commands.Rasters.{RasterCall, cull_face, raster_words}
use sharedgl.Commands.Matrices.{MatrixCall, matrix_mode, matrix_words}
use sharedgl.Commands.Scales.{ScaleCall, scalef, scale_words}
use sharedgl.Commands.Coordinates.{CoordinateCall, multi_tex_coord4f, coordinate_words}
use sharedgl.Commands.Secondaries.{SecondaryCall, secondary_color3f, secondary_words}

pub stencil_words-pos : (c : StencilCall) → 1 ≤ length (stencil_words c)
unfolding stencil_words
stencil_words-pos (stencil_mask mask) = omega arith
stencil_words-pos _ = omega arith

pub lighting_words-pos : (c : LightingCall) → 1 ≤ length (lighting_words c)
unfolding lighting_words
lighting_words-pos (fogi pname param) = omega arith
lighting_words-pos _ = omega arith

pub names_words-pos : (c : NamesCall) → 1 ≤ length (names_words c)
unfolding names_words
names_words-pos init_names = omega arith
names_words-pos _ = omega arith

pub evaluator_words-pos : (c : EvaluatorCall) → 1 ≤ length (evaluator_words c)
unfolding evaluator_words
evaluator_words-pos (eval_coord2f u v) = omega arith
evaluator_words-pos _ = omega arith

pub uniform_words-pos : (c : UniformCall) → 1 ≤ length (uniform_words c)
unfolding uniform_words
uniform_words-pos (uniform2f location v0 v1) = omega arith
uniform_words-pos _ = omega arith

pub feedback_words-pos : (c : FeedbackCall) → 1 ≤ length (feedback_words c)
unfolding feedback_words
feedback_words-pos (begin_transform_feedback primitive_mode) = omega arith
feedback_words-pos _ = omega arith

pub framebuffer_words-pos : (c : FramebufferCall) → 1 ≤ length (framebuffer_words c)
unfolding framebuffer_words
framebuffer_words-pos (framebuffer_texture1_d target attachment textarget texture level) =
    omega arith
framebuffer_words-pos _ = omega arith

pub sampler_words-pos : (c : SamplerCall) → 1 ≤ length (sampler_words c)
unfolding sampler_words
sampler_words-pos (bind_sampler unit sampler) = omega arith
sampler_words-pos _ = omega arith

pub packed_words-pos : (c : PackedCall) → 1 ≤ length (packed_words c)
unfolding packed_words
packed_words-pos (multi_tex_coord_p2ui texture type coords) = omega arith
packed_words-pos _ = omega arith

pub pipeline_words-pos : (c : PipelineCall) → 1 ≤ length (pipeline_words c)
unfolding pipeline_words
pipeline_words-pos pause_transform_feedback = omega arith
pipeline_words-pos _ = omega arith

pub texture_words-pos : (c : TextureCall) → 1 ≤ length (texture_words c)
unfolding texture_words
texture_words-pos (named_renderbuffer_storage renderbuffer internalformat width height) =
    omega arith
texture_words-pos _ = omega arith

pub image_words-pos : (c : ImageCall) → 1 ≤ length (image_words c)
unfolding image_words
image_words-pos (bind_image_texture unit texture level layered layer access format) = omega arith
image_words-pos _ = omega arith

pub storage_words-pos : (c : StorageCall) → 1 ≤ length (storage_words c)
unfolding storage_words
storage_words-pos
      (invalidate_tex_sub_image texture level xoffset yoffset zoffset width height depth) =
    omega arith
storage_words-pos _ = omega arith

pub attrib_words-pos : (c : AttribCall) → 1 ≤ length (attrib_words c)
unfolding attrib_words
attrib_words-pos (vertex_attrib_format attribindex size type normalized relativeoffset) =
    omega arith
attrib_words-pos _ = omega arith

pub named_words-pos : (c : NamedCall) → 1 ≤ length (named_words c)
unfolding named_words
named_words-pos
      (named_framebuffer_renderbuffer framebuffer attachment renderbuffertarget renderbuffer) =
    omega arith
named_words-pos _ = omega arith

pub barrier_words-pos : (c : BarrierCall) → 1 ≤ length (barrier_words c)
unfolding barrier_words
barrier_words-pos (vertex_array_attrib_binding vaobj attribindex bindingindex) = omega arith
barrier_words-pos _ = omega arith

pub raster_words-pos : (c : RasterCall) → 1 ≤ length (raster_words c)
unfolding raster_words
raster_words-pos (cull_face mode) = omega arith
raster_words-pos _ = omega arith

pub matrix_words-pos : (c : MatrixCall) → 1 ≤ length (matrix_words c)
unfolding matrix_words
matrix_words-pos (matrix_mode mode) = omega arith
matrix_words-pos _ = omega arith

pub scale_words-pos : (c : ScaleCall) → 1 ≤ length (scale_words c)
unfolding scale_words
scale_words-pos (scalef x y z) = omega arith
scale_words-pos _ = omega arith

pub coordinate_words-pos : (c : CoordinateCall) → 1 ≤ length (coordinate_words c)
unfolding coordinate_words
coordinate_words-pos (multi_tex_coord4f target s t r q) = omega arith
coordinate_words-pos _ = omega arith

pub secondary_words-pos : (c : SecondaryCall) → 1 ≤ length (secondary_words c)
unfolding secondary_words
secondary_words-pos (secondary_color3f red green blue) = omega arith
secondary_words-pos _ = omega arith
