-- ===== src/Server/SubImages.antt =====
-- The uploads of parts of compressed textures, in src/client/glimpl.c and src/server/processor.c.
use sharedgl.Prelude.{ℕ, suc, ◌%◌, ◌^◌, ◌<◌, ◌≡◌, refl, ◌∙◌, some, List, [], ◌∷◌, ◌++◌, length}
use sharedgl.Layout.{ceil_div}
use sharedgl.Commands.Cmd
use sharedgl.Commands.Objects.{exec_object}
use sharedgl.Commands.Stencil.{exec_stencil}
use sharedgl.Commands.Lighting.{exec_lighting}
use sharedgl.Commands.Names.{exec_names}
use sharedgl.Commands.Evaluators.{exec_evaluator}
use sharedgl.Commands.Uniforms.{exec_uniform}
use sharedgl.Commands.Feedback.{exec_feedback}
use sharedgl.Commands.Framebuffers.{exec_framebuffer}
use sharedgl.Commands.Samplers.{exec_sampler}
use sharedgl.Commands.Packed.{exec_packed}
use sharedgl.Commands.Pipelines.{exec_pipeline}
use sharedgl.Commands.Textures.{exec_texture}
use sharedgl.Commands.Images.{exec_image}
use sharedgl.Commands.Storages.{exec_storage}
use sharedgl.Commands.Attribs.{exec_attrib}
use sharedgl.Commands.NamedTargets.{exec_named}
use sharedgl.Commands.Barriers.{exec_barrier}
use sharedgl.Commands.Rasters.{exec_raster}
use sharedgl.Commands.Matrices.{exec_matrix}
use sharedgl.Commands.Scales.{exec_scale}
use sharedgl.Commands.Coordinates.{exec_coordinate}
use sharedgl.Commands.Secondaries.{exec_secondary}
use sharedgl.Commands.Values.{exec_values}
use sharedgl.Commands.SubImages.{
  compressed_tex_sub_image3_d, compressed_tex_sub_image2_d, sub_image_words, sub_image_stream,
  exec_sub_image,
}
use sharedgl.Server.{Effect, sub_image, Server, exec_internal, exec_gl, gl_call, exec, run}
use sharedgl.Server.Uploads.{with_data, data_step}

module _ (driver : List Effect → ℕ) (fuel total : ℕ) (s : Server) where
  sub_image3_d-step :
      (t l x y z w h d f size : ℕ) (rest : List ℕ)
      → run driver (suc fuel) total s (
          sub_image_words Cmd.compressedtexsubimage3d 3 t l (x ∷ y ∷ z ∷ []) (w ∷ h ∷ d ∷ []) f size
          ++ rest)
        ≡ run driver fuel total
            (gl_call driver s
              (sub_image (compressed_tex_sub_image3_d t l x y z w h d f size) s.uploaded))
            rest
  unfolding run exec exec_internal exec_gl exec_object exec_stencil exec_lighting exec_names
      exec_evaluator exec_uniform exec_feedback exec_framebuffer exec_sampler exec_packed
      exec_pipeline exec_texture exec_image exec_storage exec_attrib exec_named exec_barrier
      exec_raster exec_matrix exec_scale exec_coordinate exec_secondary exec_values exec_sub_image
      sub_image_words
  sub_image3_d-step t l x y z w h d f size rest = refl

  sub_image2_d-step :
      (t l x y w h f size v v' : ℕ) (rest : List ℕ)
      → run driver (suc fuel) total s (
          sub_image_words Cmd.compressedtexsubimage2d 2 t l (x ∷ y ∷ 0 ∷ []) (w ∷ h ∷ 0 ∷ []) f size
          ++ (v ∷ v' ∷ rest))
        ≡ run driver fuel total
            (gl_call driver s (sub_image (compressed_tex_sub_image2_d t l x y h f v v') s.uploaded))
            rest
  unfolding run exec exec_internal exec_gl exec_object exec_stencil exec_lighting exec_names
      exec_evaluator exec_uniform exec_feedback exec_framebuffer exec_sampler exec_packed
      exec_pipeline exec_texture exec_image exec_storage exec_attrib exec_named exec_barrier
      exec_raster exec_matrix exec_scale exec_coordinate exec_secondary exec_values exec_sub_image
      sub_image_words
  sub_image2_d-step t l x y w h f size v v' rest = refl

module _ (driver : List Effect → ℕ) where
  pub sub_image_stream-step :
      (t l x y z w d k f size : ℕ) (fuel total : ℕ) (s : Server) (values rest : List ℕ)
      → ceil_div size 4 % 2 ^ 32 ≡ length values
      → length values < 2 ^ 31
      → run driver (suc (suc fuel)) total s (
          sub_image_stream Cmd.compressedtexsubimage3d 3 t l
            (x ∷ y ∷ z ∷ [])
            (w ∷ d ∷ k ∷ [])
            f
            size
            values
          ++ rest)
        ≡ run driver fuel total
            (with_data driver s
              (some values)
              (sub_image (compressed_tex_sub_image3_d t l x y z w d k f size)))
            rest
  unfolding sub_image_stream
  sub_image_stream-step t l x y z w d k f size fuel total s values rest e h =
      data_step driver fuel total (ceil_div size 4) s values _ rest e h
      ∙ sub_image3_d-step driver fuel total (record s { uploaded = some values }) t l x y z w d k f
          size rest

  -- glCompressedTexSubImage2D: behind its data the client pushes eight words, of which the server
  -- takes the height for the width and the format for the height; the next two words of the stream
  -- are taken for the format and the size, and are not executed.
  pub run-compressed_sub_image2_d :
      (t l x y w d f size v v' : ℕ) (fuel total : ℕ) (s : Server) (values rest : List ℕ)
      → ceil_div size 4 % 2 ^ 32 ≡ length values
      → length values < 2 ^ 31
      → run driver (suc (suc fuel)) total s (
          sub_image_stream Cmd.compressedtexsubimage2d 2 t l
            (x ∷ y ∷ 0 ∷ [])
            (w ∷ d ∷ 0 ∷ [])
            f
            size
            values
          ++ (v ∷ v' ∷ rest))
        ≡ run driver fuel total
            (with_data driver s
              (some values)
              (sub_image (compressed_tex_sub_image2_d t l x y d f v v')))
            rest
  unfolding sub_image_stream
  run-compressed_sub_image2_d t l x y w d f size v v' fuel total s values rest e h =
      data_step driver fuel total (ceil_div size 4) s values _ (v ∷ v' ∷ rest) e h
      ∙ sub_image2_d-step driver fuel total (record s { uploaded = some values }) t l x y w d f size
          v v' rest
