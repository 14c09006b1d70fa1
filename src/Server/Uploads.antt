-- ===== src/Server/Uploads.antt =====
-- Calls that upload data in front of their command.
use mathlib.Core.List.{append_assoc}
use sharedgl.Prelude.{
  Option, none, ℕ, suc, ◌%◌, ◌^◌, ◌≤◌, ◌<◌, ◌≡◌, refl, ap, ◌∙◌, true, false, some, List, [], ◌∷◌,
  ◌++◌, length, take, drop, leb, arith, length-append,
}
use sharedgl.Layout.{int_sign, ceil_div}
use sharedgl.Commands.Cmd
use sharedgl.Commands.Decode.{call}
use sharedgl.Commands.Objects.{exec_object}
use sharedgl.Commands.Stencil.{exec_stencil}
use sharedgl.Commands.Lighting.{exec_lighting}
use sharedgl.Commands.Names.{exec_names}
use sharedgl.Commands.Evaluators.{exec_evaluator}
use sharedgl.Commands.Uniforms.{exec_uniform}
use sharedgl.Commands.Feedback.{exec_feedback}
use sharedgl.Commands.Framebuffers.{exec_framebuffer}
use sharedgl.Commands.Samplers.{exec_sampler}
use sharedgl.Commands.Packed.{exec_packed}
use sharedgl.Commands.Pipelines.{exec_pipeline}
use sharedgl.Commands.Textures.{exec_texture}
use sharedgl.Commands.Images.{exec_image}
use sharedgl.Commands.Storages.{exec_storage}
use sharedgl.Commands.Attribs.{exec_attrib}
use sharedgl.Commands.NamedTargets.{exec_named}
use sharedgl.Commands.Barriers.{exec_barrier}
use sharedgl.Commands.Rasters.{exec_raster}
use sharedgl.Commands.Matrices.{exec_matrix}
use sharedgl.Commands.Scales.{exec_scale}
use sharedgl.Commands.Coordinates.{exec_coordinate}
use sharedgl.Commands.Secondaries.{exec_secondary}
use sharedgl.Pixels.{PixelStore}
use sharedgl.Commands.Texels.{
  TexelCall, tex_image1_d, texture_image_words, texture_subimage_words, texel_words, texel_span,
  texel_stream, exec_texels,
}
use sharedgl.Commands.Values.{
  ValueCall, uniform_matrix2x3fv, value_count, command_words, value_words, exec_values,
}
use sharedgl.Commands.SubImages.{exec_sub_image}
use sharedgl.Server.{
  Effect, matrix_values, texels, Server, upload, exec_internal, exec_gl, gl_call, exec, run,
}

-- The count of words that an upload announces is that of its data.
abbrev pub IsUpload : ℕ → List ℕ → Type 0
IsUpload n values = (n % 2 ^ 32 ≡ length values) × (length values < 2 ^ 31)

-- The pixels, if there are any, are as many words as the transfer spans.
abbrev pub IsTexels : PixelStore → TexelCall → Option (List ℕ) → Type 0
IsTexels store c none = Unit
IsTexels store c (some pixels) = IsUpload (ceil_div (texel_span store c) 4) pixels

take-append : (xs ys : List ℕ) → take (length xs) (xs ++ ys) ≡ xs
take-append [] ys = refl
take-append (x ∷ xs) ys = ap (λ t. x ∷ t) (take-append xs ys)

drop-append : (xs ys : List ℕ) → drop (length xs) (xs ++ ys) ≡ ys
drop-append [] ys = refl
drop-append (x ∷ xs) ys = drop-append xs ys

texel_words-pos : (c : TexelCall) → 1 ≤ length (texel_words c)
unfolding texel_words texture_image_words texture_subimage_words
texel_words-pos (tex_image1_d t l i w b f y) = omega arith
texel_words-pos _ = omega arith

upload-eq :
    (s : Server) (n : ℕ) (values rest : List ℕ)
    → n ≡ length values
    → n < 2 ^ 31
    → upload s (n ∷ (values ++ rest)) ≡ call (record s { uploaded = some values }) rest
unfolding upload
upload-eq s n values rest e h =
    let sign : int_sign n ≡ false = ground (arith, h) in
    let room : leb n (length (values ++ rest)) ≡ true =
      ground (arith, e, length-append values rest) in
    let front : take n (values ++ rest) ≡ values =
      ap (λ k. take k (values ++ rest)) e ∙ take-append values rest in
    let behind : drop n (values ++ rest) ≡ rest =
      ap (λ k. drop k (values ++ rest)) e ∙ drop-append values rest in
    rw (sign, room, front, behind) refl

module _ (driver : List Effect → ℕ) (fuel total : ℕ) (s : Server) where
  -- `SGL_CMD_VP_UPLOAD` of `values`.
  pub upload-step :
      (n : ℕ) (values rest : List ℕ)
      → n ≡ length values
      → n < 2 ^ 31
      → run driver (suc fuel) total s (Cmd.vp_upload ∷ n ∷ (values ++ rest))
        ≡ run driver fuel total (record s { uploaded = some values }) rest
  unfolding run exec exec_internal
  upload-step n values rest e h = rw (run, upload-eq s n values rest e h) refl

  values-step :
      (c : ValueCall) (rest : List ℕ)
      → run driver (suc fuel) total s (command_words c ++ rest)
        ≡ run driver fuel total (gl_call driver s (matrix_values c s.uploaded)) rest
  unfolding run exec exec_internal exec_gl exec_object exec_stencil exec_lighting exec_names
      exec_evaluator exec_uniform exec_feedback exec_framebuffer exec_sampler exec_packed
      exec_pipeline exec_texture exec_image exec_storage exec_attrib exec_named exec_barrier
      exec_raster exec_matrix exec_scale exec_coordinate exec_secondary exec_values command_words
  values-step (uniform_matrix2x3fv location count transpose) rest = refl
  values-step _ rest = refl

  texels-step :
      (c : TexelCall) (rest : List ℕ)
      → run driver (suc fuel) total s (texel_words c ++ rest)
        ≡ run driver fuel total (gl_call driver s (texels c s.uploaded)) rest
  unfolding run exec exec_internal exec_gl exec_object exec_stencil exec_lighting exec_names
      exec_evaluator exec_uniform exec_feedback exec_framebuffer exec_sampler exec_packed
      exec_pipeline exec_texture exec_image exec_storage exec_attrib exec_named exec_barrier
      exec_raster exec_matrix exec_scale exec_coordinate exec_secondary exec_values exec_sub_image
      exec_texels texel_words texture_image_words texture_subimage_words
  texels-step (tex_image1_d t l i w b f y) rest = refl
  texels-step _ rest = refl

  null-step :
      (rest : List ℕ)
      → run driver (suc fuel) total s (Cmd.vp_null ∷ rest)
        ≡ run driver fuel total (record s { uploaded = none }) rest
  unfolding run exec exec_internal
  null-step rest = refl

module _ (driver : List Effect → ℕ) where
  -- The server after data and the call that uses them.
  abbrev pub with_data : Server → Option (List ℕ) → (Option (List ℕ) → Effect) → Server
  with_data s u f = gl_call driver (record s { uploaded = u }) (f u)

  -- The upload of `values` and the words behind.
  pub data_step :
      (fuel total n : ℕ) (s : Server) (values words rest : List ℕ)
      → n % 2 ^ 32 ≡ length values
      → length values < 2 ^ 31
      → run driver
          (suc (suc fuel))
          total
          s
          ((Cmd.vp_upload ∷ n % 2 ^ 32 ∷ (values ++ words)) ++ rest)
        ≡ run driver (suc fuel) total (record s { uploaded = some values }) (words ++ rest)
  data_step fuel total n s values words rest e h =
      ap (λ ws. run driver (suc (suc fuel)) total s (Cmd.vp_upload ∷ n % 2 ^ 32 ∷ ws))
        (append_assoc values words rest)
      ∙ upload-step driver (suc fuel) total s (n % 2 ^ 32) values (words ++ rest) e
          (omega (arith, e))

  pub value_words-step :
      (c : ValueCall) (fuel total : ℕ) (s : Server) (values rest : List ℕ)
      → value_count c % 2 ^ 32 ≡ length values
      → length values < 2 ^ 31
      → run driver (suc (suc fuel)) total s (value_words c values ++ rest)
        ≡ run driver fuel total (with_data s (some values) (matrix_values c)) rest
  unfolding value_words
  value_words-step c fuel total s values rest e h =
      data_step fuel total (value_count c) s values (command_words c) rest e h
      ∙ values-step driver fuel total (record s { uploaded = some values }) c rest

  pub texel_stream-step :
      (store : PixelStore) (c : TexelCall) (pixels : Option (List ℕ)) (fuel total : ℕ) (s : Server)
      (rest : List ℕ)
      → IsTexels store c pixels
      → run driver (suc (suc fuel)) total s (texel_stream store c pixels ++ rest)
        ≡ run driver fuel total (with_data s pixels (texels c)) rest
  unfolding texel_stream
  texel_stream-step store c none fuel total s rest h =
      null-step driver (suc fuel) total s (texel_words c ++ rest)
      ∙ texels-step driver fuel total (record s { uploaded = none }) c rest
  texel_stream-step store c (some pixels) fuel total s rest h =
      data_step fuel total (ceil_div (texel_span store c) 4) s pixels (texel_words c) rest h.0 h.1
      ∙ texels-step driver fuel total (record s { uploaded = some pixels }) c rest

pub texel_stream-size :
    (store : PixelStore) (c : TexelCall) (pixels : Option (List ℕ))
    → 2 ≤ length (texel_stream store c pixels)
unfolding texel_stream
texel_stream-size store c none = omega (arith, texel_words-pos c)
texel_stream-size store c (some pixels) = omega arith
