-- ===== src/Server.antt =====
-- The command switch of `sgl_cmd_processor_start` in src/server/processor.c: the loop over one
-- submission. The stream is the list of words from `pb` on; a read behind its end is a fault.
pub mod Rounds
pub mod Sizes
pub mod Client
pub mod Stream
pub mod Uploads
pub mod SubImages
pub mod Within
pub mod Ends
pub mod Tests
use sharedgl.Prelude.{
  ℕ, zero, suc, ◌+◌, ◌-◌, ◌*◌, ◌%◌, ◌^◌, Bool, true, false, ◌||◌, Option, none, some, List, [], ◌∷◌,
  leb, ◌==◌, if◌then◌else◌, length, take, drop,
}
use sharedgl.Commands.Cmd
use sharedgl.Commands.Decode.{Decoded, call, off_stream, other, pop1, pop2, pop4}
use sharedgl.Layout.{int_sign}
use sharedgl.Commands.Objects.{ObjectCall, create_program, create_shader, exec_object}
use sharedgl.Commands.Stencil.{StencilCall, exec_stencil}
use sharedgl.Commands.Lighting.{LightingCall, exec_lighting}
use sharedgl.Commands.Names.{NamesCall, exec_names}
use sharedgl.Commands.Evaluators.{EvaluatorCall, exec_evaluator}
use sharedgl.Commands.Uniforms.{UniformCall, exec_uniform}
use sharedgl.Commands.Feedback.{FeedbackCall, exec_feedback}
use sharedgl.Commands.Framebuffers.{FramebufferCall, exec_framebuffer}
use sharedgl.Commands.Samplers.{SamplerCall, exec_sampler}
use sharedgl.Commands.Packed.{PackedCall, exec_packed}
use sharedgl.Commands.Pipelines.{PipelineCall, exec_pipeline}
use sharedgl.Commands.Textures.{TextureCall, exec_texture}
use sharedgl.Commands.Images.{ImageCall, exec_image}
use sharedgl.Commands.Storages.{StorageCall, exec_storage}
use sharedgl.Commands.Attribs.{AttribCall, exec_attrib}
use sharedgl.Commands.NamedTargets.{NamedCall, exec_named}
use sharedgl.Commands.Barriers.{BarrierCall, exec_barrier}
use sharedgl.Commands.Rasters.{RasterCall, exec_raster}
use sharedgl.Commands.Matrices.{MatrixCall, exec_matrix}
use sharedgl.Commands.Scales.{ScaleCall, exec_scale}
use sharedgl.Commands.Coordinates.{CoordinateCall, exec_coordinate}
use sharedgl.Commands.Secondaries.{SecondaryCall, exec_secondary}
use sharedgl.Commands.Texels.{TexelCall, exec_texels}
use sharedgl.Commands.Values.{ValueCall, exec_values}
use sharedgl.Commands.SubImages.{SubImageCall, exec_sub_image}

-- What a command does outside the loop's own variables: a call of the GL driver, of
-- `connection_rem` or of `sgl_read_pixels`. The last argument of a call that takes data is what
-- `uploaded` points at.
pub data Effect : Type 0 where
  object : ObjectCall → Effect
  stencil : StencilCall → Effect
  lighting : LightingCall → Effect
  names : NamesCall → Effect
  evaluator : EvaluatorCall → Effect
  uniform : UniformCall → Effect
  feedback : FeedbackCall → Effect
  framebuffer : FramebufferCall → Effect
  sampler : SamplerCall → Effect
  packed : PackedCall → Effect
  pipeline : PipelineCall → Effect
  texture : TextureCall → Effect
  image : ImageCall → Effect
  storage : StorageCall → Effect
  attrib : AttribCall → Effect
  named : NamedCall → Effect
  barrier : BarrierCall → Effect
  raster : RasterCall → Effect
  matrix : MatrixCall → Effect
  scale : ScaleCall → Effect
  coordinate : CoordinateCall → Effect
  secondary : SecondaryCall → Effect
  matrix_values : ValueCall → Option (List ℕ) → Effect
  sub_image : SubImageCall → Option (List ℕ) → Effect
  texels : TexelCall → Option (List ℕ) → Effect
  viewport : (x y width height : ℕ) → Effect
  scissor : (x y width height : ℕ) → Effect
  connection_rem : (id : ℕ) → Effect
  read_pixels : (width height vflip format mem_usage : ℕ) → Effect

-- The variables of `sgl_cmd_processor_start` that these commands use, with the effects so far, the
-- latest first. `net` says that `net_ctx` is set; `uploaded` is the words it points at; `retval` is
-- the RETVAL register. `server` is set in network mode only, which `net` says too.
pub record Server : Type 0 where
  pub trace : List Effect
  pub net : Bool
  pub width : ℕ
  pub height : ℕ
  pub uploaded : Option (List ℕ)
  pub retval : ℕ
  pub release_client_slot : ℕ
  pub expecting_retval : Bool
  pub did_swap_buffers : Bool

-- `PACK`, in the arithmetic of `int`
unfoldable pub pack : ℕ → ℕ → ℕ
pack a b = a * 2 ^ 16 % 2 ^ 32 + b % 2 ^ 16

abbrev pub effect : Server → Effect → Server
effect s e = record s { trace = e ∷ s.trace }

-- The outcome of one command, with the words behind it. `unmodelled` is a case of the switch that
-- this model leaves out.
pub data Step : Type 0 where
  next : Server → List ℕ → Step
  fault : Step
  unmodelled : Step

-- The outcome of the loop, with the words behind the `SGL_CMD_INVALID` that ends it.
pub data Outcome : Type 0 where
  finished : Server → List ℕ → Outcome
  failed : Step → Outcome
  out_of_fuel : Outcome

-- `SGL_CMD_VP_UPLOAD`: a negative count moves nothing. `SGL_CMD_VP_UPLOAD_STAY` keeps a copy of the
-- same words.
unfoldable pub upload : Server → List ℕ → Decoded Server
upload s [] = off_stream
upload s (c ∷ ws) =
    let n = if int_sign c then 0 else c in
    if leb n (length ws)
    then call (record s { uploaded = some (take n ws) }) (drop n ws)
    else off_stream

-- The internal commands; `total` is the number of words from `cmd_base` on.
unfoldable pub exec_internal : ℕ → Server → ℕ → List ℕ → Decoded Server
exec_internal total s cmd ws =
    if cmd == Cmd.create_context
    then call (record s { retval = pack s.width s.height }) ws
    else if cmd == Cmd.goodbye_world
    then pop1
        (λ id.
          if s.net
          then record s { expecting_retval = false }
          else record (effect s (connection_rem id)) { release_client_slot = id })
        ws
    else if cmd == Cmd.report_dims
    then pop2 (λ w h. effect (effect s (viewport 0 0 w h)) (scissor 0 0 w h)) ws
    else if cmd == Cmd.swap_buffers
    then pop4
        (λ w h vflip format.
          record (effect s (read_pixels w h vflip format (4 * (total - (length ws - 4))))) {
            did_swap_buffers = s.net;
          })
        ws
    else if cmd == Cmd.vp_upload || cmd == Cmd.vp_upload_stay
    then upload s ws
    else if cmd == Cmd.vp_null
    then call (record s { uploaded = none }) ws
    else other

-- A GL command whose case makes one call with the words that it pops.
abbrev pub as_effect : {A : Type 0} → (A → Effect) → Decoded A → Decoded Effect → Decoded Effect
as_effect f (call a ws) rest = call (f a) ws
as_effect f off_stream rest = off_stream
as_effect f other rest = rest

unfoldable pub exec_gl : Option (List ℕ) → List ℕ → Decoded Effect
exec_gl uploaded ws = as_effect object (exec_object ws) (
    as_effect stencil (exec_stencil ws) (
      as_effect lighting (exec_lighting ws) (
        as_effect names (exec_names ws) (
          as_effect evaluator (exec_evaluator ws) (
            as_effect uniform (exec_uniform ws) (
              as_effect feedback (exec_feedback ws) (
                as_effect framebuffer (exec_framebuffer ws) (
                  as_effect sampler (exec_sampler ws) (
                    as_effect packed (exec_packed ws) (
                      as_effect pipeline (exec_pipeline ws) (
                        as_effect texture (exec_texture ws) (
                          as_effect image (exec_image ws) (
                            as_effect storage (exec_storage ws) (
                              as_effect attrib (exec_attrib ws) (
                                as_effect named (exec_named ws) (
                                  as_effect barrier (exec_barrier ws) (
                                    as_effect raster (exec_raster ws) (
                                      as_effect matrix (exec_matrix ws) (
                                        as_effect scale (exec_scale ws) (
                                          as_effect coordinate (exec_coordinate ws) (
                                            as_effect secondary (exec_secondary ws) (
                                              as_effect (λ c. matrix_values c uploaded)
                                                (exec_values ws)
                                                (as_effect (λ c. sub_image c uploaded)
                                                  (exec_sub_image ws)
                                                  (as_effect (λ c. texels c uploaded)
                                                    (exec_texels ws) other))))))))))))))))))))))))

-- The commands that no case of the switch names, of which a client sends the first: only the
-- command's own word is read.
abbrev pub no_case : ℕ → Bool
no_case cmd = cmd == Cmd.vertexattrib4ubv || leb Cmd.max cmd

-- The calls whose value the case stores in the RETVAL register.
abbrev pub returns : Effect → Bool
returns (object create_program) = true
returns (object (create_shader type)) = true
returns _ = false

-- `driver` is the GL driver: the value that the latest call of a trace returns.
module _ (driver : List Effect → ℕ) where
  abbrev pub gl_call : Server → Effect → Server
  gl_call s e = record s {
    trace = e ∷ s.trace;
    retval = if returns e then driver (e ∷ s.trace) else s.retval;
  }

  -- One round of the loop, for a command that is not `SGL_CMD_INVALID`. Reporting GL errors after
  -- it is left out.
  unfoldable pub exec : ℕ → Server → ℕ → List ℕ → Step
  exec total s cmd ws = elim (exec_internal total s cmd ws) [
    | call s' ws' ↦ next s' ws'
    | off_stream ↦ fault
    | other ↦ elim (exec_gl s.uploaded (cmd ∷ ws)) [
      | call e ws' ↦ next (gl_call s e) ws'
      | off_stream ↦ fault
      | other ↦ if no_case cmd then next s ws else unmodelled
    ]
  ]

  -- `while (*pb != SGL_CMD_INVALID)`. Each round reads a word, so more fuel than words is enough.
  unfoldable pub run : ℕ → ℕ → Server → List ℕ → Outcome
  run zero total s ws = out_of_fuel
  run (suc fuel) total s [] = failed fault
  run (suc fuel) total s (cmd ∷ ws) = elim (cmd == Cmd.invalid) [
    | true ↦ finished s ws
    | false ↦ elim (exec total s cmd ws) [
      | next s' ws' ↦ run fuel total s' ws'
      | fault ↦ failed fault
      | unmodelled ↦ failed unmodelled
    ]
  ]
