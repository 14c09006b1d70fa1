-- ===== src/Server/Within.antt =====
-- Each case of the switch of src/server/processor.c leaves at most the words that stand behind the
-- command.
use sharedgl.Prelude.{ℕ, ◌≤◌, Bool, true, false, List, [], ◌∷◌, length, if◌then◌else◌, arith}
use sharedgl.Commands.Decode.{
  Decoded, call, off_stream, other, pop0, pop1, pop2, pop3, pop4, pop5, pop6, pop7, pop8, pop9,
  pop10, pop11, pop12, pop13, pop14, pop15,
}
use sharedgl.Commands.Objects.{exec_object}
use sharedgl.Commands.Stencil.{exec_stencil}
use sharedgl.Commands.Lighting.{exec_lighting}
use sharedgl.Commands.Names.{exec_names}
use sharedgl.Commands.Evaluators.{exec_evaluator}
use sharedgl.Commands.Uniforms.{exec_uniform}
use sharedgl.Commands.Feedback.{exec_feedback}
use sharedgl.Commands.Framebuffers.{exec_framebuffer}
use sharedgl.Commands.Samplers.{exec_sampler}
use sharedgl.Commands.Packed.{exec_packed}
use sharedgl.Commands.Pipelines.{exec_pipeline}
use sharedgl.Commands.Textures.{exec_texture}
use sharedgl.Commands.Images.{exec_image}
use sharedgl.Commands.Storages.{exec_storage}
use sharedgl.Commands.Attribs.{exec_attrib}
use sharedgl.Commands.NamedTargets.{exec_named}
use sharedgl.Commands.Barriers.{exec_barrier}
use sharedgl.Commands.Rasters.{exec_raster}
use sharedgl.Commands.Matrices.{exec_matrix}
use sharedgl.Commands.Scales.{exec_scale}
use sharedgl.Commands.Coordinates.{exec_coordinate}
use sharedgl.Commands.Secondaries.{exec_secondary}
use sharedgl.Commands.Values.{exec_values}
use sharedgl.Commands.Texels.{exec_texels}
use sharedgl.Commands.SubImages.{exec_sub_image}

-- What a case leaves, if it ran, is no longer than `ws`.
pub data Within {ℓ} {A : Type ℓ} (ws : List ℕ) : Decoded A → Type ℓ where
  ran : (a : A) (rest : List ℕ) → length rest ≤ length ws → Within ws (call a rest)
  stopped : Within ws off_stream
  passed : Within ws other

pub if-Within {ℓ} :
    {A : Type ℓ} {ws : List ℕ} {d e : Decoded A} (t : Bool)
    → Within ws d
    → Within ws e
    → Within ws (if t then d else e)
if-Within true d e = d
if-Within false d e = e

Within-later {ℓ} :
    {A : Type ℓ} {ws : List ℕ} {d : Decoded A} (w : ℕ) → Within ws d → Within (w ∷ ws) d
Within-later w (ran a rest h) = ran a rest (omega arith)
Within-later w stopped = stopped
Within-later w passed = passed

module _ {ℓ} {A : Type ℓ} where
  pub pop0-Within : (f : A) (ws : List ℕ) → Within ws (pop0 f ws)
  pop0-Within f ws = ran f ws (omega arith)

  pub pop1-Within : (f : ℕ → A) (ws : List ℕ) → Within ws (pop1 f ws)
  pop1-Within f [] = stopped
  pop1-Within f (a ∷ ws) = ran (f a) ws (omega arith)

  pub pop2-Within : (f : ℕ → ℕ → A) (ws : List ℕ) → Within ws (pop2 f ws)
  pop2-Within f [] = stopped
  pop2-Within f (a ∷ ws) = Within-later a (pop1-Within (f a) ws)

  pub pop3-Within : (f : ℕ → ℕ → ℕ → A) (ws : List ℕ) → Within ws (pop3 f ws)
  pop3-Within f [] = stopped
  pop3-Within f (a ∷ ws) = Within-later a (pop2-Within (f a) ws)

  pub pop4-Within : (f : ℕ → ℕ → ℕ → ℕ → A) (ws : List ℕ) → Within ws (pop4 f ws)
  pop4-Within f [] = stopped
  pop4-Within f (a ∷ ws) = Within-later a (pop3-Within (f a) ws)

  pub pop5-Within : (f : ℕ → ℕ → ℕ → ℕ → ℕ → A) (ws : List ℕ) → Within ws (pop5 f ws)
  pop5-Within f [] = stopped
  pop5-Within f (a ∷ ws) = Within-later a (pop4-Within (f a) ws)

  pub pop6-Within : (f : ℕ → ℕ → ℕ → ℕ → ℕ → ℕ → A) (ws : List ℕ) → Within ws (pop6 f ws)
  pop6-Within f [] = stopped
  pop6-Within f (a ∷ ws) = Within-later a (pop5-Within (f a) ws)

  pub pop7-Within : (f : ℕ → ℕ → ℕ → ℕ → ℕ → ℕ → ℕ → A) (ws : List ℕ) → Within ws (pop7 f ws)
  pop7-Within f [] = stopped
  pop7-Within f (a ∷ ws) = Within-later a (pop6-Within (f a) ws)

  pub pop8-Within : (f : ℕ → ℕ → ℕ → ℕ → ℕ → ℕ → ℕ → ℕ → A) (ws : List ℕ) → Within ws (pop8 f ws)
  pop8-Within f [] = stopped
  pop8-Within f (a ∷ ws) = Within-later a (pop7-Within (f a) ws)

  pub pop9-Within :
      (f : ℕ → ℕ → ℕ → ℕ → ℕ → ℕ → ℕ → ℕ → ℕ → A) (ws : List ℕ) → Within ws (pop9 f ws)
  pop9-Within f [] = stopped
  pop9-Within f (a ∷ ws) = Within-later a (pop8-Within (f a) ws)

  pub pop10-Within :
      (f : ℕ → ℕ → ℕ → ℕ → ℕ → ℕ → ℕ → ℕ → ℕ → ℕ → A) (ws : List ℕ) → Within ws (pop10 f ws)
  pop10-Within f [] = stopped
  pop10-Within f (a ∷ ws) = Within-later a (pop9-Within (f a) ws)

  pub pop11-Within :
      (f : ℕ → ℕ → ℕ → ℕ → ℕ → ℕ → ℕ → ℕ → ℕ → ℕ → ℕ → A) (ws : List ℕ) → Within ws (pop11 f ws)
  pop11-Within f [] = stopped
  pop11-Within f (a ∷ ws) = Within-later a (pop10-Within (f a) ws)

  pub pop12-Within :
      (f : ℕ → ℕ → ℕ → ℕ → ℕ → ℕ → ℕ → ℕ → ℕ → ℕ → ℕ → ℕ → A) (ws : List ℕ) → Within ws (pop12 f ws)
  pop12-Within f [] = stopped
  pop12-Within f (a ∷ ws) = Within-later a (pop11-Within (f a) ws)

  pub pop13-Within :
      (f : ℕ → ℕ → ℕ → ℕ → ℕ → ℕ → ℕ → ℕ → ℕ → ℕ → ℕ → ℕ → ℕ → A) (ws : List ℕ)
      → Within ws (pop13 f ws)
  pop13-Within f [] = stopped
  pop13-Within f (a ∷ ws) = Within-later a (pop12-Within (f a) ws)

  pub pop14-Within :
      (f : ℕ → ℕ → ℕ → ℕ → ℕ → ℕ → ℕ → ℕ → ℕ → ℕ → ℕ → ℕ → ℕ → ℕ → A) (ws : List ℕ)
      → Within ws (pop14 f ws)
  pop14-Within f [] = stopped
  pop14-Within f (a ∷ ws) = Within-later a (pop13-Within (f a) ws)

  pub pop15-Within :
      (f : ℕ → ℕ → ℕ → ℕ → ℕ → ℕ → ℕ → ℕ → ℕ → ℕ → ℕ → ℕ → ℕ → ℕ → ℕ → A) (ws : List ℕ)
      → Within ws (pop15 f ws)
  pop15-Within f [] = stopped
  pop15-Within f (a ∷ ws) = Within-later a (pop14-Within (f a) ws)

pub ruleset cases = (
  if-Within, passed, pop0-Within, pop1-Within, pop2-Within, pop3-Within, pop4-Within, pop5-Within,
  pop6-Within, pop7-Within, pop8-Within, pop9-Within, pop10-Within, pop11-Within, pop12-Within,
  pop13-Within, pop14-Within, pop15-Within,
)

pub exec_object-Within : (cmd : ℕ) (ws : List ℕ) → Within ws (exec_object (cmd ∷ ws))
unfolding exec_object
exec_object-Within cmd ws = search cases depth 80

pub exec_stencil-Within : (cmd : ℕ) (ws : List ℕ) → Within ws (exec_stencil (cmd ∷ ws))
unfolding exec_stencil
exec_stencil-Within cmd ws = search cases depth 80

pub exec_lighting-Within : (cmd : ℕ) (ws : List ℕ) → Within ws (exec_lighting (cmd ∷ ws))
unfolding exec_lighting
exec_lighting-Within cmd ws = search cases depth 80

pub exec_names-Within : (cmd : ℕ) (ws : List ℕ) → Within ws (exec_names (cmd ∷ ws))
unfolding exec_names
exec_names-Within cmd ws = search cases depth 80

pub exec_evaluator-Within : (cmd : ℕ) (ws : List ℕ) → Within ws (exec_evaluator (cmd ∷ ws))
unfolding exec_evaluator
exec_evaluator-Within cmd ws = search cases depth 80

pub exec_uniform-Within : (cmd : ℕ) (ws : List ℕ) → Within ws (exec_uniform (cmd ∷ ws))
unfolding exec_uniform
exec_uniform-Within cmd ws = search cases depth 80

pub exec_feedback-Within : (cmd : ℕ) (ws : List ℕ) → Within ws (exec_feedback (cmd ∷ ws))
unfolding exec_feedback
exec_feedback-Within cmd ws = search cases depth 80

pub exec_framebuffer-Within : (cmd : ℕ) (ws : List ℕ) → Within ws (exec_framebuffer (cmd ∷ ws))
unfolding exec_framebuffer
exec_framebuffer-Within cmd ws = search cases depth 80

pub exec_sampler-Within : (cmd : ℕ) (ws : List ℕ) → Within ws (exec_sampler (cmd ∷ ws))
unfolding exec_sampler
exec_sampler-Within cmd ws = search cases depth 80

pub exec_packed-Within : (cmd : ℕ) (ws : List ℕ) → Within ws (exec_packed (cmd ∷ ws))
unfolding exec_packed
exec_packed-Within cmd ws = search cases depth 80

pub exec_pipeline-Within : (cmd : ℕ) (ws : List ℕ) → Within ws (exec_pipeline (cmd ∷ ws))
unfolding exec_pipeline
exec_pipeline-Within cmd ws = search cases depth 80

pub exec_texture-Within : (cmd : ℕ) (ws : List ℕ) → Within ws (exec_texture (cmd ∷ ws))
unfolding exec_texture
exec_texture-Within cmd ws = search cases depth 80

pub exec_image-Within : (cmd : ℕ) (ws : List ℕ) → Within ws (exec_image (cmd ∷ ws))
unfolding exec_image
exec_image-Within cmd ws = search cases depth 80

pub exec_storage-Within : (cmd : ℕ) (ws : List ℕ) → Within ws (exec_storage (cmd ∷ ws))
unfolding exec_storage
exec_storage-Within cmd ws = search cases depth 80

pub exec_attrib-Within : (cmd : ℕ) (ws : List ℕ) → Within ws (exec_attrib (cmd ∷ ws))
unfolding exec_attrib
exec_attrib-Within cmd ws = search cases depth 80

pub exec_named-Within : (cmd : ℕ) (ws : List ℕ) → Within ws (exec_named (cmd ∷ ws))
unfolding exec_named
exec_named-Within cmd ws = search cases depth 80

pub exec_barrier-Within : (cmd : ℕ) (ws : List ℕ) → Within ws (exec_barrier (cmd ∷ ws))
unfolding exec_barrier
exec_barrier-Within cmd ws = search cases depth 80

pub exec_raster-Within : (cmd : ℕ) (ws : List ℕ) → Within ws (exec_raster (cmd ∷ ws))
unfolding exec_raster
exec_raster-Within cmd ws = search cases depth 80

pub exec_matrix-Within : (cmd : ℕ) (ws : List ℕ) → Within ws (exec_matrix (cmd ∷ ws))
unfolding exec_matrix
exec_matrix-Within cmd ws = search cases depth 80

pub exec_scale-Within : (cmd : ℕ) (ws : List ℕ) → Within ws (exec_scale (cmd ∷ ws))
unfolding exec_scale
exec_scale-Within cmd ws = search cases depth 80

pub exec_coordinate-Within : (cmd : ℕ) (ws : List ℕ) → Within ws (exec_coordinate (cmd ∷ ws))
unfolding exec_coordinate
exec_coordinate-Within cmd ws = search cases depth 80

pub exec_secondary-Within : (cmd : ℕ) (ws : List ℕ) → Within ws (exec_secondary (cmd ∷ ws))
unfolding exec_secondary
exec_secondary-Within cmd ws = search cases depth 80

pub exec_values-Within : (cmd : ℕ) (ws : List ℕ) → Within ws (exec_values (cmd ∷ ws))
unfolding exec_values
exec_values-Within cmd ws = search cases depth 80

pub exec_sub_image-Within : (cmd : ℕ) (ws : List ℕ) → Within ws (exec_sub_image (cmd ∷ ws))
unfolding exec_sub_image
exec_sub_image-Within cmd ws = search cases depth 80

pub exec_texels-Within : (cmd : ℕ) (ws : List ℕ) → Within ws (exec_texels (cmd ∷ ws))
unfolding exec_texels
exec_texels-Within cmd ws = search cases depth 80
