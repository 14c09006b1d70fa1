-- ===== src/Commands/Pipelines.antt =====
-- The query and program pipeline functions: glPauseTransformFeedback to glBindProgramPipeline of
-- src/client/glimpl.c, and their cases in the command switch of src/server/processor.c.
use sharedgl.Prelude.{ℕ, List, [], ◌∷◌, ◌==◌, if◌then◌else◌}
use sharedgl.Commands.Cmd
use sharedgl.Commands.Decode.{Decoded, off_stream, other, pop0, pop1, pop2, pop3}

-- A call with its arguments; a float is its bit pattern, a narrower integer its `int`.
pub data PipelineCall : Type 0 where
  pause_transform_feedback : PipelineCall
  resume_transform_feedback : PipelineCall
  draw_transform_feedback : (mode id : ℕ) → PipelineCall
  draw_transform_feedback_stream : (mode id stream : ℕ) → PipelineCall
  begin_query_indexed : (target index id : ℕ) → PipelineCall
  end_query_indexed : (target index : ℕ) → PipelineCall
  release_shader_compiler : PipelineCall
  depth_rangef : (n f : ℕ) → PipelineCall
  clear_depthf : (d : ℕ) → PipelineCall
  program_parameteri : (program pname value : ℕ) → PipelineCall
  use_program_stages : (pipeline stages program : ℕ) → PipelineCall
  active_shader_program : (pipeline program : ℕ) → PipelineCall
  bind_program_pipeline : (pipeline : ℕ) → PipelineCall

-- The words that the client's function pushes, in order.
unfoldable pub pipeline_words : PipelineCall → List ℕ
pipeline_words pause_transform_feedback = Cmd.pausetransformfeedback ∷ []
pipeline_words resume_transform_feedback = Cmd.resumetransformfeedback ∷ []
pipeline_words (draw_transform_feedback mode id) = Cmd.drawtransformfeedback ∷ mode ∷ id ∷ []
pipeline_words (draw_transform_feedback_stream mode id stream) =
    Cmd.drawtransformfeedbackstream ∷ mode ∷ id ∷ stream ∷ []
pipeline_words (begin_query_indexed target index id) =
    Cmd.beginqueryindexed ∷ target ∷ index ∷ id ∷ []
pipeline_words (end_query_indexed target index) = Cmd.endqueryindexed ∷ target ∷ index ∷ []
pipeline_words release_shader_compiler = Cmd.releaseshadercompiler ∷ []
pipeline_words (depth_rangef n f) = Cmd.depthrangef ∷ n ∷ f ∷ []
pipeline_words (clear_depthf d) = Cmd.cleardepthf ∷ d ∷ []
pipeline_words (program_parameteri program pname value) =
    Cmd.programparameteri ∷ program ∷ pname ∷ value ∷ []
pipeline_words (use_program_stages pipeline stages program) =
    Cmd.useprogramstages ∷ pipeline ∷ stages ∷ program ∷ []
pipeline_words (active_shader_program pipeline program) =
    Cmd.activeshaderprogram ∷ pipeline ∷ program ∷ []
pipeline_words (bind_program_pipeline pipeline) = Cmd.bindprogrampipeline ∷ pipeline ∷ []

-- The cases of the switch: `other` where the command is none of them.
unfoldable pub exec_pipeline : List ℕ → Decoded PipelineCall
exec_pipeline [] = off_stream
exec_pipeline (cmd ∷ ws) =
    if cmd == Cmd.pausetransformfeedback
    then pop0 pause_transform_feedback ws
    else if cmd == Cmd.resumetransformfeedback
    then pop0 resume_transform_feedback ws
    else if cmd == Cmd.drawtransformfeedback
    then pop2 draw_transform_feedback ws
    else if cmd == Cmd.drawtransformfeedbackstream
    then pop3 draw_transform_feedback_stream ws
    else if cmd == Cmd.beginqueryindexed
    then pop3 begin_query_indexed ws
    else if cmd == Cmd.endqueryindexed
    then pop2 end_query_indexed ws
    else if cmd == Cmd.releaseshadercompiler
    then pop0 release_shader_compiler ws
    else if cmd == Cmd.depthrangef
    then pop2 depth_rangef ws
    else if cmd == Cmd.cleardepthf
    then pop1 clear_depthf ws
    else if cmd == Cmd.programparameteri
    then pop3 program_parameteri ws
    else if cmd == Cmd.useprogramstages
    then pop3 use_program_stages ws
    else if cmd == Cmd.activeshaderprogram
    then pop2 active_shader_program ws
    else if cmd == Cmd.bindprogrampipeline
    then pop1 bind_program_pipeline ws
    else other
