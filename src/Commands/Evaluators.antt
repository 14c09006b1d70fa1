-- ===== src/Commands/Evaluators.antt =====
-- The evaluator and pixel transfer functions: glEvalCoord2f to glCopyPixels of
-- src/client/glimpl.c, and their cases in the command switch of src/server/processor.c.
use sharedgl.Prelude.{ℕ, List, [], ◌∷◌, ◌==◌, if◌then◌else◌}
use sharedgl.Commands.Cmd
use sharedgl.Commands.Decode.{Decoded, off_stream, other, pop1, pop2, pop3, pop5}

-- A call with its arguments; a float is its bit pattern, a narrower integer its `int`.
pub data EvaluatorCall : Type 0 where
  eval_coord2f : (u v : ℕ) → EvaluatorCall
  eval_mesh1 : (mode i1 i2 : ℕ) → EvaluatorCall
  eval_point1 : (i : ℕ) → EvaluatorCall
  eval_mesh2 : (mode i1 i2 j1 j2 : ℕ) → EvaluatorCall
  eval_point2 : (i j : ℕ) → EvaluatorCall
  alpha_func : (func ref : ℕ) → EvaluatorCall
  pixel_zoom : (xfactor yfactor : ℕ) → EvaluatorCall
  pixel_transferf : (pname param : ℕ) → EvaluatorCall
  pixel_transferi : (pname param : ℕ) → EvaluatorCall
  copy_pixels : (x y width height type : ℕ) → EvaluatorCall

-- The words that the client's function pushes, in order.
unfoldable pub evaluator_words : EvaluatorCall → List ℕ
evaluator_words (eval_coord2f u v) = Cmd.evalcoord2f ∷ u ∷ v ∷ []
evaluator_words (eval_mesh1 mode i1 i2) = Cmd.evalmesh1 ∷ mode ∷ i1 ∷ i2 ∷ []
evaluator_words (eval_point1 i) = Cmd.evalpoint1 ∷ i ∷ []
evaluator_words (eval_mesh2 mode i1 i2 j1 j2) = Cmd.evalmesh2 ∷ mode ∷ i1 ∷ i2 ∷ j1 ∷ j2 ∷ []
evaluator_words (eval_point2 i j) = Cmd.evalpoint2 ∷ i ∷ j ∷ []
evaluator_words (alpha_func func ref) = Cmd.alphafunc ∷ func ∷ ref ∷ []
evaluator_words (pixel_zoom xfactor yfactor) = Cmd.pixelzoom ∷ xfactor ∷ yfactor ∷ []
evaluator_words (pixel_transferf pname param) = Cmd.pixeltransferf ∷ pname ∷ param ∷ []
evaluator_words (pixel_transferi pname param) = Cmd.pixeltransferi ∷ pname ∷ param ∷ []
evaluator_words (copy_pixels x y width height type) =
    Cmd.copypixels ∷ x ∷ y ∷ width ∷ height ∷ type ∷ []

-- The cases of the switch: `other` where the command is none of them.
unfoldable pub exec_evaluator : List ℕ → Decoded EvaluatorCall
exec_evaluator [] = off_stream
exec_evaluator (cmd ∷ ws) =
    if cmd == Cmd.evalcoord2f
    then pop2 eval_coord2f ws
    else if cmd == Cmd.evalmesh1
    then pop3 eval_mesh1 ws
    else if cmd == Cmd.evalpoint1
    then pop1 eval_point1 ws
    else if cmd == Cmd.evalmesh2
    then pop5 eval_mesh2 ws
    else if cmd == Cmd.evalpoint2
    then pop2 eval_point2 ws
    else if cmd == Cmd.alphafunc
    then pop2 alpha_func ws
    else if cmd == Cmd.pixelzoom
    then pop2 pixel_zoom ws
    else if cmd == Cmd.pixeltransferf
    then pop2 pixel_transferf ws
    else if cmd == Cmd.pixeltransferi
    then pop2 pixel_transferi ws
    else if cmd == Cmd.copypixels
    then pop5 copy_pixels ws
    else other
