-- ===== src/Commands/Coordinates.antt =====
-- The multitexture and fog coordinate functions: glMultiTexCoord4f to glFogCoordf of
-- src/client/glimpl.c, and their cases in the command switch of src/server/processor.c.
use sharedgl.Prelude.{ℕ, List, [], ◌∷◌, ◌==◌, if◌then◌else◌}
use sharedgl.Commands.Cmd
use sharedgl.Commands.Decode.{Decoded, off_stream, other, pop1, pop2, pop4, pop5}

-- A call with its arguments; a float is its bit pattern, a narrower integer its `int`.
pub data CoordinateCall : Type 0 where
  multi_tex_coord4f : (target s t r q : ℕ) → CoordinateCall
  multi_tex_coord4i : (target s t r q : ℕ) → CoordinateCall
  multi_tex_coord4s : (target s t r q : ℕ) → CoordinateCall
  blend_func_separate : (sfactor_rgb dfactor_rgb sfactor_alpha dfactor_alpha : ℕ) → CoordinateCall
  point_parameterf : (pname param : ℕ) → CoordinateCall
  point_parameteri : (pname param : ℕ) → CoordinateCall
  fog_coordf : (coord : ℕ) → CoordinateCall

-- The words that the client's function pushes, in order.
unfoldable pub coordinate_words : CoordinateCall → List ℕ
coordinate_words (multi_tex_coord4f target s t r q) =
    Cmd.multitexcoord4f ∷ target ∷ s ∷ t ∷ r ∷ q ∷ []
coordinate_words (multi_tex_coord4i target s t r q) =
    Cmd.multitexcoord4i ∷ target ∷ s ∷ t ∷ r ∷ q ∷ []
coordinate_words (multi_tex_coord4s target s t r q) =
    Cmd.multitexcoord4s ∷ target ∷ s ∷ t ∷ r ∷ q ∷ []
coordinate_words (blend_func_separate sfactor_rgb dfactor_rgb sfactor_alpha dfactor_alpha) =
    Cmd.blendfuncseparate ∷ sfactor_rgb ∷ dfactor_rgb ∷ sfactor_alpha ∷ dfactor_alpha ∷ []
coordinate_words (point_parameterf pname param) = Cmd.pointparameterf ∷ pname ∷ param ∷ []
coordinate_words (point_parameteri pname param) = Cmd.pointparameteri ∷ pname ∷ param ∷ []
coordinate_words (fog_coordf coord) = Cmd.fogcoordf ∷ coord ∷ []

-- The cases of the switch: `other` where the command is none of them.
unfoldable pub exec_coordinate : List ℕ → Decoded CoordinateCall
exec_coordinate [] = off_stream
exec_coordinate (cmd ∷ ws) =
    if cmd == Cmd.multitexcoord4f
    then pop5 multi_tex_coord4f ws
    else if cmd == Cmd.multitexcoord4i
    then pop5 multi_tex_coord4i ws
    else if cmd == Cmd.multitexcoord4s
    then pop5 multi_tex_coord4s ws
    else if cmd == Cmd.blendfuncseparate
    then pop4 blend_func_separate ws
    else if cmd == Cmd.pointparameterf
    then pop2 point_parameterf ws
    else if cmd == Cmd.pointparameteri
    then pop2 point_parameteri ws
    else if cmd == Cmd.fogcoordf
    then pop1 fog_coordf ws
    else other
