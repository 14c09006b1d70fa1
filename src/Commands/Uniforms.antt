-- ===== src/Commands/Uniforms.antt =====
-- The uniform functions: glUniform2f to glValidateProgram of src/client/glimpl.c, and their
-- cases in the command switch of src/server/processor.c.
use sharedgl.Prelude.{ℕ, List, [], ◌∷◌, ◌==◌, if◌then◌else◌}
use sharedgl.Commands.Cmd
use sharedgl.Commands.Decode.{Decoded, off_stream, other, pop1, pop2, pop3, pop4, pop5}

-- A call with its arguments; a float is its bit pattern, a narrower integer its `int`.
pub data UniformCall : Type 0 where
  uniform2f : (location v0 v1 : ℕ) → UniformCall
  uniform3f : (location v0 v1 v2 : ℕ) → UniformCall
  uniform4f : (location v0 v1 v2 v3 : ℕ) → UniformCall
  uniform1i : (location v0 : ℕ) → UniformCall
  uniform2i : (location v0 v1 : ℕ) → UniformCall
  uniform3i : (location v0 v1 v2 : ℕ) → UniformCall
  uniform4i : (location v0 v1 v2 v3 : ℕ) → UniformCall
  validate_program : (program : ℕ) → UniformCall

-- The words that the client's function pushes, in order.
unfoldable pub uniform_words : UniformCall → List ℕ
uniform_words (uniform2f location v0 v1) = Cmd.uniform2f ∷ location ∷ v0 ∷ v1 ∷ []
uniform_words (uniform3f location v0 v1 v2) = Cmd.uniform3f ∷ location ∷ v0 ∷ v1 ∷ v2 ∷ []
uniform_words (uniform4f location v0 v1 v2 v3) = Cmd.uniform4f ∷ location ∷ v0 ∷ v1 ∷ v2 ∷ v3 ∷ []
uniform_words (uniform1i location v0) = Cmd.uniform1i ∷ location ∷ v0 ∷ []
uniform_words (uniform2i location v0 v1) = Cmd.uniform2i ∷ location ∷ v0 ∷ v1 ∷ []
uniform_words (uniform3i location v0 v1 v2) = Cmd.uniform3i ∷ location ∷ v0 ∷ v1 ∷ v2 ∷ []
uniform_words (uniform4i location v0 v1 v2 v3) = Cmd.uniform4i ∷ location ∷ v0 ∷ v1 ∷ v2 ∷ v3 ∷ []
uniform_words (validate_program program) = Cmd.validateprogram ∷ program ∷ []

-- The cases of the switch: `other` where the command is none of them.
unfoldable pub exec_uniform : List ℕ → Decoded UniformCall
exec_uniform [] = off_stream
exec_uniform (cmd ∷ ws) =
    if cmd == Cmd.uniform2f
    then pop3 uniform2f ws
    else if cmd == Cmd.uniform3f
    then pop4 uniform3f ws
    else if cmd == Cmd.uniform4f
    then pop5 uniform4f ws
    else if cmd == Cmd.uniform1i
    then pop2 uniform1i ws
    else if cmd == Cmd.uniform2i
    then pop3 uniform2i ws
    else if cmd == Cmd.uniform3i
    then pop4 uniform3i ws
    else if cmd == Cmd.uniform4i
    then pop5 uniform4i ws
    else if cmd == Cmd.validateprogram
    then pop1 validate_program ws
    else other
