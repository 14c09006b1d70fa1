-- ===== src/Commands/Values.antt =====
-- The matrix uniforms that are not square: glUniformMatrix2x3fv to glUniformMatrix4x3fv of
-- src/client/glimpl.c, and their cases in the command switch of src/server/processor.c. The values
-- are uploaded in front of the command.
use sharedgl.Prelude.{ℕ, ◌*◌, ◌%◌, ◌^◌, List, [], ◌∷◌, ◌++◌, ◌==◌, if◌then◌else◌}
use sharedgl.Commands.Cmd
use sharedgl.Commands.Decode.{Decoded, off_stream, other, pop3}

-- A call with its arguments, but for the values.
pub data ValueCall : Type 0 where
  uniform_matrix2x3fv : (location count transpose : ℕ) → ValueCall
  uniform_matrix3x2fv : (location count transpose : ℕ) → ValueCall
  uniform_matrix2x4fv : (location count transpose : ℕ) → ValueCall
  uniform_matrix4x2fv : (location count transpose : ℕ) → ValueCall
  uniform_matrix3x4fv : (location count transpose : ℕ) → ValueCall
  uniform_matrix4x3fv : (location count transpose : ℕ) → ValueCall

-- The number of values
unfoldable pub value_count : ValueCall → ℕ
value_count (uniform_matrix2x3fv location count transpose) = count * 2 * 3
value_count (uniform_matrix3x2fv location count transpose) = count * 3 * 2
value_count (uniform_matrix2x4fv location count transpose) = count * 2 * 4
value_count (uniform_matrix4x2fv location count transpose) = count * 4 * 2
value_count (uniform_matrix3x4fv location count transpose) = count * 3 * 4
value_count (uniform_matrix4x3fv location count transpose) = count * 4 * 3

-- The words of the command itself
unfoldable pub command_words : ValueCall → List ℕ
command_words (uniform_matrix2x3fv location count transpose) =
    Cmd.uniformmatrix2x3fv ∷ location ∷ count ∷ transpose ∷ []
command_words (uniform_matrix3x2fv location count transpose) =
    Cmd.uniformmatrix3x2fv ∷ location ∷ count ∷ transpose ∷ []
command_words (uniform_matrix2x4fv location count transpose) =
    Cmd.uniformmatrix2x4fv ∷ location ∷ count ∷ transpose ∷ []
command_words (uniform_matrix4x2fv location count transpose) =
    Cmd.uniformmatrix4x2fv ∷ location ∷ count ∷ transpose ∷ []
command_words (uniform_matrix3x4fv location count transpose) =
    Cmd.uniformmatrix3x4fv ∷ location ∷ count ∷ transpose ∷ []
command_words (uniform_matrix4x3fv location count transpose) =
    Cmd.uniformmatrix4x3fv ∷ location ∷ count ∷ transpose ∷ []

-- The words that the client's function pushes, in order; `values` is what its loop pushes.
unfoldable pub value_words : ValueCall → List ℕ → List ℕ
value_words c values = Cmd.vp_upload ∷ value_count c % 2 ^ 32 ∷ (values ++ command_words c)

-- The cases of the switch: `other` where the command is none of them.
unfoldable pub exec_values : List ℕ → Decoded ValueCall
exec_values [] = off_stream
exec_values (cmd ∷ ws) =
    if cmd == Cmd.uniformmatrix2x3fv
    then pop3 uniform_matrix2x3fv ws
    else if cmd == Cmd.uniformmatrix3x2fv
    then pop3 uniform_matrix3x2fv ws
    else if cmd == Cmd.uniformmatrix2x4fv
    then pop3 uniform_matrix2x4fv ws
    else if cmd == Cmd.uniformmatrix4x2fv
    then pop3 uniform_matrix4x2fv ws
    else if cmd == Cmd.uniformmatrix3x4fv
    then pop3 uniform_matrix3x4fv ws
    else if cmd == Cmd.uniformmatrix4x3fv
    then pop3 uniform_matrix4x3fv ws
    else other
