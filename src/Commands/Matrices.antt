-- ===== src/Commands/Matrices.antt =====
-- The matrix functions: glMatrixMode to glShadeModel of src/client/glimpl.c, and their
-- cases in the command switch of src/server/processor.c.
use sharedgl.Prelude.{ℕ, List, [], ◌∷◌, ◌==◌, if◌then◌else◌}
use sharedgl.Commands.Cmd
use sharedgl.Commands.Decode.{Decoded, off_stream, other, pop0, pop1, pop2, pop3, pop4}

-- A call with its arguments; a float is its bit pattern, a narrower integer its `int`.
pub data MatrixCall : Type 0 where
  matrix_mode : (mode : ℕ) → MatrixCall
  new_list : (list mode : ℕ) → MatrixCall
  normal3f : (nx ny nz : ℕ) → MatrixCall
  pop_matrix : MatrixCall
  push_matrix : MatrixCall
  rotatef : (angle x y z : ℕ) → MatrixCall
  shade_model : (mode : ℕ) → MatrixCall

-- The words that the client's function pushes, in order.
unfoldable pub matrix_words : MatrixCall → List ℕ
matrix_words (matrix_mode mode) = Cmd.matrixmode ∷ mode ∷ []
matrix_words (new_list list mode) = Cmd.newlist ∷ list ∷ mode ∷ []
matrix_words (normal3f nx ny nz) = Cmd.normal3f ∷ nx ∷ ny ∷ nz ∷ []
matrix_words pop_matrix = Cmd.popmatrix ∷ []
matrix_words push_matrix = Cmd.pushmatrix ∷ []
matrix_words (rotatef angle x y z) = Cmd.rotatef ∷ angle ∷ x ∷ y ∷ z ∷ []
matrix_words (shade_model mode) = Cmd.shademodel ∷ mode ∷ []

-- The cases of the switch: `other` where the command is none of them.
unfoldable pub exec_matrix : List ℕ → Decoded MatrixCall
exec_matrix [] = off_stream
exec_matrix (cmd ∷ ws) =
    if cmd == Cmd.matrixmode
    then pop1 matrix_mode ws
    else if cmd == Cmd.newlist
    then pop2 new_list ws
    else if cmd == Cmd.normal3f
    then pop3 normal3f ws
    else if cmd == Cmd.popmatrix
    then pop0 pop_matrix ws
    else if cmd == Cmd.pushmatrix
    then pop0 push_matrix ws
    else if cmd == Cmd.rotatef
    then pop4 rotatef ws
    else if cmd == Cmd.shademodel
    then pop1 shade_model ws
    else other
