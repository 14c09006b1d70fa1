-- ===== src/Commands/Stencil.antt =====
-- The stencil, mask and flush functions: glStencilMask to glStencilOp of src/client/glimpl.c,
-- and their cases in the command switch of src/server/processor.c.
use sharedgl.Prelude.{ℕ, List, [], ◌∷◌, ◌==◌, if◌then◌else◌}
use sharedgl.Commands.Cmd
use sharedgl.Commands.Decode.{Decoded, off_stream, other, pop0, pop1, pop3, pop4}

-- A call with its arguments; a float is its bit pattern, a narrower integer its `int`.
pub data StencilCall : Type 0 where
  stencil_mask : (mask : ℕ) → StencilCall
  color_mask : (red green blue alpha : ℕ) → StencilCall
  depth_mask : (flag : ℕ) → StencilCall
  finish : StencilCall
  flush : StencilCall
  logic_op : (opcode : ℕ) → StencilCall
  stencil_func : (func ref mask : ℕ) → StencilCall
  stencil_op : (fail zfail zpass : ℕ) → StencilCall

-- The words that the client's function pushes, in order.
unfoldable pub stencil_words : StencilCall → List ℕ
stencil_words (stencil_mask mask) = Cmd.stencilmask ∷ mask ∷ []
stencil_words (color_mask red green blue alpha) = Cmd.colormask ∷ red ∷ green ∷ blue ∷ alpha ∷ []
stencil_words (depth_mask flag) = Cmd.depthmask ∷ flag ∷ []
stencil_words finish = Cmd.finish ∷ []
stencil_words flush = Cmd.flush ∷ []
stencil_words (logic_op opcode) = Cmd.logicop ∷ opcode ∷ []
stencil_words (stencil_func func ref mask) = Cmd.stencilfunc ∷ func ∷ ref ∷ mask ∷ []
stencil_words (stencil_op fail zfail zpass) = Cmd.stencilop ∷ fail ∷ zfail ∷ zpass ∷ []

-- The cases of the switch: `other` where the command is none of them.
unfoldable pub exec_stencil : List ℕ → Decoded StencilCall
exec_stencil [] = off_stream
exec_stencil (cmd ∷ ws) =
    if cmd == Cmd.stencilmask
    then pop1 stencil_mask ws
    else if cmd == Cmd.colormask
    then pop4 color_mask ws
    else if cmd == Cmd.depthmask
    then pop1 depth_mask ws
    else if cmd == Cmd.finish
    then pop0 finish ws
    else if cmd == Cmd.flush
    then pop0 flush ws
    else if cmd == Cmd.logicop
    then pop1 logic_op ws
    else if cmd == Cmd.stencilfunc
    then pop3 stencil_func ws
    else if cmd == Cmd.stencilop
    then pop3 stencil_op ws
    else other
