-- ===== src/Commands/Objects.antt =====
-- Object and clear functions: glCallList to glDispatchCompute of src/client/glimpl.c, and their
-- cases in the command switch of src/server/processor.c.
use sharedgl.Prelude.{ℕ, List, [], ◌∷◌, ◌==◌, if◌then◌else◌}
use sharedgl.Commands.Cmd
use sharedgl.Commands.Decode.{Decoded, off_stream, other, pop0, pop1, pop2, pop3, pop4, pop5}

-- A call with its arguments. A float is its bit pattern; glClipPlane and glClipPlanef push the same
-- command with the plane's floats. The server deletes one object at a time.
pub data ObjectCall : Type 0 where
  call_list : (list : ℕ) → ObjectCall
  clear : (mask : ℕ) → ObjectCall
  clear_color : (red green blue alpha : ℕ) → ObjectCall
  clip_plane : (plane a b c d : ℕ) → ObjectCall
  color_3f : (red green blue : ℕ) → ObjectCall
  compile_shader : (shader : ℕ) → ObjectCall
  create_program : ObjectCall
  create_shader : (type : ℕ) → ObjectCall
  delete_buffers : (buffers : List ℕ) → ObjectCall
  delete_textures : (textures : List ℕ) → ObjectCall
  delete_vertex_arrays : (arrays : List ℕ) → ObjectCall
  depth_func : (func : ℕ) → ObjectCall
  delete_program : (program : ℕ) → ObjectCall
  delete_shader : (shader : ℕ) → ObjectCall
  detach_shader : (program shader : ℕ) → ObjectCall
  disable : (capability : ℕ) → ObjectCall
  dispatch_compute : (x y z : ℕ) → ObjectCall

-- The loop of the delete functions: one command for each object.
unfoldable pub for_each : ℕ → List ℕ → List ℕ
for_each cmd [] = []
for_each cmd (o ∷ os) = cmd ∷ o ∷ for_each cmd os

-- The words that the client's function pushes, in order; the submission that ends glCreateProgram
-- and glCreateShader is not among them.
unfoldable pub object_words : ObjectCall → List ℕ
object_words (call_list list) = Cmd.calllist ∷ list ∷ []
object_words (clear mask) = Cmd.clear ∷ mask ∷ []
object_words (clear_color red green blue alpha) = Cmd.clearcolor ∷ red ∷ green ∷ blue ∷ alpha ∷ []
object_words (clip_plane plane a b c d) = Cmd.clipplane ∷ plane ∷ a ∷ b ∷ c ∷ d ∷ []
object_words (color_3f red green blue) = Cmd.color3f ∷ red ∷ green ∷ blue ∷ []
object_words (compile_shader shader) = Cmd.compileshader ∷ shader ∷ []
object_words create_program = Cmd.createprogram ∷ []
object_words (create_shader type) = Cmd.createshader ∷ type ∷ []
object_words (delete_buffers buffers) = for_each Cmd.deletebuffers buffers
object_words (delete_textures textures) = for_each Cmd.deletetextures textures
object_words (delete_vertex_arrays arrays) = for_each Cmd.deletevertexarrays arrays
object_words (depth_func func) = Cmd.depthfunc ∷ func ∷ []
object_words (delete_program program) = Cmd.deleteprogram ∷ program ∷ []
object_words (delete_shader shader) = Cmd.deleteshader ∷ shader ∷ []
object_words (detach_shader program shader) = Cmd.detachshader ∷ program ∷ shader ∷ []
object_words (disable capability) = Cmd.disable ∷ capability ∷ []
object_words (dispatch_compute x y z) = Cmd.dispatchcompute ∷ x ∷ y ∷ z ∷ []

-- The cases of the switch: `other` where the command is none of them.
unfoldable pub exec_object : List ℕ → Decoded ObjectCall
exec_object [] = off_stream
exec_object (cmd ∷ ws) =
    if cmd == Cmd.calllist
    then pop1 call_list ws
    else if cmd == Cmd.clear
    then pop1 clear ws
    else if cmd == Cmd.clearcolor
    then pop4 clear_color ws
    else if cmd == Cmd.clipplane
    then pop5 clip_plane ws
    else if cmd == Cmd.color3f
    then pop3 color_3f ws
    else if cmd == Cmd.compileshader
    then pop1 compile_shader ws
    else if cmd == Cmd.createprogram
    then pop0 create_program ws
    else if cmd == Cmd.createshader
    then pop1 create_shader ws
    else if cmd == Cmd.deletebuffers
    then pop1 (λ buffer. delete_buffers (buffer ∷ [])) ws
    else if cmd == Cmd.deletetextures
    then pop1 (λ texture. delete_textures (texture ∷ [])) ws
    else if cmd == Cmd.deletevertexarrays
    then pop1 (λ array. delete_vertex_arrays (array ∷ [])) ws
    else if cmd == Cmd.depthfunc
    then pop1 depth_func ws
    else if cmd == Cmd.deleteprogram
    then pop1 delete_program ws
    else if cmd == Cmd.deleteshader
    then pop1 delete_shader ws
    else if cmd == Cmd.detachshader
    then pop2 detach_shader ws
    else if cmd == Cmd.disable
    then pop1 disable ws
    else if cmd == Cmd.dispatchcompute
    then pop3 dispatch_compute ws
    else other
