-- ===== src/Commands/Names.antt =====
-- The name stack, accumulation and attribute stack functions: glInitNames to glPushAttrib of
-- src/client/glimpl.c, and their cases in the command switch of src/server/processor.c.
use sharedgl.Prelude.{ℕ, List, [], ◌∷◌, ◌==◌, if◌then◌else◌}
use sharedgl.Commands.Cmd
use sharedgl.Commands.Decode.{Decoded, off_stream, other, pop0, pop1, pop2, pop4}

-- A call with its arguments; a float is its bit pattern, a narrower integer its `int`.
pub data NamesCall : Type 0 where
  init_names : NamesCall
  load_name : (name : ℕ) → NamesCall
  pass_through : (token : ℕ) → NamesCall
  pop_name : NamesCall
  push_name : (name : ℕ) → NamesCall
  clear_accum : (red green blue alpha : ℕ) → NamesCall
  clear_index : (c : ℕ) → NamesCall
  index_mask : (mask : ℕ) → NamesCall
  accum : (op value : ℕ) → NamesCall
  pop_attrib : NamesCall
  push_attrib : (mask : ℕ) → NamesCall

-- The words that the client's function pushes, in order.
unfoldable pub names_words : NamesCall → List ℕ
names_words init_names = Cmd.initnames ∷ []
names_words (load_name name) = Cmd.loadname ∷ name ∷ []
names_words (pass_through token) = Cmd.passthrough ∷ token ∷ []
names_words pop_name = Cmd.popname ∷ []
names_words (push_name name) = Cmd.pushname ∷ name ∷ []
names_words (clear_accum red green blue alpha) = Cmd.clearaccum ∷ red ∷ green ∷ blue ∷ alpha ∷ []
names_words (clear_index c) = Cmd.clearindex ∷ c ∷ []
names_words (index_mask mask) = Cmd.indexmask ∷ mask ∷ []
names_words (accum op value) = Cmd.accum ∷ op ∷ value ∷ []
names_words pop_attrib = Cmd.popattrib ∷ []
names_words (push_attrib mask) = Cmd.pushattrib ∷ mask ∷ []

-- The cases of the switch: `other` where the command is none of them.
unfoldable pub exec_names : List ℕ → Decoded NamesCall
exec_names [] = off_stream
exec_names (cmd ∷ ws) =
    if cmd == Cmd.initnames
    then pop0 init_names ws
    else if cmd == Cmd.loadname
    then pop1 load_name ws
    else if cmd == Cmd.passthrough
    then pop1 pass_through ws
    else if cmd == Cmd.popname
    then pop0 pop_name ws
    else if cmd == Cmd.pushname
    then pop1 push_name ws
    else if cmd == Cmd.clearaccum
    then pop4 clear_accum ws
    else if cmd == Cmd.clearindex
    then pop1 clear_index ws
    else if cmd == Cmd.indexmask
    then pop1 index_mask ws
    else if cmd == Cmd.accum
    then pop2 accum ws
    else if cmd == Cmd.popattrib
    then pop0 pop_attrib ws
    else if cmd == Cmd.pushattrib
    then pop1 push_attrib ws
    else other
