-- ===== src/Commands/Secondaries.antt =====
-- The secondary color functions: glSecondaryColor3f to glSecondaryColor3us of
-- src/client/glimpl.c, and their cases in the command switch of src/server/processor.c.
use sharedgl.Prelude.{ℕ, List, [], ◌∷◌, ◌==◌, if◌then◌else◌}
use sharedgl.Commands.Cmd
use sharedgl.Commands.Decode.{Decoded, off_stream, other, pop3}

-- A call with its arguments; a float is its bit pattern, a narrower integer its `int`.
pub data SecondaryCall : Type 0 where
  secondary_color3f : (red green blue : ℕ) → SecondaryCall
  secondary_color3i : (red green blue : ℕ) → SecondaryCall
  secondary_color3s : (red green blue : ℕ) → SecondaryCall
  secondary_color3ub : (red green blue : ℕ) → SecondaryCall
  secondary_color3ui : (red green blue : ℕ) → SecondaryCall
  secondary_color3us : (red green blue : ℕ) → SecondaryCall

-- The words that the client's function pushes, in order.
unfoldable pub secondary_words : SecondaryCall → List ℕ
secondary_words (secondary_color3f red green blue) = Cmd.secondarycolor3f ∷ red ∷ green ∷ blue ∷ []
secondary_words (secondary_color3i red green blue) = Cmd.secondarycolor3i ∷ red ∷ green ∷ blue ∷ []
secondary_words (secondary_color3s red green blue) = Cmd.secondarycolor3s ∷ red ∷ green ∷ blue ∷ []
secondary_words (secondary_color3ub red green blue) =
    Cmd.secondarycolor3ub ∷ red ∷ green ∷ blue ∷ []
secondary_words (secondary_color3ui red green blue) =
    Cmd.secondarycolor3ui ∷ red ∷ green ∷ blue ∷ []
secondary_words (secondary_color3us red green blue) =
    Cmd.secondarycolor3us ∷ red ∷ green ∷ blue ∷ []

-- The cases of the switch: `other` where the command is none of them.
unfoldable pub exec_secondary : List ℕ → Decoded SecondaryCall
exec_secondary [] = off_stream
exec_secondary (cmd ∷ ws) =
    if cmd == Cmd.secondarycolor3f
    then pop3 secondary_color3f ws
    else if cmd == Cmd.secondarycolor3i
    then pop3 secondary_color3i ws
    else if cmd == Cmd.secondarycolor3s
    then pop3 secondary_color3s ws
    else if cmd == Cmd.secondarycolor3ub
    then pop3 secondary_color3ub ws
    else if cmd == Cmd.secondarycolor3ui
    then pop3 secondary_color3ui ws
    else if cmd == Cmd.secondarycolor3us
    then pop3 secondary_color3us ws
    else other
