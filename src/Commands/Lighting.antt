-- ===== src/Commands/Lighting.antt =====
-- The fog, light, material and texture environment functions: glFogi to glTexEnvi of
-- src/client/glimpl.c, and their cases in the command switch of src/server/processor.c.
use sharedgl.Prelude.{ℕ, List, [], ◌∷◌, ◌==◌, if◌then◌else◌}
use sharedgl.Commands.Cmd
use sharedgl.Commands.Decode.{Decoded, off_stream, other, pop2, pop3}

-- A call with its arguments; a float is its bit pattern, a narrower integer its `int`.
pub data LightingCall : Type 0 where
  fogi : (pname param : ℕ) → LightingCall
  lightf : (light pname param : ℕ) → LightingCall
  lighti : (light pname param : ℕ) → LightingCall
  light_modelf : (pname param : ℕ) → LightingCall
  light_modeli : (pname param : ℕ) → LightingCall
  line_stipple : (factor pattern : ℕ) → LightingCall
  materialf : (face pname param : ℕ) → LightingCall
  materiali : (face pname param : ℕ) → LightingCall
  tex_envf : (target pname param : ℕ) → LightingCall
  tex_envi : (target pname param : ℕ) → LightingCall

-- The words that the client's function pushes, in order.
unfoldable pub lighting_words : LightingCall → List ℕ
lighting_words (fogi pname param) = Cmd.fogi ∷ pname ∷ param ∷ []
lighting_words (lightf light pname param) = Cmd.lightf ∷ light ∷ pname ∷ param ∷ []
lighting_words (lighti light pname param) = Cmd.lighti ∷ light ∷ pname ∷ param ∷ []
lighting_words (light_modelf pname param) = Cmd.lightmodelf ∷ pname ∷ param ∷ []
lighting_words (light_modeli pname param) = Cmd.lightmodeli ∷ pname ∷ param ∷ []
lighting_words (line_stipple factor pattern) = Cmd.linestipple ∷ factor ∷ pattern ∷ []
lighting_words (materialf face pname param) = Cmd.materialf ∷ face ∷ pname ∷ param ∷ []
lighting_words (materiali face pname param) = Cmd.materiali ∷ face ∷ pname ∷ param ∷ []
lighting_words (tex_envf target pname param) = Cmd.texenvf ∷ target ∷ pname ∷ param ∷ []
lighting_words (tex_envi target pname param) = Cmd.texenvi ∷ target ∷ pname ∷ param ∷ []

-- The cases of the switch: `other` where the command is none of them.
unfoldable pub exec_lighting : List ℕ → Decoded LightingCall
exec_lighting [] = off_stream
exec_lighting (cmd ∷ ws) =
    if cmd == Cmd.fogi
    then pop2 fogi ws
    else if cmd == Cmd.lightf
    then pop3 lightf ws
    else if cmd == Cmd.lighti
    then pop3 lighti ws
    else if cmd == Cmd.lightmodelf
    then pop2 light_modelf ws
    else if cmd == Cmd.lightmodeli
    then pop2 light_modeli ws
    else if cmd == Cmd.linestipple
    then pop2 line_stipple ws
    else if cmd == Cmd.materialf
    then pop3 materialf ws
    else if cmd == Cmd.materiali
    then pop3 materiali ws
    else if cmd == Cmd.texenvf
    then pop3 tex_envf ws
    else if cmd == Cmd.texenvi
    then pop3 tex_envi ws
    else other
