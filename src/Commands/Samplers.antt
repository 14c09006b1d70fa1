-- ===== src/Commands/Samplers.antt =====
-- The sampler and packed attribute functions: glBindSampler to glMultiTexCoordP1ui of
-- src/client/glimpl.c, and their cases in the command switch of src/server/processor.c.
use sharedgl.Prelude.{ℕ, List, [], ◌∷◌, ◌==◌, if◌then◌else◌}
use sharedgl.Commands.Cmd
use sharedgl.Commands.Decode.{Decoded, off_stream, other, pop2, pop3, pop4}

-- A call with its arguments; a float is its bit pattern, a narrower integer its `int`.
pub data SamplerCall : Type 0 where
  bind_sampler : (unit sampler : ℕ) → SamplerCall
  sampler_parameteri : (sampler pname param : ℕ) → SamplerCall
  sampler_parameterf : (sampler pname param : ℕ) → SamplerCall
  query_counter : (id target : ℕ) → SamplerCall
  vertex_attrib_divisor : (index divisor : ℕ) → SamplerCall
  vertex_attrib_p1ui : (index type normalized value : ℕ) → SamplerCall
  vertex_attrib_p2ui : (index type normalized value : ℕ) → SamplerCall
  vertex_attrib_p3ui : (index type normalized value : ℕ) → SamplerCall
  vertex_attrib_p4ui : (index type normalized value : ℕ) → SamplerCall
  vertex_p2ui : (type value : ℕ) → SamplerCall
  vertex_p3ui : (type value : ℕ) → SamplerCall
  vertex_p4ui : (type value : ℕ) → SamplerCall
  tex_coord_p1ui : (type coords : ℕ) → SamplerCall
  tex_coord_p2ui : (type coords : ℕ) → SamplerCall
  tex_coord_p3ui : (type coords : ℕ) → SamplerCall
  tex_coord_p4ui : (type coords : ℕ) → SamplerCall
  multi_tex_coord_p1ui : (texture type coords : ℕ) → SamplerCall

-- The words that the client's function pushes, in order.
unfoldable pub sampler_words : SamplerCall → List ℕ
sampler_words (bind_sampler unit sampler) = Cmd.bindsampler ∷ unit ∷ sampler ∷ []
sampler_words (sampler_parameteri sampler pname param) =
    Cmd.samplerparameteri ∷ sampler ∷ pname ∷ param ∷ []
sampler_words (sampler_parameterf sampler pname param) =
    Cmd.samplerparameterf ∷ sampler ∷ pname ∷ param ∷ []
sampler_words (query_counter id target) = Cmd.querycounter ∷ id ∷ target ∷ []
sampler_words (vertex_attrib_divisor index divisor) = Cmd.vertexattribdivisor ∷ index ∷ divisor ∷ []
sampler_words (vertex_attrib_p1ui index type normalized value) =
    Cmd.vertexattribp1ui ∷ index ∷ type ∷ normalized ∷ value ∷ []
sampler_words (vertex_attrib_p2ui index type normalized value) =
    Cmd.vertexattribp2ui ∷ index ∷ type ∷ normalized ∷ value ∷ []
sampler_words (vertex_attrib_p3ui index type normalized value) =
    Cmd.vertexattribp3ui ∷ index ∷ type ∷ normalized ∷ value ∷ []
sampler_words (vertex_attrib_p4ui index type normalized value) =
    Cmd.vertexattribp4ui ∷ index ∷ type ∷ normalized ∷ value ∷ []
sampler_words (vertex_p2ui type value) = Cmd.vertexp2ui ∷ type ∷ value ∷ []
sampler_words (vertex_p3ui type value) = Cmd.vertexp3ui ∷ type ∷ value ∷ []
sampler_words (vertex_p4ui type value) = Cmd.vertexp4ui ∷ type ∷ value ∷ []
sampler_words (tex_coord_p1ui type coords) = Cmd.texcoordp1ui ∷ type ∷ coords ∷ []
sampler_words (tex_coord_p2ui type coords) = Cmd.texcoordp2ui ∷ type ∷ coords ∷ []
sampler_words (tex_coord_p3ui type coords) = Cmd.texcoordp3ui ∷ type ∷ coords ∷ []
sampler_words (tex_coord_p4ui type coords) = Cmd.texcoordp4ui ∷ type ∷ coords ∷ []
sampler_words (multi_tex_coord_p1ui texture type coords) =
    Cmd.multitexcoordp1ui ∷ texture ∷ type ∷ coords ∷ []

-- The cases of the switch: `other` where the command is none of them.
unfoldable pub exec_sampler : List ℕ → Decoded SamplerCall
exec_sampler [] = off_stream
exec_sampler (cmd ∷ ws) =
    if cmd == Cmd.bindsampler
    then pop2 bind_sampler ws
    else if cmd == Cmd.samplerparameteri
    then pop3 sampler_parameteri ws
    else if cmd == Cmd.samplerparameterf
    then pop3 sampler_parameterf ws
    else if cmd == Cmd.querycounter
    then pop2 query_counter ws
    else if cmd == Cmd.vertexattribdivisor
    then pop2 vertex_attrib_divisor ws
    else if cmd == Cmd.vertexattribp1ui
    then pop4 vertex_attrib_p1ui ws
    else if cmd == Cmd.vertexattribp2ui
    then pop4 vertex_attrib_p2ui ws
    else if cmd == Cmd.vertexattribp3ui
    then pop4 vertex_attrib_p3ui ws
    else if cmd == Cmd.vertexattribp4ui
    then pop4 vertex_attrib_p4ui ws
    else if cmd == Cmd.vertexp2ui
    then pop2 vertex_p2ui ws
    else if cmd == Cmd.vertexp3ui
    then pop2 vertex_p3ui ws
    else if cmd == Cmd.vertexp4ui
    then pop2 vertex_p4ui ws
    else if cmd == Cmd.texcoordp1ui
    then pop2 tex_coord_p1ui ws
    else if cmd == Cmd.texcoordp2ui
    then pop2 tex_coord_p2ui ws
    else if cmd == Cmd.texcoordp3ui
    then pop2 tex_coord_p3ui ws
    else if cmd == Cmd.texcoordp4ui
    then pop2 tex_coord_p4ui ws
    else if cmd == Cmd.multitexcoordp1ui
    then pop3 multi_tex_coord_p1ui ws
    else other
