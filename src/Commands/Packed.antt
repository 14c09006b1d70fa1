-- ===== src/Commands/Packed.antt =====
-- The packed coordinate and indexed blend functions: glMultiTexCoordP2ui to glBlendFuncSeparatei
-- of src/client/glimpl.c, and their cases in the command switch of src/server/processor.c.
use sharedgl.Prelude.{ℕ, List, [], ◌∷◌, ◌==◌, if◌then◌else◌}
use sharedgl.Commands.Cmd
use sharedgl.Commands.Decode.{Decoded, off_stream, other, pop1, pop2, pop3, pop5}

-- A call with its arguments; a float is its bit pattern, a narrower integer its `int`.
pub data PackedCall : Type 0 where
  multi_tex_coord_p2ui : (texture type coords : ℕ) → PackedCall
  multi_tex_coord_p3ui : (texture type coords : ℕ) → PackedCall
  multi_tex_coord_p4ui : (texture type coords : ℕ) → PackedCall
  normal_p3ui : (type coords : ℕ) → PackedCall
  color_p3ui : (type color : ℕ) → PackedCall
  color_p4ui : (type color : ℕ) → PackedCall
  secondary_color_p3ui : (type color : ℕ) → PackedCall
  min_sample_shading : (value : ℕ) → PackedCall
  blend_equationi : (buf mode : ℕ) → PackedCall
  blend_equation_separatei : (buf mode_rgb mode_alpha : ℕ) → PackedCall
  blend_funci : (buf src dst : ℕ) → PackedCall
  blend_func_separatei : (buf src_rgb dst_rgb src_alpha dst_alpha : ℕ) → PackedCall

-- The words that the client's function pushes, in order.
unfoldable pub packed_words : PackedCall → List ℕ
packed_words (multi_tex_coord_p2ui texture type coords) =
    Cmd.multitexcoordp2ui ∷ texture ∷ type ∷ coords ∷ []
packed_words (multi_tex_coord_p3ui texture type coords) =
    Cmd.multitexcoordp3ui ∷ texture ∷ type ∷ coords ∷ []
packed_words (multi_tex_coord_p4ui texture type coords) =
    Cmd.multitexcoordp4ui ∷ texture ∷ type ∷ coords ∷ []
packed_words (normal_p3ui type coords) = Cmd.normalp3ui ∷ type ∷ coords ∷ []
packed_words (color_p3ui type color) = Cmd.colorp3ui ∷ type ∷ color ∷ []
packed_words (color_p4ui type color) = Cmd.colorp4ui ∷ type ∷ color ∷ []
packed_words (secondary_color_p3ui type color) = Cmd.secondarycolorp3ui ∷ type ∷ color ∷ []
packed_words (min_sample_shading value) = Cmd.minsampleshading ∷ value ∷ []
packed_words (blend_equationi buf mode) = Cmd.blendequationi ∷ buf ∷ mode ∷ []
packed_words (blend_equation_separatei buf mode_rgb mode_alpha) =
    Cmd.blendequationseparatei ∷ buf ∷ mode_rgb ∷ mode_alpha ∷ []
packed_words (blend_funci buf src dst) = Cmd.blendfunci ∷ buf ∷ src ∷ dst ∷ []
packed_words (blend_func_separatei buf src_rgb dst_rgb src_alpha dst_alpha) =
    Cmd.blendfuncseparatei ∷ buf ∷ src_rgb ∷ dst_rgb ∷ src_alpha ∷ dst_alpha ∷ []

-- The cases of the switch: `other` where the command is none of them.
unfoldable pub exec_packed : List ℕ → Decoded PackedCall
exec_packed [] = off_stream
exec_packed (cmd ∷ ws) =
    if cmd == Cmd.multitexcoordp2ui
    then pop3 multi_tex_coord_p2ui ws
    else if cmd == Cmd.multitexcoordp3ui
    then pop3 multi_tex_coord_p3ui ws
    else if cmd == Cmd.multitexcoordp4ui
    then pop3 multi_tex_coord_p4ui ws
    else if cmd == Cmd.normalp3ui
    then pop2 normal_p3ui ws
    else if cmd == Cmd.colorp3ui
    then pop2 color_p3ui ws
    else if cmd == Cmd.colorp4ui
    then pop2 color_p4ui ws
    else if cmd == Cmd.secondarycolorp3ui
    then pop2 secondary_color_p3ui ws
    else if cmd == Cmd.minsampleshading
    then pop1 min_sample_shading ws
    else if cmd == Cmd.blendequationi
    then pop2 blend_equationi ws
    else if cmd == Cmd.blendequationseparatei
    then pop3 blend_equation_separatei ws
    else if cmd == Cmd.blendfunci
    then pop3 blend_funci ws
    else if cmd == Cmd.blendfuncseparatei
    then pop5 blend_func_separatei ws
    else other
