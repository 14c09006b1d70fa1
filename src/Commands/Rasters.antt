-- ===== src/Commands/Rasters.antt =====
-- The rasterization functions: glCullFace to glPolygonMode of src/client/glimpl.c, and their
-- cases in the command switch of src/server/processor.c.
use sharedgl.Prelude.{ℕ, List, [], ◌∷◌, ◌==◌, if◌then◌else◌}
use sharedgl.Commands.Cmd
use sharedgl.Commands.Decode.{Decoded, off_stream, other, pop1, pop2}

-- A call with its arguments; a float is its bit pattern, a narrower integer its `int`.
pub data RasterCall : Type 0 where
  cull_face : (mode : ℕ) → RasterCall
  front_face : (mode : ℕ) → RasterCall
  hint : (target mode : ℕ) → RasterCall
  line_width : (width : ℕ) → RasterCall
  point_size : (size : ℕ) → RasterCall
  polygon_mode : (face mode : ℕ) → RasterCall

-- The words that the client's function pushes, in order.
unfoldable pub raster_words : RasterCall → List ℕ
raster_words (cull_face mode) = Cmd.cullface ∷ mode ∷ []
raster_words (front_face mode) = Cmd.frontface ∷ mode ∷ []
raster_words (hint target mode) = Cmd.hint ∷ target ∷ mode ∷ []
raster_words (line_width width) = Cmd.linewidth ∷ width ∷ []
raster_words (point_size size) = Cmd.pointsize ∷ size ∷ []
raster_words (polygon_mode face mode) = Cmd.polygonmode ∷ face ∷ mode ∷ []

-- The cases of the switch: `other` where the command is none of them.
unfoldable pub exec_raster : List ℕ → Decoded RasterCall
exec_raster [] = off_stream
exec_raster (cmd ∷ ws) =
    if cmd == Cmd.cullface
    then pop1 cull_face ws
    else if cmd == Cmd.frontface
    then pop1 front_face ws
    else if cmd == Cmd.hint
    then pop2 hint ws
    else if cmd == Cmd.linewidth
    then pop1 line_width ws
    else if cmd == Cmd.pointsize
    then pop1 point_size ws
    else if cmd == Cmd.polygonmode
    then pop2 polygon_mode ws
    else other
