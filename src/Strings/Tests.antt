-- ===== src/Strings/Tests.antt =====
-- Tests and instances for the strings.
use sharedgl.Prelude.{ℕ, ◌≡◌, refl, arith, List, [], ◌∷◌}
use sharedgl.Pb.{PushBuffer}
use sharedgl.Pb.Tests.{fresh}
use sharedgl.Pb.Stream.{in_mem}
use sharedgl.Strings.{string_from, terminator, has_zero}
use sharedgl.Strings.Counted.{push_strings, Found, push_strings-Found}

-- "color"
abbrev color : List ℕ
color = 99 ∷ 111 ∷ 108 ∷ 111 ∷ 114 ∷ []

-- Behind four characters the terminator is a word of its own.
four_run : string_from 0 (97 ∷ 98 ∷ 99 ∷ 100 ∷ []) ≡ 1684234849 ∷ 0 ∷ []
unfolding string_from terminator has_zero
four_run = refl

abbrev roomy : PushBuffer
roomy = record fresh { in_capacity = 64 }

push_strings-Found_example :
    Found
      (color ∷ [] ∷ (0 ∷ 255 ∷ []) ∷ [])
      (in_mem (push_strings (color ∷ [] ∷ (0 ∷ 255 ∷ []) ∷ []) roomy))
      0
      (push_strings (color ∷ [] ∷ (0 ∷ 255 ∷ []) ∷ []) roomy).in_cur
push_strings-Found_example =
    push_strings-Found (color ∷ [] ∷ (0 ∷ 255 ∷ []) ∷ []) roomy (omega arith) (omega arith)
      (omega arith, (omega arith, (omega arith, tt)))
