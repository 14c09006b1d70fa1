-- ===== src/Connections/Tests.antt =====
-- Tests and instances for the connections.
use sharedgl.Prelude.{◌+◌, ◌≡◌, refl, none, some, [], ◌∷◌, ◌==◌, if◌then◌else◌, arith}
use sharedgl.Dynarr.{set_next}
use sharedgl.Dynarr.Alloc.{IsList}
use sharedgl.Connections.{Connections, connection_add, connection_current, connection_rem}
use sharedgl.Connections.Current.{or_else, connection_add-current, connection_rem-current}

-- Clients 1 and 2, at 100 and 200
abbrev two : Connections
two = record {
  chunks = record { root = 100; next = set_next (λ _. 0) 100 200; freed = [] };
  id = λ i. if i == 100 then 1 else 2;
  fd = λ _. 0;
  ctx = λ i. i + 5;
}

two-IsList : IsList two.chunks (100 ∷ 200 ∷ [])
two-IsList = record {
  chain = (refl, omega arith, (refl, omega arith, refl));
  distinct = ((omega arith, tt), (tt, tt));
}

connection_add-current_example :
    connection_current 9 (connection_add 9 300 77 4 0 two) 4
    ≡ or_else (connection_current 9 two 4) (if 4 == 4 then some 77 else none)
connection_add-current_example =
    connection_add-current 9 300 77 4 0 two (100 ∷ 200 ∷ []) 4 (omega arith) (omega arith)
      (omega arith, (omega arith, tt)) two-IsList

connection_rem-current_example :
    connection_current 9 (connection_rem 9 1 two) 2
    ≡ (if 2 == 1 then none else connection_current 9 two 2)
connection_rem-current_example =
    connection_rem-current 9 1 two (100 ∷ 200 ∷ []) 2 (omega arith) two-IsList
