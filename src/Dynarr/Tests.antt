-- ===== src/Dynarr/Tests.antt =====
-- Tests and instances for the linked list.
use sharedgl.Prelude.{ℕ, ◌≡◌, refl, [], ◌∷◌, arith, Bool, leb}
use sharedgl.Dynarr.{Chunks, set_next, dynarr_alloc, free_from, dynarr_free_element}
use sharedgl.Dynarr.Alloc.{IsList, dynarr_alloc-IsList}
use sharedgl.Dynarr.Remove.{Removed, dynarr_free_element-Removed}

-- 10, then 30, then 20
abbrev three : Chunks
three = record { root = 10; next = set_next (set_next (λ _. 0) 10 30) 30 20; freed = [] }

three-IsList : IsList three (10 ∷ 30 ∷ 20 ∷ [])
three-IsList = record {
  chain = (refl, omega arith, (refl, omega arith, (refl, omega arith, refl)));
  distinct = ((omega arith, (omega arith, tt)), ((omega arith, tt), (tt, tt)));
}

dynarr_alloc-IsList_example :
    IsList (dynarr_alloc 9 40 three) (10 ∷ 30 ∷ 20 ∷ 40 ∷ [])
    × ((dynarr_alloc 9 40 three).freed ≡ [])
dynarr_alloc-IsList_example =
    dynarr_alloc-IsList 9 40 three (10 ∷ 30 ∷ 20 ∷ []) (omega arith) (omega arith)
      (omega arith, (omega arith, (omega arith, tt))) three-IsList

-- From 20 on
abbrev high : ℕ → Bool
high elem = leb 20 elem

dynarr_free_element-Removed_example :
    Removed high (10 ∷ 30 ∷ 20 ∷ []) three (dynarr_free_element 9 high three)
dynarr_free_element-Removed_example =
    dynarr_free_element-Removed 9 high (10 ∷ 30 ∷ 20 ∷ []) three (omega arith) three-IsList

freed_run : (dynarr_free_element 9 high three).freed ≡ 20 ∷ 30 ∷ []
unfolding dynarr_free_element free_from
freed_run = refl
