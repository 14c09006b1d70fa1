-- ===== src/Scratch/Tests.antt =====
-- Tests and instances for the scratch buffer.
use sharedgl.Prelude.{ℕ, ◌+◌, ◌≡◌, refl, [], ◌∷◌, arith}
use sharedgl.Scratch.{Scratch, align_to_4kb, scratch_buffer_get, get_all}
use sharedgl.Scratch.Growth.{Got, scratch_buffer_get-Got_after}

abbrev empty : Scratch
empty = record { address = 0; current_size = 0 }

-- Mappings far apart
abbrev map_at : ℕ → ℕ
map_at size = 65536

abbrev remap_at : ℕ → ℕ → ℕ → ℕ
remap_at address size new = address + 1048576

scratch_buffer_get-Got_after_example :
    Got map_at remap_at 5000
      (get_all map_at remap_at (100 ∷ 4000 ∷ []) empty)
      (scratch_buffer_get map_at remap_at 5000 (get_all map_at remap_at (100 ∷ 4000 ∷ []) empty))
scratch_buffer_get-Got_after_example =
    scratch_buffer_get-Got_after map_at remap_at (100 ∷ 4000 ∷ []) 5000
      (omega arith, (omega arith, tt)) (omega arith)

grown_run :
    (scratch_buffer_get map_at remap_at 5000
      (get_all map_at remap_at (100 ∷ []) empty)).1.current_size
    ≡ 8192
unfolding scratch_buffer_get get_all align_to_4kb
grown_run = refl
