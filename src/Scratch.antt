-- ===== src/Scratch.antt =====
-- The scratch buffer of src/client/scratch.c on Linux. `mmap size` and `mremap address size new`
-- are the addresses that the system calls return.
pub mod Growth
mod Tests
use sharedgl.Prelude.{ℕ, ◌+◌, ◌*◌, ◌/◌, ◌%◌, List, [], ◌∷◌, ltb, ◌==◌, if◌then◌else◌}
use sharedgl.Layout.{size_mod}

-- The static variables
pub record Scratch : Type 0 where
  pub address : ℕ
  pub current_size : ℕ

unfoldable pub align_to_4kb : ℕ → ℕ
align_to_4kb ptr = (ptr + 4095) % size_mod / 4096 * 4096

module _ (mmap : ℕ → ℕ) (mremap : ℕ → ℕ → ℕ → ℕ) where
  unfoldable pub scratch_buffer_get : ℕ → Scratch → ℕ × Scratch
  scratch_buffer_get size s =
      if s.current_size == 0
      then (let fresh = mmap (align_to_4kb size) in
          (fresh, record { address = fresh; current_size = align_to_4kb size }))
      else (let aligned_size = align_to_4kb size in
          let moved = mremap s.address s.current_size aligned_size in
          if ltb s.current_size aligned_size
          then (moved, record { address = moved; current_size = aligned_size })
          else (s.address, s))

  -- One call after another: the last state
  unfoldable pub get_all : List ℕ → Scratch → Scratch
  get_all [] s = s
  get_all (size ∷ sizes) s = get_all sizes (scratch_buffer_get size s).1
