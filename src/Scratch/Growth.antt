-- ===== src/Scratch/Growth.antt =====
-- The scratch buffer is always large enough.
use sharedgl.Prelude.{ℕ, ◌+◌, ◌%◌, ◌^◌, ◌≤◌, ◌<◌, ◌≡◌, refl, List, [], ◌∷◌, arith}
use sharedgl.Scratch.{Scratch, align_to_4kb, scratch_buffer_get, get_all}

-- Whole pages
abbrev pub IsPaged : Scratch → Type 0
IsPaged s = s.current_size % 4096 ≡ 0

-- A call with `size`, from `s` to the address and state `r`. A call that allocates gets the address
-- that the system call returns for the new size.
pub record Got (mmap : ℕ → ℕ) (mremap : ℕ → ℕ → ℕ → ℕ) (size : ℕ) (s : Scratch) (r : ℕ × Scratch)
    : Type 0 where
  pub returned : r.0 ≡ r.1.address
  pub covers : size ≤ r.1.current_size
  pub grows : s.current_size ≤ r.1.current_size
  pub kept :
      0 < s.current_size
      → size ≤ s.current_size
      → (r.1.address ≡ s.address) × (r.1.current_size ≡ s.current_size)
  pub first :
      s.current_size ≡ 0 → (r.1.address ≡ mmap r.1.current_size) × (r.1.current_size < size + 4096)
  pub moved :
      0 < s.current_size
      → s.current_size < size
      → (r.1.address ≡ mremap s.address s.current_size r.1.current_size)
        × (r.1.current_size < size + 4096)
  pub paged : IsPaged r.1

abbrev pub AllBelow : ℕ → List ℕ → Type 0
AllBelow n [] = Unit
AllBelow n (size ∷ sizes) = (size < n) × AllBelow n sizes

module _ (mmap : ℕ → ℕ) (mremap : ℕ → ℕ → ℕ → ℕ) where
  -- One call.
  scratch_buffer_get-Got :
      (size : ℕ) (s : Scratch)
      → size < 2 ^ 63
      → IsPaged s
      → Got mmap mremap size s (scratch_buffer_get mmap mremap size s)
  unfolding scratch_buffer_get align_to_4kb
  scratch_buffer_get-Got size s h p = record {
    returned = ground arith;
    covers = ground arith;
    grows = ground arith;
    kept = λ q l. ground (arith, q, l);
    first = λ q. ground (arith, q);
    moved = λ q l. ground (arith, q, l);
    paged = ground arith;
  }

  get_all-IsPaged :
      (sizes : List ℕ) (s : Scratch)
      → AllBelow (2 ^ 63) sizes
      → IsPaged s
      → IsPaged (get_all mmap mremap sizes s)
  unfolding get_all
  get_all-IsPaged [] s h p = p
  get_all-IsPaged (size ∷ sizes) s h p =
      get_all-IsPaged sizes (scratch_buffer_get mmap mremap size s).1 h.1
        (scratch_buffer_get-Got size s h.0 p).paged

  -- After whatever calls, one more, all with sizes below 2^63: the buffer covers the size with whole
  -- pages and has not shrunk. Where it was large enough it stays where it is, with its size; where
  -- there was none, or it was too small, it is what the system call returns for the new size, which
  -- is less than a page above what was asked for.
  pub scratch_buffer_get-Got_after :
      (sizes : List ℕ) (size : ℕ)
      → AllBelow (2 ^ 63) sizes
      → size < 2 ^ 63
      → Got mmap mremap size
          (get_all mmap mremap sizes (record { address = 0; current_size = 0 }))
          (scratch_buffer_get mmap mremap size
            (get_all mmap mremap sizes (record { address = 0; current_size = 0 })))
  scratch_buffer_get-Got_after sizes size h q =
      scratch_buffer_get-Got size
        (get_all mmap mremap sizes (record { address = 0; current_size = 0 })) q
        (get_all-IsPaged sizes (record { address = 0; current_size = 0 }) h refl)
