-- ===== src/Dynarr.antt =====
-- The linked list of src/server/dynarr.c. An address is a number, NULL is 0; `next` is the word at
-- `next_offset` of each element. What else an element holds, this code does not touch.
pub mod Alloc
pub mod Remove
mod Tests
use sharedgl.Prelude.{ℕ, zero, suc, ◌≤◌, ◌≡◌, ◌≢◌, Bool, List, [], ◌∷◌, ◌==◌, if◌then◌else◌}

-- `root` is the word that the functions' `root` points at; `freed` is what was passed to `free`,
-- the latest first.
pub record Chunks : Type 0 where
  pub root : ℕ
  pub next : ℕ → ℕ
  pub freed : List ℕ

abbrev pub set_next : (ℕ → ℕ) → ℕ → ℕ → ℕ → ℕ
set_next next at to i = if i == at then to else next i

-- The loop of `dynarr_alloc`: the last element from `next` on.
unfoldable pub last_from : ℕ → (ℕ → ℕ) → ℕ → ℕ
last_from zero next elem = elem
last_from (suc fuel) next elem =
    let rest = last_from fuel next (next elem) in if next elem == 0 then elem else rest

-- `fresh` is what `calloc` returns, a zeroed element. The address that the function returns is
-- `fresh` as well.
unfoldable pub dynarr_alloc : ℕ → ℕ → Chunks → Chunks
dynarr_alloc fuel fresh h =
    let cleared = set_next h.next fresh 0 in
    if h.root == 0
    then record h { root = fresh; next = cleared }
    else record h { next = set_next cleared (last_from fuel cleared h.root) fresh }

-- The loop of `dynarr_free_element` from `elem` on; `prev` is the last element that was kept, or 0.
unfoldable pub free_from : ℕ → (ℕ → Bool) → ℕ → ℕ → Chunks → Chunks
free_from zero matcher prev elem h = h
free_from (suc fuel) matcher prev elem h =
    let next = h.next elem in
    let unlinked =
      (if prev == 0
        then record h { root = next }
        else record h { next = set_next h.next prev next }) in
    let removed = free_from fuel matcher prev next (record unlinked { freed = elem ∷ h.freed }) in
    let kept = free_from fuel matcher elem next h in
    if elem == 0 then h else (if matcher elem then removed else kept)

-- Fuel above the number of elements is enough for both.
unfoldable pub dynarr_free_element : ℕ → (ℕ → Bool) → Chunks → Chunks
dynarr_free_element fuel matcher h = free_from fuel matcher 0 h.root h

-- The elements from `p` on are `es`, and the list ends there.
abbrev pub Chain : (ℕ → ℕ) → ℕ → List ℕ → Type 0
Chain next p [] = p ≡ 0
Chain next p (a ∷ es) = (p ≡ a) × (1 ≤ a) × Chain next (next a) es

abbrev pub NotIn : ℕ → List ℕ → Type 0
NotIn x [] = Unit
NotIn x (a ∷ es) = (x ≢ a) × NotIn x es

abbrev pub Distinct : List ℕ → Type 0
Distinct [] = Unit
Distinct (a ∷ es) = NotIn a es × Distinct es
