-- ===== src/Connections.antt =====
-- The connections of src/server/processor.c, on the list of src/server/dynarr.c.
pub mod Current
mod Tests
use sharedgl.Prelude.{ℕ, zero, suc, Bool, Option, none, some, List, [], ◌∷◌, ◌==◌, if◌then◌else◌}
use sharedgl.Dynarr.{Chunks, dynarr_alloc, dynarr_free_element}

-- `struct sgl_connection`: the list, and the fields of the element at each address. A context is
-- the number that stands for it.
pub record Connections : Type 0 where
  pub chunks : Chunks
  pub id : ℕ → ℕ
  pub fd : ℕ → ℕ
  pub ctx : ℕ → ℕ

abbrev pub set_field : (ℕ → ℕ) → ℕ → ℕ → ℕ → ℕ
set_field field at value i = if i == at then value else field i

-- `fresh` is the element from `calloc`, `context` what `sgl_context_create` returns.
unfoldable pub connection_add : ℕ → ℕ → ℕ → ℕ → ℕ → Connections → Connections
connection_add fuel fresh context id fd c = record {
  chunks = dynarr_alloc fuel fresh c.chunks;
  id = set_field c.id fresh id;
  fd = set_field c.fd fresh fd;
  ctx = set_field c.ctx fresh context;
}

unfoldable pub current_from : ℕ → Connections → ℕ → ℕ → Option ℕ
current_from zero c con id = none
current_from (suc fuel) c con id =
    let rest = current_from fuel c (c.chunks.next con) id in
    if con == 0 then none else (if c.id con == id then some (c.ctx con) else rest)

-- The context that becomes current, if any
unfoldable pub connection_current : ℕ → Connections → ℕ → Option ℕ
connection_current fuel c id = current_from fuel c c.chunks.root id

-- `sgl_context_destroy`, for each match, is left out.
abbrev pub match_connection : Connections → ℕ → ℕ → Bool
match_connection c id elem = c.id elem == id

unfoldable pub connection_rem : ℕ → ℕ → Connections → Connections
connection_rem fuel id c = record c {
  chunks = dynarr_free_element fuel (match_connection c id) c.chunks;
}
