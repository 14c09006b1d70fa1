-- ===== src/Bindings.antt =====
-- The buffer bindings that src/client/glimpl.c keeps for itself: the bound array buffer, and for each
-- vertex array the bound element array buffer, in a table of `GLIMPL_MAX_OBJECTS` entries.
pub mod Search
pub mod Table
pub mod Room
pub mod Writes
pub mod Calls
mod Tests
use sharedgl.Prelude.{
  ℕ, zero, suc, ◌+◌, Bool, true, false, ◌&&◌, not, Option, none, some, List, [], ◌∷◌, ◌==◌,
  if◌then◌else◌,
}

abbrev pub max_objects : ℕ
max_objects = 256

-- `struct gl_vertex_array_binding_state`
pub record Binding : Type 0 where
  pub name : ℕ
  pub element_array_buffer : ℕ
  pub in_use : Bool

abbrev pub unused : Binding
unused = record { name = 0; element_array_buffer = 0; in_use = false }

-- `glimpl_vertex_array_bindings`, below `max_objects`
abbrev pub Table : Type 0
Table = ℕ → Binding

abbrev pub first_table : Table
first_table zero = record { name = 0; element_array_buffer = 0; in_use = true }
first_table (suc i) = unused

abbrev pub put : Table → ℕ → Binding → Table
put t i b j = if i == j then b else t j

-- The loop of `glimpl_get_vertex_array_binding` ends at the entry of the name, or with `free_slot`.
pub data Found : Type 0 where
  here : ℕ → Found
  nowhere : Option ℕ → Found

abbrev pub is_entry : ℕ → Binding → Bool
is_entry name b = b.in_use && (b.name == name)

abbrev pub keep_free : Option ℕ → Binding → ℕ → Option ℕ
keep_free none b i = if not b.in_use then some i else none
keep_free (some k) b i = some k

-- The loop, with `n` entries left from `i` on.
unfoldable pub search : ℕ → Table → ℕ → ℕ → Option ℕ → Found
search name t zero i free_slot = nowhere free_slot
search name t (suc n) i free_slot =
    let rest = search name t n (i + 1) (keep_free free_slot (t i) i) in
    if is_entry name (t i) then here i else rest

-- The table, and the entry that the pointer returned points to
abbrev pub after_search : Table → ℕ → Bool → Found → Table × Option ℕ
after_search t name create (here i) = (t, some i)
after_search t name true (nowhere (some k)) =
    (put t k (record { name = name; element_array_buffer = 0; in_use = true }), some k)
after_search t name create (nowhere free_slot) = (t, none)

unfoldable pub get_vertex_array_binding : Table → ℕ → Bool → Table × Option ℕ
get_vertex_array_binding t name create =
    after_search t name create (search name t max_objects 0 none)

abbrev pub buffer_at : Table × Option ℕ → ℕ
buffer_at (t, none) = 0
buffer_at (t, some i) = (t i).element_array_buffer

abbrev pub set_buffer_at : Table × Option ℕ → ℕ → Table
set_buffer_at (t, none) buffer = t
set_buffer_at (t, some i) buffer = put t i (record (t i) { element_array_buffer = buffer })

-- `glimpl_get_element_array_buffer_binding` and `glimpl_set_element_array_buffer_binding`, with the
-- current vertex array as `name`
unfoldable pub get_element_array_buffer_binding : Table → ℕ → ℕ
get_element_array_buffer_binding t name = buffer_at (get_vertex_array_binding t name false)

unfoldable pub set_element_array_buffer_binding : Table → ℕ → ℕ → Table
set_element_array_buffer_binding t name buffer =
    set_buffer_at (get_vertex_array_binding t name true) buffer

-- The loop of `glimpl_remove_vertex_array_binding`, with `n` entries left from `i` on.
unfoldable pub remove_from : ℕ → Table → ℕ → ℕ → Table
remove_from name t zero i = t
remove_from name t (suc n) i =
    let rest = remove_from name t n (i + 1) in
    if is_entry name (t i)
    then (if name == 0 then put t i (record (t i) { element_array_buffer = 0 }) else put t i unused)
    else rest

unfoldable pub remove_vertex_array_binding : Table → ℕ → Table
remove_vertex_array_binding t name = remove_from name t max_objects 0

-- The bindings of the client
pub record Bindings : Type 0 where
  pub array_buffer : ℕ
  pub draw_indirect_buffer : ℕ
  pub current_vertex_array : ℕ
  pub vertex_arrays : Table

abbrev pub no_bindings : Bindings
no_bindings = record {
  array_buffer = 0;
  draw_indirect_buffer = 0;
  current_vertex_array = 0;
  vertex_arrays = first_table;
}

abbrev pub gl_array_buffer : ℕ
gl_array_buffer = 0x8892

abbrev pub gl_element_array_buffer : ℕ
gl_element_array_buffer = 0x8893

abbrev pub gl_draw_indirect_buffer : ℕ
gl_draw_indirect_buffer = 0x8F3F

-- What `glBindBuffer`, `glBindVertexArray`, `glVertexArrayElementBuffer` and one round of
-- `glDeleteVertexArrays` do to the bindings; their pushes are left out.
unfoldable pub bind_buffer : ℕ → ℕ → Bindings → Bindings
bind_buffer target buffer s =
    if target == gl_array_buffer
    then record s { array_buffer = buffer }
    else if target == gl_element_array_buffer
    then record s {
      vertex_arrays =
          set_element_array_buffer_binding s.vertex_arrays s.current_vertex_array buffer;
    }
    else if target == gl_draw_indirect_buffer
    then record s { draw_indirect_buffer = buffer }
    else s

unfoldable pub bind_vertex_array : ℕ → Bindings → Bindings
bind_vertex_array array s = record s {
  current_vertex_array = array;
  vertex_arrays = (get_vertex_array_binding s.vertex_arrays array true).0;
}

unfoldable pub vertex_array_element_buffer : ℕ → ℕ → Bindings → Bindings
vertex_array_element_buffer vaobj buffer s = record s {
  vertex_arrays = set_element_array_buffer_binding s.vertex_arrays vaobj buffer;
}

unfoldable pub delete_vertex_array : ℕ → Bindings → Bindings
delete_vertex_array array s = record s {
  current_vertex_array = if s.current_vertex_array == array then 0 else s.current_vertex_array;
  vertex_arrays = remove_vertex_array_binding s.vertex_arrays array;
}

unfoldable pub delete_vertex_arrays : List ℕ → Bindings → Bindings
delete_vertex_arrays [] s = s
delete_vertex_arrays (array ∷ arrays) s = delete_vertex_arrays arrays (delete_vertex_array array s)
