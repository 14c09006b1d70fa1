-- ===== src/Bindings/Tests.antt =====
-- Tests and instances for the bindings.
use sharedgl.Prelude.{ℕ, ◌<◌, ◌≡◌, refl, true, false, [], ◌∷◌, arith}
use sharedgl.Bindings.{
  Table, is_entry, first_table, get_element_array_buffer_binding, set_element_array_buffer_binding,
  get_vertex_array_binding, search, no_bindings, gl_element_array_buffer,
}
use sharedgl.Bindings.Room.{used}
use sharedgl.Bindings.Calls.{
  bind, bind_array, attach, delete, perform_all, refer_all, first_reference, Agrees,
  perform_all-Agrees,
}
use sharedgl.Bindings.Writes.{set_element_array_buffer_binding-full}

-- Vertex array 7 has buffer 3, the default one buffer 5.
two_attached :
    get_element_array_buffer_binding
      (set_element_array_buffer_binding (set_element_array_buffer_binding first_table 7 3) 0 5)
      7
    ≡ 3
unfolding get_element_array_buffer_binding set_element_array_buffer_binding get_vertex_array_binding
    search
two_attached = refl

perform_all-Agrees_example :
    Agrees
      (perform_all
        (bind_array 7 ∷ bind gl_element_array_buffer 3 ∷ attach 0 5 ∷ delete (7 ∷ []) ∷ [])
        no_bindings)
      (refer_all
        (bind_array 7 ∷ bind gl_element_array_buffer 3 ∷ attach 0 5 ∷ delete (7 ∷ []) ∷ [])
        first_reference)
perform_all-Agrees_example =
    perform_all-Agrees
      (bind_array 7 ∷ bind gl_element_array_buffer 3 ∷ attach 0 5 ∷ delete (7 ∷ []) ∷ [])
      (omega arith)

room : used 256 first_table < 256
unfolding used
room = omega arith

-- Every entry in use, by the names up to 255
abbrev crowded : Table
crowded i = record { name = i; element_array_buffer = 1; in_use = true }

crowded-none : (i : ℕ) → i < 256 → is_entry 300 (crowded i) ≡ false
crowded-none i h = ground arith

set_element_array_buffer_binding-full_example :
    (set_element_array_buffer_binding crowded 300 4 ≡ crowded)
    × (get_element_array_buffer_binding (set_element_array_buffer_binding crowded 300 4) 300 ≡ 0)
set_element_array_buffer_binding-full_example =
    set_element_array_buffer_binding-full crowded 300 4 (λ i h. refl) crowded-none
