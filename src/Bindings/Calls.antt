-- ===== src/Bindings/Calls.antt =====
-- The client's bindings agree with the reference bindings after any calls, as long as these cannot
-- fill the table.
use sharedgl.Prelude.{
  ℕ, zero, suc, true, inl, inr, Bool-cases, ◌+◌, ◌≤◌, ◌<◌, ◌≡◌, ◌∙◌, ap, refl, sym, Option, none,
  some, List, [], ◌∷◌, ◌==◌, if◌then◌else◌, length, arith,
}
use sharedgl.Bindings.{
  Table, first_table, max_objects, get_element_array_buffer_binding, Bindings, no_bindings,
  bind_buffer, bind_vertex_array, vertex_array_element_buffer, delete_vertex_array,
  delete_vertex_arrays, gl_array_buffer, gl_element_array_buffer, gl_draw_indirect_buffer,
}
use sharedgl.Bindings.Table.{IsTable, HasEntry-cases, binding-entry, binding-none}
use sharedgl.Bindings.Room.{used}
use sharedgl.Bindings.Writes.{
  Written, Got, get_vertex_array_binding-Got, set_element_array_buffer_binding-Written,
  remove_vertex_array_binding-Written,
}

-- A call of the client that changes the bindings
pub data Call : Type 0 where
  bind : (target buffer : ℕ) → Call  -- `glBindBuffer`
  bind_array : (array : ℕ) → Call  -- `glBindVertexArray`
  attach : (vaobj buffer : ℕ) → Call  -- `glVertexArrayElementBuffer`
  delete : (arrays : List ℕ) → Call  -- `glDeleteVertexArrays`

unfoldable pub perform : Call → Bindings → Bindings
perform (bind target buffer) = bind_buffer target buffer
perform (bind_array array) = bind_vertex_array array
perform (attach vaobj buffer) = vertex_array_element_buffer vaobj buffer
perform (delete arrays) = delete_vertex_arrays arrays

unfoldable pub perform_all : List Call → Bindings → Bindings
perform_all [] s = s
perform_all (c ∷ cs) s = perform_all cs (perform c s)

-- The reference: a map from vertex arrays to buffers that never fills.
pub record Reference : Type 0 where
  pub array_buffer : ℕ
  pub draw_indirect_buffer : ℕ
  pub current : ℕ
  pub element : ℕ → ℕ

abbrev pub first_reference : Reference
first_reference = record {
  array_buffer = 0;
  draw_indirect_buffer = 0;
  current = 0;
  element = λ _. 0;
}

abbrev pub assign : (ℕ → ℕ) → ℕ → ℕ → ℕ → ℕ
assign f name value other = if other == name then value else f other

unfoldable pub refer_delete : List ℕ → Reference → Reference
refer_delete [] r = r
refer_delete (array ∷ arrays) r = refer_delete arrays (record r {
  current = if r.current == array then 0 else r.current;
  element = assign r.element array 0;
})

unfoldable pub refer : Call → Reference → Reference
refer (bind target buffer) r =
    if target == gl_array_buffer
    then record r { array_buffer = buffer }
    else if target == gl_element_array_buffer
    then record r { element = assign r.element r.current buffer }
    else if target == gl_draw_indirect_buffer
    then record r { draw_indirect_buffer = buffer }
    else r
refer (bind_array array) r = record r { current = array }
refer (attach vaobj buffer) r = record r { element = assign r.element vaobj buffer }
refer (delete arrays) r = refer_delete arrays r

unfoldable pub refer_all : List Call → Reference → Reference
refer_all [] r = r
refer_all (c ∷ cs) r = refer_all cs (refer c r)

-- The client and the reference have the same bindings.
pub record Agrees (s : Bindings) (r : Reference) : Type 0 where
  pub array_buffer : s.array_buffer ≡ r.array_buffer
  pub draw_indirect_buffer : s.draw_indirect_buffer ≡ r.draw_indirect_buffer
  pub current : s.current_vertex_array ≡ r.current
  pub element : (name : ℕ) → get_element_array_buffer_binding s.vertex_arrays name ≡ r.element name
  pub table : IsTable s.vertex_arrays

-- Agreement, with at most `bound` entries in use.
abbrev Kept : Bindings → Reference → ℕ → Type 0
Kept s r bound = Agrees s r × (used max_objects s.vertex_arrays ≤ bound)

first-unused : (i : ℕ) → (first_table i).in_use ≡ true → i ≡ 0
first-unused zero h = refl
first-unused (suc i) h = absurd (cc)

first-buffer : (i : ℕ) → (first_table i).element_array_buffer ≡ 0
first-buffer zero = refl
first-buffer (suc i) = refl

pub first_table-IsTable : IsTable first_table
first_table-IsTable = record {
  default_used = refl;
  default_name = refl;
  unique = λ name i j p q e f. ground (arith, e, f, first-unused i, first-unused j);
}

grown :
    (a b extra bound bound' : ℕ) → b ≤ bound → a ≤ extra + b → extra + bound ≤ bound' → a ≤ bound'
grown a b extra bound bound' f g h = omega arith

module _ (s : Bindings) (r : Reference) (bound : ℕ) where
  set-Kept :
      (t' : Table) (name buffer extra bound' : ℕ)
      → Kept s r bound
      → Written s.vertex_arrays t' name buffer extra
      → (c c' : ℕ) → c ≡ c'
      → extra + bound ≤ bound'
      → Kept
          (record s { vertex_arrays = t'; current_vertex_array = c })
          (record r { element = assign r.element name buffer; current = c' })
          bound'
  set-Kept t' name buffer extra bound' (k, u) w c c' e l = (
    record {
      array_buffer = k.array_buffer;
      draw_indirect_buffer = k.draw_indirect_buffer;
      current = e;
      element = λ other. ground (arith, w.lookup other, k.element other);
      table = w.table;
    },
    grown _ _ extra bound bound' u w.taken l,
  )

  other-Kept :
      (a a' d d' : ℕ)
      → Kept s r bound
      → a ≡ a'
      → d ≡ d'
      → Kept
          (record s { array_buffer = a; draw_indirect_buffer = d })
          (record r { array_buffer = a'; draw_indirect_buffer = d' })
          (suc bound)
  other-Kept a a' d d' (k, u) e f = (
    record {
      array_buffer = e;
      draw_indirect_buffer = f;
      current = k.current;
      element = k.element;
      table = k.table;
    },
    omega arith,
  )

  Got-Kept :
      (array : ℕ) (g : Table × Option ℕ)
      → Kept s r bound
      → Got s.vertex_arrays array g
      → Kept
          (record s { current_vertex_array = array; vertex_arrays = g.0 })
          (record r { current = array })
          (suc bound)
  Got-Kept array (t', none) (k, u) h = absurd h
  Got-Kept array (t', some i) (k, u) (_, _, wf, same, taken) = (
    record {
      array_buffer = k.array_buffer;
      draw_indirect_buffer = k.draw_indirect_buffer;
      current = refl;
      element = λ other. same other ∙ k.element other;
      table = wf;
    },
    grown _ _ 1 bound (suc bound) u taken (omega arith),
  )

delete_vertex_arrays-Kept :
    (arrays : List ℕ) (s : Bindings) (r : Reference) (bound : ℕ)
    → Kept s r bound
    → Kept (delete_vertex_arrays arrays s) (refer_delete arrays r) bound
unfolding delete_vertex_arrays refer_delete
delete_vertex_arrays-Kept [] s r bound k = k
delete_vertex_arrays-Kept (array ∷ arrays) s r bound k =
    delete_vertex_arrays-Kept arrays (delete_vertex_array array s) _ bound (
      unfold delete_vertex_array in
      set-Kept s r bound _ array 0 0 bound k
        (remove_vertex_array_binding-Written s.vertex_arrays array k.0.table)
        (if s.current_vertex_array == array then 0 else s.current_vertex_array)
        (if r.current == array then 0 else r.current)
        (ap (λ (c : ℕ). if c == array then 0 else c) k.0.current) (omega arith))

bind_buffer-Kept :
    (target buffer : ℕ) (s : Bindings) (r : Reference) (bound : ℕ)
    → bound < max_objects
    → Kept s r bound
    → Kept (bind_buffer target buffer s) (refer (bind target buffer) r) (suc bound)
unfolding bind_buffer refer
bind_buffer-Kept target buffer s r bound h k = elim (Bool-cases (target == gl_array_buffer)) [
  | inl e ↦
      rw e (other-Kept s r bound buffer _ s.draw_indirect_buffer _ k refl k.0.draw_indirect_buffer)
  | inr e ↦ rw e (elim (Bool-cases (target == gl_element_array_buffer)) [
    | inl e ↦ rw e (
        set-Kept s r bound _ r.current buffer 1 (suc bound) k
          (rw (sym k.0.current) (
            set_element_array_buffer_binding-Written s.vertex_arrays s.current_vertex_array buffer
              k.0.table (omega (arith, k.1))))
          s.current_vertex_array r.current k.0.current (omega arith))
    | inr e ↦ rw e (elim (Bool-cases (target == gl_draw_indirect_buffer)) [
      | inl e ↦ rw e (other-Kept s r bound s.array_buffer _ buffer _ k k.0.array_buffer refl)
      | inr e ↦ rw e (k.0, omega (arith, k.1))
    ])
  ])
]

perform-Kept :
    (c : Call) (s : Bindings) (r : Reference) (bound : ℕ)
    → bound < max_objects
    → Kept s r bound
    → Kept (perform c s) (refer c r) (suc bound)
unfolding perform
perform-Kept (bind target buffer) s r bound h k = bind_buffer-Kept target buffer s r bound h k
perform-Kept (bind_array array) s r bound h k =
    unfold bind_vertex_array refer in
    Got-Kept s r bound array _ k
      (get_vertex_array_binding-Got s.vertex_arrays array k.0.table (omega (arith, k.1)))
perform-Kept (attach vaobj buffer) s r bound h k =
    unfold vertex_array_element_buffer refer in
    set-Kept s r bound _ vaobj buffer 1 (suc bound) k
      (set_element_array_buffer_binding-Written s.vertex_arrays vaobj buffer k.0.table
        (omega (arith, k.1)))
      s.current_vertex_array r.current k.0.current (omega arith)
perform-Kept (delete arrays) s r bound h k =
    unfold refer in let (a, u) = delete_vertex_arrays-Kept arrays s r bound k in (a, omega arith)

perform_all-Kept :
    (cs : List Call) (s : Bindings) (r : Reference) (bound : ℕ)
    → bound + length cs ≤ max_objects
    → Kept s r bound
    → Agrees (perform_all cs s) (refer_all cs r)
unfolding perform_all refer_all
perform_all-Kept [] s r bound h k = k.0
perform_all-Kept (c ∷ cs) s r bound h k =
    perform_all-Kept cs (perform c s) (refer c r) (suc bound) (omega arith)
      (perform-Kept c s r bound (omega arith) k)

start-Kept : Kept no_bindings first_reference 1
unfolding used
start-Kept = (
  record {
    array_buffer = refl;
    draw_indirect_buffer = refl;
    current = refl;
    element = λ name. elim (HasEntry-cases first_table name) [
      | inl (i, p, e) ↦ binding-entry first_table name i first_table-IsTable p e ∙ first-buffer i
      | inr n ↦ binding-none first_table name n
    ];
    table = first_table-IsTable;
  },
  omega arith,
)

-- After at most 255 calls from the start, the client and the reference have the same array buffer,
-- indirect buffer, current vertex array, and element array buffer of every vertex array.
pub perform_all-Agrees :
    (cs : List Call)
    → length cs < max_objects
    → Agrees (perform_all cs no_bindings) (refer_all cs first_reference)
perform_all-Agrees cs h = perform_all-Kept cs no_bindings first_reference 1 (omega arith) start-Kept
