-- ===== src/Bindings/Writes.antt =====
-- The client's reads and writes of the table, as a map from names to buffers.
use sharedgl.Prelude.{
  ap, ◌∙◌, ℕ, suc, ◌+◌, ◌≤◌, ◌<◌, ◌≡◌, ◌≢◌, ◌⊎◌, inl, inr, refl, sym, true, false, Option, none,
  some, ◌==◌, if◌then◌else◌, Bool-cases, zero, arith,
}
use native.Mathlib.Decide.{dec_lt}
use sharedgl.Bindings.{
  Binding, unused, Table, put, Found, here, nowhere, is_entry, search, max_objects,
  get_vertex_array_binding, after_search, set_buffer_at, get_element_array_buffer_binding,
  set_element_array_buffer_binding, remove_from, remove_vertex_array_binding,
}
use sharedgl.Bindings.Search.{Outcome, search-Outcome}
use sharedgl.Bindings.Table.{
  IsTable, HasNone, IsPlace, put-IsTable, binding-put, put-unused-IsTable, binding-put-unused,
  binding-none,
}
use sharedgl.Bindings.Room.{used, used-put, used-put-used, used-room}

-- From `t` to `t'`, the lookups change to `value` at `name` alone, and at most `extra` entries
-- are taken.
pub record Written (t t' : Table) (name value extra : ℕ) : Type 0 where
  pub table : IsTable t'
  pub lookup :
      (other : ℕ)
      → get_element_array_buffer_binding t' other
        ≡ (if other == name then value else get_element_array_buffer_binding t other)
  pub taken : used max_objects t' ≤ extra + used max_objects t

abbrev entry_of : ℕ → ℕ → Binding
entry_of name buffer = record { name = name; element_array_buffer = buffer; in_use = true }

-- Where there is room, the name has an entry afterwards, and no lookup has changed.
abbrev pub Got : Table → ℕ → Table × Option ℕ → Type 0
Got t name (t', none) = ⊥
Got t name (t', some k) =
    (k < max_objects)
    × (is_entry name (t' k) ≡ true)
    × IsTable t'
    × ((other : ℕ)
        → get_element_array_buffer_binding t' other ≡ get_element_array_buffer_binding t other)
    × (used max_objects t' ≤ 1 + used max_objects t)

within : (a b c : ℕ) → a ≤ b → b ≤ c → a ≤ c
within a b c g h = omega arith

one_more : (a b : ℕ) → a ≤ suc b → a ≤ 1 + b
one_more a b h = omega arith

no_more : (a b : ℕ) → a ≤ b → a ≤ 0 + b
no_more a b h = omega arith

put-IsEntry : (t : Table) (k name : ℕ) → is_entry name (put t k (entry_of name 0) k) ≡ true
put-IsEntry t k name = ground arith

got :
    (t : Table) (name : ℕ) (r : Found)
    → IsTable t
    → used max_objects t < max_objects
    → Outcome name t max_objects 0 none r
    → Got t name (after_search t name true r)
got t name (here k) wf room (p, q, h) = (q, h, wf, λ other. refl, omega arith)
got t name (nowhere none) wf room (_, all) =
    let (i, p, e) = used-room max_objects t room in absurd (let g = (all i (omega arith) p).1 in cc)
got t name (nowhere (some k)) wf room (inl h, none_of) = absurd (cc)
got t name (nowhere (some k)) wf room (inr (_, q, e), none_of) =
    let absent : HasNone t name = λ i p. none_of i (omega arith) p in
    let b = entry_of name 0 in
    (
      q,
      put-IsEntry t k name,
      put-IsTable t k b wf q refl (inr (e, absent)),
      λ other.
          ground (
            arith,
            binding-put t k b wf q refl (inr (e, absent)) other,
            binding-none t name absent,
          ),
      one_more _ (used max_objects t) (used-put max_objects k t b),
    )

pub get_vertex_array_binding-Got :
    (t : Table) (name : ℕ)
    → IsTable t
    → used max_objects t < max_objects
    → Got t name (get_vertex_array_binding t name true)
unfolding get_vertex_array_binding
get_vertex_array_binding-Got t name wf room =
    got t name (search name t max_objects 0 none) wf room (search-Outcome name t max_objects 0 none)

is_entry-name : (name : ℕ) (b : Binding) → is_entry name b ≡ true → b.name ≡ name
is_entry-name name b h = ground (arith, h)

is_entry-used : (name : ℕ) (b : Binding) → is_entry name b ≡ true → b.in_use ≡ true
is_entry-used name b h = ground (arith, h)

is_entry-own : (b : Binding) → b.in_use ≡ true → is_entry b.name b ≡ true
is_entry-own b h = ground (arith, h)

-- A lookup after a write to a name that has an equal one.
lookup-through :
    (other name name' value before between after : ℕ)
    → name' ≡ name
    → between ≡ before
    → after ≡ (if other == name' then value else between)
    → after ≡ (if other == name then value else before)
lookup-through other name name' value before between after e f g = rw (sym e, sym f) g

set-Got :
    (t : Table) (name buffer : ℕ) (r : Table × Option ℕ)
    → Got t name r
    → Written t (set_buffer_at r buffer) name buffer 1
set-Got t name buffer (t', none) h = absurd h
set-Got t name buffer (t', some k) (q, h, wf, same, taken) = record {
  table = put-IsTable t' k b wf q u place;
  lookup = λ other.
      lookup-through other name b.name buffer _ _ _ (is_entry-name name (t' k) h) (same other)
        (binding-put t' k b wf q u place other);
  taken = within _ _ (1 + used max_objects t) (used-put-used max_objects k t' b u) taken;
}
  where
    b : Binding
    b = record (t' k) { element_array_buffer = buffer }

    u : b.in_use ≡ true
    u = is_entry-used name (t' k) h

    place : IsPlace t' b.name k
    place = inl (is_entry-own (t' k) u)

-- While an entry is not in use, setting the buffer of a name keeps the table well formed, takes at
-- most one entry, and changes the lookup of that name, to the buffer, and no other.
pub set_element_array_buffer_binding-Written :
    (t : Table) (name buffer : ℕ)
    → IsTable t
    → used max_objects t < max_objects
    → Written t (set_element_array_buffer_binding t name buffer) name buffer 1
unfolding set_element_array_buffer_binding
set_element_array_buffer_binding-Written t name buffer wf room =
    set-Got t name buffer (get_vertex_array_binding t name true)
      (get_vertex_array_binding-Got t name wf room)

-- The loop of the removal writes to the entry of the name alone.
abbrev removed : Table → ℕ → ℕ → Table
removed t name k =
    if name == 0 then put t k (record (t k) { element_array_buffer = 0 }) else put t k unused

abbrev Removal : ℕ → Table → ℕ → ℕ → Table → Type 0
Removal name t n i t' =
    ((k : ℕ) × (k < i + n) × (is_entry name (t k) ≡ true) × (t' ≡ removed t name k))
    ⊎ ((t' ≡ t) × ((k : ℕ) → i ≤ k → k < i + n → is_entry name (t k) ≡ false))

remove_from-Removal : (name : ℕ) (t : Table) (n i : ℕ) → Removal name t n i (remove_from name t n i)
unfolding remove_from
remove_from-Removal name t zero i = inr (refl, λ k p q. absurd (omega arith))
remove_from-Removal name t (suc n) i = elim (Bool-cases (is_entry name (t i))) [
  | inl e ↦ rw e (inl (i, omega arith, e, refl))
  | inr e ↦ rw e (elim (remove_from-Removal name t n (i + 1)) [
    | inl (k, p, h, g) ↦ inl (k, omega arith, h, g)
    | inr (g, all) ↦ inr (
      g,
      λ k p q. elim (dec_lt i k) [
        | yes l ↦ all k (omega arith) (omega arith)
        | no l ↦ let c : k ≡ i = omega arith in rw c e
      ],
    )
  ])
]

removed-Written :
    (t : Table) (name k : ℕ)
    → IsTable t
    → k < max_objects
    → is_entry name (t k) ≡ true
    → Written t (removed t name k) name 0 0
removed-Written t name k wf q e = elim (Bool-cases (name == 0)) [
  | inl z ↦
      let b = record (t k) { element_array_buffer = 0 } in
      let place : IsPlace t b.name k = inl (ground (arith, e)) in
      let u : b.in_use ≡ true = ground (arith, e) in
      rw z (record {
        table = put-IsTable t k b wf q u place;
        lookup = λ other. ground (arith, e, binding-put t k b wf q u place other);
        taken = no_more _ (used max_objects t) (used-put-used max_objects k t b u);
      })
  | inr z ↦
      let nz : name ≢ 0 = ground (arith, z) in
      rw z (record {
        table = put-unused-IsTable t k name wf q e nz;
        lookup = binding-put-unused t k name wf q e nz;
        taken =
            no_more _ (used max_objects t)
              (used-put-used max_objects k t unused (is_entry-used name (t k) e));
      })
]

-- Removing a name keeps the table well formed, takes no entry, and sets the lookup of that name to 0
-- and no other.
pub remove_vertex_array_binding-Written :
    (t : Table) (name : ℕ) → IsTable t → Written t (remove_vertex_array_binding t name) name 0 0
unfolding remove_vertex_array_binding
remove_vertex_array_binding-Written t name wf = elim (remove_from-Removal name t max_objects 0) [
  | inl (k, q, e, g) ↦ rw g (removed-Written t name k wf q e)
  | inr (g, all) ↦ rw g (record {
    table = wf;
    lookup = λ other. ground (arith, binding-none t name (λ i p. all i (omega arith) p));
    taken = omega arith;
  })
]

full :
    (t : Table) (name buffer : ℕ) (r : Found)
    → ((i : ℕ) → i < max_objects → (t i).in_use ≡ true)
    → HasNone t name
    → Outcome name t max_objects 0 none r
    → set_buffer_at (after_search t name true r) buffer ≡ t
full t name buffer (here k) all absent (p, q, h) = absurd (let g = absent k q in cc)
full t name buffer (nowhere none) all absent _ = refl
full t name buffer (nowhere (some k)) all absent (inl h, _) = absurd (cc)
full t name buffer (nowhere (some k)) all absent (inr (_, q, e), _) = absurd (let g = all k q in cc)

-- With all entries in use by other names, setting the buffer of a name changes nothing, so its
-- lookup stays at 0.
pub set_element_array_buffer_binding-full :
    (t : Table) (name buffer : ℕ)
    → ((i : ℕ) → i < max_objects → (t i).in_use ≡ true)
    → HasNone t name
    → (set_element_array_buffer_binding t name buffer ≡ t)
      × (get_element_array_buffer_binding (set_element_array_buffer_binding t name buffer) name ≡ 0)
unfolding set_element_array_buffer_binding get_vertex_array_binding
set_element_array_buffer_binding-full t name buffer all absent = (
  unchanged,
  ap (λ t'. get_element_array_buffer_binding t' name) unchanged ∙ binding-none t name absent,
)
  where
    unchanged : set_buffer_at (get_vertex_array_binding t name true) buffer ≡ t
    unchanged =
        full t name buffer (search name t max_objects 0 none) all absent
          (search-Outcome name t max_objects 0 none)
