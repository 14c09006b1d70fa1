-- ===== src/Bindings/Table.antt =====
-- The table as a map from names to buffers: what each write to an entry does to every lookup.
use sharedgl.Prelude.{
  ℕ, ◌<◌, ◌≡◌, ◌≢◌, ◌⊎◌, inl, inr, refl, ap, true, false, none, some, ◌==◌, if◌then◌else◌, arith,
}
use sharedgl.Bindings.{
  Binding, unused, Table, put, Found, here, nowhere, is_entry, search, max_objects,
  get_vertex_array_binding, after_search, buffer_at, get_element_array_buffer_binding,
}
use sharedgl.Bindings.Search.{Outcome, search-Outcome}

-- Entry 0 is the default vertex array's, and no name has two entries.
pub record IsTable (t : Table) : Type 0 where
  pub default_used : (t 0).in_use ≡ true
  pub default_name : (t 0).name ≡ 0
  pub unique :
      (name i j : ℕ)
      → i < max_objects
      → j < max_objects
      → is_entry name (t i) ≡ true
      → is_entry name (t j) ≡ true
      → i ≡ j

-- A name has an entry or it has none.
abbrev pub HasEntry : Table → ℕ → Type 0
HasEntry t name = (i : ℕ) × (i < max_objects) × (is_entry name (t i) ≡ true)

abbrev pub HasNone : Table → ℕ → Type 0
HasNone t name = (i : ℕ) → i < max_objects → is_entry name (t i) ≡ false

pub HasEntry-cases : (t : Table) (name : ℕ) → HasEntry t name ⊎ HasNone t name
HasEntry-cases t name =
    of (search name t max_objects 0 none) (search-Outcome name t max_objects 0 none)
  where
    of : (r : Found) → Outcome name t max_objects 0 none r → HasEntry t name ⊎ HasNone t name
    of (here k) (p, q, h) = inl (k, q, h)
    of (nowhere none) (h, all) = inr (λ i q. (all i (omega arith) q).0)
    of (nowhere (some f)) (h, all) = inr (λ i q. all i (omega arith) q)

pub search-entry :
    (t : Table) (name i : ℕ)
    → IsTable t
    → i < max_objects
    → is_entry name (t i) ≡ true
    → search name t max_objects 0 none ≡ here i
search-entry t name i wf h e =
    of (search name t max_objects 0 none) (search-Outcome name t max_objects 0 none)
  where
    of : (r : Found) → Outcome name t max_objects 0 none r → r ≡ here i
    of (here k) (p, q, g) = ap here (wf.unique name k i q h g e)
    of (nowhere none) (_, all) = absurd (let g = (all i (omega arith) h).0 in cc)
    of (nowhere (some f)) (_, all) = absurd (let g = all i (omega arith) h in cc)

pub binding-entry :
    (t : Table) (name i : ℕ)
    → IsTable t
    → i < max_objects
    → is_entry name (t i) ≡ true
    → get_element_array_buffer_binding t name ≡ (t i).element_array_buffer
unfolding get_element_array_buffer_binding get_vertex_array_binding
binding-entry t name i wf h e =
    ap (λ r. buffer_at (after_search t name false r)) (search-entry t name i wf h e)

pub binding-none :
    (t : Table) (name : ℕ) → HasNone t name → get_element_array_buffer_binding t name ≡ 0
unfolding get_element_array_buffer_binding get_vertex_array_binding
binding-none t name h =
    of (search name t max_objects 0 none) (search-Outcome name t max_objects 0 none)
  where
    of :
        (r : Found)
        → Outcome name t max_objects 0 none r
        → buffer_at (after_search t name false r) ≡ 0
    of (here k) (p, q, g) = absurd (let e = h k q in cc)
    of (nowhere none) _ = refl
    of (nowhere (some f)) _ = refl

-- Entry `k` is the name's, or unused where the name has none.
abbrev pub IsPlace : Table → ℕ → ℕ → Type 0
IsPlace t name k = (is_entry name (t k) ≡ true) ⊎ (((t k).in_use ≡ false) × HasNone t name)

place-HasEntry :
    (t : Table) (name k j : ℕ)
    → IsPlace t name k
    → j < max_objects
    → is_entry name (t j) ≡ true
    → is_entry name (t k) ≡ true
place-HasEntry t name k j (inl e) q f = e
place-HasEntry t name k j (inr (_, n)) q f = absurd (let g = n j q in cc)

module _ (t : Table) (k : ℕ) (b : Binding) (wf : IsTable t) (h : k < max_objects) where
  open wf use {default_used, default_name, unique}

  pub put-IsTable : b.in_use ≡ true → IsPlace t b.name k → IsTable (put t k b)
  put-IsTable u (inl e) = record {
    default_used = ground (arith, default_used);
    default_name = ground (arith, default_name, e);
    unique = λ name i j p q g f.
        ground (arith, e, unique name i j p q, unique b.name i k p h, unique b.name j k q h);
  }
  put-IsTable u (inr (e, none_of)) = record {
    default_used = ground (arith, default_used, e);
    default_name = ground (arith, default_name, default_used, e);
    unique = λ name i j p q g f. ground (arith, e, unique name i j p q, none_of i p, none_of j q);
  }

  pub binding-put :
      b.in_use ≡ true
      → IsPlace t b.name k
      → (name : ℕ)
      → get_element_array_buffer_binding (put t k b) name ≡ (
          if name == b.name
          then b.element_array_buffer
          else get_element_array_buffer_binding t name)
  binding-put u place name = elim (HasEntry-cases (put t k b) name) [
    | inl (i, p, e) ↦
        let here_i = binding-entry (put t k b) name i (put-IsTable u place) p e in
        elim (HasEntry-cases t name) [
          | inl (j, q, f) ↦ ground (
            arith,
            here_i,
            binding-entry t name j wf q f,
            place-HasEntry t b.name k j place q,
            unique name i j p q,
            unique b.name i k p h,
          )
          | inr n ↦ ground (arith, here_i, binding-none t name n, n i p)
        ]
    | inr n ↦
        let none_here = binding-none (put t k b) name n in
        elim (HasEntry-cases t name) [
          | inl (j, q, f) ↦ ground (
            arith,
            none_here,
            binding-entry t name j wf q f,
            n j q,
            n k h,
            place-HasEntry t b.name k j place q,
            unique b.name j k q h,
          )
          | inr m ↦ ground (arith, none_here, binding-none t name m, n k h)
        ]
  ]

module _ (t : Table) (k name : ℕ) (wf : IsTable t) (h : k < max_objects) where
  open wf use {default_used, default_name, unique}

  pub put-unused-IsTable : is_entry name (t k) ≡ true → name ≢ 0 → IsTable (put t k unused)
  put-unused-IsTable e d = record {
    default_used = ground (arith, default_used, default_name, e);
    default_name = ground (arith, default_name, e);
    unique = λ other i j p q g f. ground (arith, unique other i j p q);
  }

  pub binding-put-unused :
      is_entry name (t k) ≡ true
      → name ≢ 0
      → (other : ℕ)
      → get_element_array_buffer_binding (put t k unused) other
        ≡ (if other == name then 0 else get_element_array_buffer_binding t other)
  binding-put-unused e d other = elim (HasEntry-cases (put t k unused) other) [
    | inl (i, p, g) ↦
        let here_i = binding-entry (put t k unused) other i (put-unused-IsTable e d) p g in
        elim (HasEntry-cases t other) [
          | inl (j, q, f) ↦ ground (
            arith,
            here_i,
            binding-entry t other j wf q f,
            unique other i j p q,
            unique name i k p h,
          )
          | inr n ↦ ground (arith, n i p)
        ]
    | inr n ↦
        let none_here = binding-none (put t k unused) other n in
        elim (HasEntry-cases t other) [
          | inl (j, q, f) ↦ ground (arith, none_here, binding-entry t other j wf q f, n j q)
          | inr m ↦ ground (arith, none_here, binding-none t other m)
        ]
  ]
