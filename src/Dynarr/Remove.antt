-- ===== src/Dynarr/Remove.antt =====
-- `dynarr_free_element` takes the matching elements out.
use sharedgl.Prelude.{
  ℕ, zero, suc, ◌≤◌, ◌<◌, ◌≡◌, ◌≢◌, refl, ap, ◌∙◌, Bool, true, false, Bool-cases, inl, inr, List,
  [], ◌∷◌, if◌then◌else◌, length, arith, ne_test,
}
use sharedgl.Dynarr.{Chunks, set_next, free_from, dynarr_free_element, Chain, NotIn, Distinct}
use sharedgl.Dynarr.Alloc.{Chain-set_next, IsList}

-- The elements that do not match, in order
unfoldable pub keep : (ℕ → Bool) → List ℕ → List ℕ
keep matcher [] = []
keep matcher (a ∷ es) = let rest = keep matcher es in if matcher a then rest else a ∷ rest

-- The matching elements, each in front of the list
unfoldable pub discard : (ℕ → Bool) → List ℕ → List ℕ → List ℕ
discard matcher [] freed = freed
discard matcher (a ∷ es) freed =
    let dropped = discard matcher es (a ∷ freed) in
    let rest = discard matcher es freed in if matcher a then dropped else rest

keep-NotIn : (matcher : ℕ → Bool) (x : ℕ) (es : List ℕ) → NotIn x es → NotIn x (keep matcher es)
unfolding keep
keep-NotIn matcher x [] n = n
keep-NotIn matcher x (a ∷ es) n = elim (Bool-cases (matcher a)) [
  | inl e ↦ rw e (keep-NotIn matcher x es n.1)
  | inr e ↦ rw e (n.0, keep-NotIn matcher x es n.1)
]

keep-Distinct : (matcher : ℕ → Bool) (es : List ℕ) → Distinct es → Distinct (keep matcher es)
unfolding keep
keep-Distinct matcher [] d = d
keep-Distinct matcher (a ∷ es) d = elim (Bool-cases (matcher a)) [
  | inl e ↦ rw e (keep-Distinct matcher es d.1)
  | inr e ↦ rw e (keep-NotIn matcher a es d.0, keep-Distinct matcher es d.1)
]

-- One round of the loop.
free_from-end :
    (fuel : ℕ) (matcher : ℕ → Bool) (prev : ℕ) (h : Chunks)
    → free_from (suc fuel) matcher prev 0 h ≡ h
unfolding free_from
free_from-end fuel matcher prev h = refl

free_from-keep :
    (fuel : ℕ) (matcher : ℕ → Bool) (prev elem : ℕ) (h : Chunks)
    → 1 ≤ elem
    → matcher elem ≡ false
    → free_from (suc fuel) matcher prev elem h ≡ free_from fuel matcher elem (h.next elem) h
unfolding free_from
free_from-keep fuel matcher prev elem h pos e = rw (ne_test elem 0 (omega arith), e) refl

abbrev unlink : ℕ → ℕ → Chunks → Chunks
unlink prev elem h = record h { next = set_next h.next prev (h.next elem); freed = elem ∷ h.freed }

abbrev unlink_root : ℕ → Chunks → Chunks
unlink_root elem h = record h { root = h.next elem; freed = elem ∷ h.freed }

free_from-drop :
    (fuel : ℕ) (matcher : ℕ → Bool) (prev elem : ℕ) (h : Chunks)
    → 1 ≤ elem
    → 1 ≤ prev
    → matcher elem ≡ true
    → free_from (suc fuel) matcher prev elem h
      ≡ free_from fuel matcher prev (h.next elem) (unlink prev elem h)
unfolding free_from
free_from-drop fuel matcher prev elem h pos some e =
    rw (ne_test elem 0 (omega arith), ne_test prev 0 (omega arith), e) refl

free_from-drop_root :
    (fuel : ℕ) (matcher : ℕ → Bool) (elem : ℕ) (h : Chunks)
    → 1 ≤ elem
    → matcher elem ≡ true
    → free_from (suc fuel) matcher 0 elem h
      ≡ free_from fuel matcher 0 (h.next elem) (unlink_root elem h)
unfolding free_from
free_from-drop_root fuel matcher elem h pos e = rw (ne_test elem 0 (omega arith), e) refl

-- The loop behind a kept element `prev`.
record Behind (matcher : ℕ → Bool) (prev : ℕ) (es : List ℕ) (h h' : Chunks) : Type 0 where
  root : h'.root ≡ h.root
  chain : Chain h'.next (h'.next prev) (keep matcher es)
  outside : (z : ℕ) → z ≢ prev → NotIn z es → h'.next z ≡ h.next z
  freed : h'.freed ≡ discard matcher es h.freed

Behind-drop :
    (matcher : ℕ → Bool) (prev elem a : ℕ) (es : List ℕ) (h h' : Chunks)
    → elem ≡ a
    → matcher a ≡ true
    → Behind matcher prev es (unlink prev elem h) h'
    → Behind matcher prev (a ∷ es) h h'
unfolding keep discard
Behind-drop matcher prev elem a es h h' e y r = record {
  root = r.root;
  chain = rw y r.chain;
  outside = λ z q m. r.outside z q m.1 ∙ ground (arith, q);
  freed = rw y (r.freed ∙ ap (λ k. discard matcher es (k ∷ h.freed)) e);
}

Behind-keep :
    (matcher : ℕ → Bool) (prev elem a : ℕ) (es : List ℕ) (h h' : Chunks)
    → elem ≡ a
    → 1 ≤ a
    → matcher a ≡ false
    → prev ≢ a
    → NotIn prev es
    → h.next prev ≡ elem
    → Behind matcher elem es h h'
    → Behind matcher prev (a ∷ es) h h'
unfolding keep discard
Behind-keep matcher prev elem a es h h' e pos y apart n link r = record {
  root = r.root;
  chain = rw y (r.outside prev (rw e apart) n ∙ link ∙ e, pos, rw (← e) r.chain);
  outside = λ z q m. r.outside z (rw e m.0) m.1;
  freed = rw y r.freed;
}

free_from-Behind :
    (fuel : ℕ) (matcher : ℕ → Bool) (prev elem : ℕ) (es : List ℕ) (h : Chunks)
    → length es < fuel
    → 1 ≤ prev
    → NotIn prev es
    → Distinct es
    → h.next prev ≡ elem
    → Chain h.next elem es
    → Behind matcher prev es h (free_from fuel matcher prev elem h)
free_from-Behind zero matcher prev elem es h f pos n d e c = absurd (omega arith)
free_from-Behind (suc fuel) matcher prev elem [] h f pos n d e c =
    rw (c, free_from-end fuel matcher prev h)
      (unfold keep discard in
        record { root = refl; chain = e ∙ c; outside = λ z q m. refl; freed = refl })
free_from-Behind (suc fuel) matcher prev elem (a ∷ es) h f pos n d e c =
    let tail : Chain h.next (h.next elem) es = rw c.0 c.2 in
    let there : 1 ≤ elem = omega (arith, c.0, c.1) in
    elim (Bool-cases (matcher a)) [
      | inl y ↦ rw (free_from-drop fuel matcher prev elem h there pos (ap matcher c.0 ∙ y)) (
          Behind-drop matcher prev elem a es h _ c.0 y (
            free_from-Behind fuel matcher prev (h.next elem) es (unlink prev elem h) (omega arith)
              pos n.1 d.1 (ground arith)
              (Chain-set_next h.next prev (h.next elem) (h.next elem) es n.1 tail)))
      | inr y ↦ rw (free_from-keep fuel matcher prev elem h there (ap matcher c.0 ∙ y)) (
          Behind-keep matcher prev elem a es h _ c.0 c.1 y n.0 n.1 e (
            free_from-Behind fuel matcher elem (h.next elem) es h (omega arith) there (rw c.0 d.0)
              d.1 refl tail))
    ]

-- What the whole call leaves.
pub record Removed (matcher : ℕ → Bool) (es : List ℕ) (h h' : Chunks) : Type 0 where
  pub list : IsList h' (keep matcher es)
  pub freed : h'.freed ≡ discard matcher es h.freed

root-keep :
    (matcher : ℕ → Bool) (elem a : ℕ) (es : List ℕ) (h h' : Chunks)
    → h.root ≡ elem
    → elem ≡ a
    → 1 ≤ a
    → matcher a ≡ false
    → Distinct (a ∷ es)
    → Behind matcher elem es h h'
    → Removed matcher (a ∷ es) h h'
root-keep matcher elem a es h h' at e pos y d r = record {
  list = record {
    chain = unfold keep in rw y (r.root ∙ at ∙ e, pos, rw (← e) r.chain);
    distinct = keep-Distinct matcher (a ∷ es) d;
  };
  freed = unfold discard in rw y r.freed;
}

root-drop :
    (matcher : ℕ → Bool) (elem a : ℕ) (es : List ℕ) (h h' : Chunks)
    → elem ≡ a
    → matcher a ≡ true
    → Removed matcher es (unlink_root elem h) h'
    → Removed matcher (a ∷ es) h h'
unfolding keep discard
root-drop matcher elem a es h h' e y r = record {
  list = record { chain = rw y r.list.chain; distinct = rw y r.list.distinct };
  freed = rw y (r.freed ∙ ap (λ k. discard matcher es (k ∷ h.freed)) e);
}

free_from-Removed :
    (fuel : ℕ) (matcher : ℕ → Bool) (elem : ℕ) (es : List ℕ) (h : Chunks)
    → length es < fuel
    → h.root ≡ elem
    → Distinct es
    → Chain h.next elem es
    → Removed matcher es h (free_from fuel matcher 0 elem h)
free_from-Removed zero matcher elem es h f at d c = absurd (omega arith)
free_from-Removed (suc fuel) matcher elem [] h f at d c =
    rw (c, free_from-end fuel matcher 0 h)
      (unfold keep discard in
        record { list = record { chain = at ∙ c; distinct = tt }; freed = refl })
free_from-Removed (suc fuel) matcher elem (a ∷ es) h f at d c =
    let tail : Chain h.next (h.next elem) es = rw c.0 c.2 in
    let there : 1 ≤ elem = omega (arith, c.0, c.1) in
    elim (Bool-cases (matcher a)) [
      | inl y ↦ rw (free_from-drop_root fuel matcher elem h there (ap matcher c.0 ∙ y)) (
          root-drop matcher elem a es h _ c.0 y (
            free_from-Removed fuel matcher (h.next elem) es (unlink_root elem h) (omega arith) refl
              d.1 tail))
      | inr y ↦ rw (free_from-keep fuel matcher 0 elem h there (ap matcher c.0 ∙ y)) (
          root-keep matcher elem a es h _ at c.0 c.1 y d (
            free_from-Behind fuel matcher elem (h.next elem) es h (omega arith) there (rw c.0 d.0)
              d.1 refl tail))
    ]

-- With fuel for the elements, `dynarr_free_element` leaves the list of the elements that do not
-- match, in order, and frees each that matches once, whatever their places.
pub dynarr_free_element-Removed :
    (fuel : ℕ) (matcher : ℕ → Bool) (es : List ℕ) (h : Chunks)
    → length es < fuel
    → IsList h es
    → Removed matcher es h (dynarr_free_element fuel matcher h)
unfolding dynarr_free_element
dynarr_free_element-Removed fuel matcher es h f l =
    free_from-Removed fuel matcher h.root es h f refl l.distinct l.chain
