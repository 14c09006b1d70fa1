-- ===== src/Connections/Current.antt =====
-- The context that a connection gets, after connections came and went.
use sharedgl.Prelude.{
  ℕ, zero, suc, ◌+◌, ◌≤◌, ◌<◌, ◌≡◌, ◌≢◌, refl, sym, ap, ◌∙◌, Bool, Bool-cases, inl, inr, false,
  Option, none, some, List, [], ◌∷◌, ◌++◌, ◌==◌, if◌then◌else◌, length, ==_iff, ne_test, arith,
  length-append,
}
use sharedgl.Dynarr.{Chain, NotIn}
use sharedgl.Dynarr.Alloc.{IsList, dynarr_alloc-IsList}
use sharedgl.Dynarr.Remove.{keep, dynarr_free_element-Removed}
use sharedgl.Connections.{
  Connections, connection_add, current_from, connection_current, match_connection, connection_rem,
}

-- The context of the first element with an id
abbrev pub find : Connections → ℕ → List ℕ → Option ℕ
find c id [] = none
find c id (a ∷ es) = if c.id a == id then some (c.ctx a) else find c id es

abbrev pub or_else : Option ℕ → Option ℕ → Option ℕ
or_else none b = b
or_else (some a) b = some a

current_from-find :
    (fuel : ℕ) (c : Connections) (con id : ℕ) (es : List ℕ)
    → length es < fuel
    → Chain c.chunks.next con es
    → current_from fuel c con id ≡ find c id es
unfolding current_from
current_from-find zero c con id es f h = absurd (omega arith)
current_from-find (suc fuel) c con id [] f h = rw h refl
current_from-find (suc fuel) c con id (a ∷ es) f h =
    let pos : a ≢ 0 = omega (arith, h.1) in
    let r = current_from-find fuel c (c.chunks.next a) id es (omega arith) h.2 in
    rw (h.0, ne_test a 0 pos, r) refl

connection_current-find :
    (fuel : ℕ) (c : Connections) (id : ℕ) (es : List ℕ)
    → length es < fuel
    → IsList c.chunks es
    → connection_current fuel c id ≡ find c id es
unfolding connection_current
connection_current-find fuel c id es f l = current_from-find fuel c c.chunks.root id es f l.chain

find-add :
    (c d : Connections) (x id : ℕ) (es : List ℕ)
    → ((a : ℕ) → a ≢ x → (d.id a ≡ c.id a) × (d.ctx a ≡ c.ctx a))
    → NotIn x es
    → find d id (es ++ (x ∷ [])) ≡ or_else (find c id es) (find d id (x ∷ []))
find-add c d x id [] same n = refl
find-add c d x id (a ∷ es) same n =
    let s = same a (λ e. n.0 (sym e)) in
    let r = find-add c d x id es same n.1 in
    elim (Bool-cases (c.id a == id)) [ inl e ↦ rw (s.0, s.1, e) refl | inr e ↦ rw (s.0, e, r) refl ]

find-keep_ne :
    (c : Connections) (gone id : ℕ) (es : List ℕ)
    → id ≢ gone
    → find c id (keep (match_connection c gone) es) ≡ find c id es
unfolding keep
find-keep_ne c gone id [] n = refl
find-keep_ne c gone id (a ∷ es) n = elim (Bool-cases (c.id a == gone)) [
  | inl e ↦
      let apart : (c.id a == id) ≡ false =
        ne_test (c.id a) id (λ q. n (sym q ∙ (==_iff (c.id a) gone).0 e)) in
      rw (e, apart) (find-keep_ne c gone id es n)
  | inr e ↦ rw (e, find-keep_ne c gone id es n) refl
]

find-keep_self :
    (c : Connections) (gone : ℕ) (es : List ℕ)
    → find c gone (keep (match_connection c gone) es) ≡ none
unfolding keep
find-keep_self c gone [] = refl
find-keep_self c gone (a ∷ es) = elim (Bool-cases (c.id a == gone)) [
  | inl e ↦ rw e (find-keep_self c gone es)
  | inr e ↦ rw (e, e) (find-keep_self c gone es)
]

length-keep : (matcher : ℕ → Bool) (es : List ℕ) → length (keep matcher es) ≤ length es
unfolding keep
length-keep matcher [] = omega arith
length-keep matcher (a ∷ es) = ground (arith, length-keep matcher es)

add-eq :
    (fuel x context id fd : ℕ) (c : Connections) (es : List ℕ) (j : ℕ)
    → NotIn x es
    → find (connection_add fuel x context id fd c) j (es ++ (x ∷ []))
      ≡ or_else (find c j es) (if id == j then some context else none)
unfolding connection_add
add-eq fuel x context id fd c es j n =
    find-add c (connection_add fuel x context id fd c) x j es
      (λ a q. (ground (arith, q), ground (arith, q))) n
    ∙ rw ((==_iff x x).1 refl) refl

-- With fuel for the connections, after `connection_add` of a new element, each id that had a context keeps it, and the added id
-- gets the new one if it had none: with a second connection of the same id the first stays current.
pub connection_add-current :
    (fuel x context id fd : ℕ) (c : Connections) (es : List ℕ) (j : ℕ)
    → 1 + length es < fuel
    → 1 ≤ x
    → NotIn x es
    → IsList c.chunks es
    → connection_current fuel (connection_add fuel x context id fd c) j
      ≡ or_else (connection_current fuel c j) (if id == j then some context else none)
connection_add-current fuel x context id fd c es j f pos n l =
    let d = connection_add fuel x context id fd c in
    let added : IsList d.chunks (es ++ (x ∷ [])) =
      unfold connection_add in (dynarr_alloc-IsList fuel x c.chunks es (omega arith) pos n l).0 in
    connection_current-find fuel d j (es ++ (x ∷ [])) (omega (arith, length-append es (x ∷ [])))
      added
    ∙ add-eq fuel x context id fd c es j n
    ∙ ap (λ k. or_else k (if id == j then some context else none))
        (sym (connection_current-find fuel c j es (omega arith) l))

rem-find :
    (c : Connections) (id j : ℕ) (es : List ℕ)
    → find c j (keep (match_connection c id) es) ≡ (if j == id then none else find c j es)
rem-find c id j es = elim (Bool-cases (j == id)) [
  | inl e ↦ let same : j ≡ id = (==_iff j id).0 e in rw (e, same) (find-keep_self c id es)
  | inr e ↦ rw e (find-keep_ne c id j es (λ q. absurd (ground (arith, q, e))))
]

rem-same :
    (fuel id : ℕ) (c : Connections) (j : ℕ) (es : List ℕ)
    → find (connection_rem fuel id c) j es ≡ find c j es
unfolding connection_rem
rem-same fuel id c j [] = refl
rem-same fuel id c j (a ∷ es) = rw (rem-same fuel id c j es) refl

-- With fuel for the connections, after `connection_rem` the id has no context, however many connections it had, and every other
-- id has the context that it had before.
pub connection_rem-current :
    (fuel id : ℕ) (c : Connections) (es : List ℕ) (j : ℕ)
    → length es < fuel
    → IsList c.chunks es
    → connection_current fuel (connection_rem fuel id c) j
      ≡ (if j == id then none else connection_current fuel c j)
connection_rem-current fuel id c es j f l =
    let r = (dynarr_free_element-Removed fuel (match_connection c id) es c.chunks f l).list in
    let d = connection_rem fuel id c in
    let left : IsList d.chunks (keep (match_connection c id) es) = unfold connection_rem in r in
    connection_current-find fuel d j (keep (match_connection c id) es)
      (omega (arith, length-keep (match_connection c id) es)) left
    ∙ rem-same fuel id c j (keep (match_connection c id) es)
    ∙ rem-find c id j es
    ∙ ap (λ (k : Option ℕ). if j == id then none else k)
        (sym (connection_current-find fuel c j es f l))
