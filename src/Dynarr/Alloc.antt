-- ===== src/Dynarr/Alloc.antt =====
-- `dynarr_alloc` appends an element.
use sharedgl.Prelude.{
  ℕ, zero, suc, ◌≤◌, ◌<◌, ◌≡◌, ◌≢◌, refl, sym, ap, ◌∙◌, List, [], ◌∷◌, ◌++◌, length, arith, ==_iff,
  ne_test,
}
use sharedgl.Dynarr.{Chunks, set_next, last_from, dynarr_alloc, Chain, NotIn, Distinct}

-- Writing an element outside a chain leaves the chain.
pub Chain-set_next :
    (next : ℕ → ℕ) (x q p : ℕ) (es : List ℕ)
    → NotIn x es
    → Chain next p es
    → Chain (set_next next x q) p es
Chain-set_next next x q p [] n c = c
Chain-set_next next x q p (a ∷ es) n c =
    let e : set_next next x q a ≡ next a = ground (arith, n.0) in
    (c.0, c.1, rw e (Chain-set_next next x q (next a) es n.1 c.2))

-- The last element is one of the chain.
last-ne :
    (fuel : ℕ) (next : ℕ → ℕ) (p z a : ℕ) (es : List ℕ)
    → length es < fuel
    → NotIn z (a ∷ es)
    → Chain next p (a ∷ es)
    → z ≢ last_from fuel next p
unfolding last_from
last-ne zero next p z a es h n c = absurd (omega arith)
last-ne (suc fuel) next p z a [] h n c = ground (arith, n.0, c.0, c.2, ap next c.0)
last-ne (suc fuel) next p z a (b ∷ es) h n c =
    let r = last-ne fuel next (next p) z b es (omega arith) n.1 (rw c.0 c.2) in
    ground (arith, r, c.2.0, c.2.1, ap next c.0)

last_from-end : (fuel : ℕ) (next : ℕ → ℕ) (p : ℕ) → next p ≡ 0 → last_from (suc fuel) next p ≡ p
unfolding last_from
last_from-end fuel next p h = ground (arith, h)

last_from-next :
    (fuel : ℕ) (next : ℕ → ℕ) (p : ℕ)
    → next p ≢ 0
    → last_from (suc fuel) next p ≡ last_from fuel next (next p)
unfolding last_from
last_from-next fuel next p h = ground (arith, h)

end-Chain :
    (next : ℕ → ℕ) (p x a : ℕ)
    → 1 ≤ x
    → next x ≡ 0
    → x ≢ a
    → p ≡ a
    → 1 ≤ a
    → Chain (set_next next p x) p (a ∷ x ∷ [])
end-Chain next p x a pos z n e one = (e, one, (ground arith, pos, ground arith))

cons-Chain :
    (next : ℕ → ℕ) (p l0 l x a : ℕ) (es : List ℕ)
    → l0 ≡ l
    → a ≢ l
    → p ≡ a
    → 1 ≤ a
    → Chain (set_next next l x) (next p) es
    → Chain (set_next next l0 x) p (a ∷ es)
cons-Chain next p l0 l x a es same n e one c =
    let apart : a ≢ l0 = rw same n in
    let tail : Chain (set_next next l0 x) (next p) es = rw same c in
    let f : next p ≡ set_next next l0 x a = ap next e ∙ ground (arith, apart) in
    (e, one, rw (← f) tail)

-- Linking a chain's last element to `x` appends `x`.
link-Chain :
    (fuel : ℕ) (next : ℕ → ℕ) (p x a : ℕ) (es : List ℕ)
    → length es < fuel
    → 1 ≤ x
    → next x ≡ 0
    → Distinct (a ∷ es)
    → NotIn x (a ∷ es)
    → Chain next p (a ∷ es)
    → Chain (set_next next (last_from fuel next p) x) p ((a ∷ es) ++ (x ∷ []))
link-Chain zero next p x a es h pos z d n c = absurd (omega arith)
link-Chain (suc fuel) next p x a [] h pos z d n c =
    rw (last_from-end fuel next p (ap next c.0 ∙ c.2)) (end-Chain next p x a pos z n.0 c.0 c.1)
link-Chain (suc fuel) next p x a (b ∷ es) h pos z d n c =
    let tail : Chain next (next p) (b ∷ es) = rw c.0 c.2 in
    let more : next p ≢ 0 = omega (arith, tail.0, tail.1) in
    cons-Chain next p (last_from (suc fuel) next p) (last_from fuel next (next p)) x a
      ((b ∷ es) ++ (x ∷ [])) (last_from-next fuel next p more)
      (last-ne fuel next (next p) a b es (omega arith) d.0 tail) c.0 c.1
      (link-Chain fuel next (next p) x b es (omega arith) pos z d.1 n.1 tail)

-- A list of elements, each once, from `root` on
pub record IsList (h : Chunks) (es : List ℕ) : Type 0 where
  pub chain : Chain h.next h.root es
  pub distinct : Distinct es

Distinct-snoc : (x : ℕ) (es : List ℕ) → Distinct es → NotIn x es → Distinct (es ++ (x ∷ []))
Distinct-snoc x [] d n = (tt, tt)
Distinct-snoc x (a ∷ es) d n = (apart es d.0, Distinct-snoc x es d.1 n.1)
  where
    apart : (es : List ℕ) → NotIn a es → NotIn a (es ++ (x ∷ []))
    apart [] m = ((λ e. n.0 (sym e)), tt)
    apart (b ∷ es) m = (m.0, apart es m.1)

-- `dynarr_alloc` puts the new element behind the others, which stay as they are, in order; it frees
-- nothing. It needs fuel for the elements, and an element from `calloc` that is none of them.
pub dynarr_alloc-IsList :
    (fuel x : ℕ) (h : Chunks) (es : List ℕ)
    → length es < fuel
    → 1 ≤ x
    → NotIn x es
    → IsList h es
    → IsList (dynarr_alloc fuel x h) (es ++ (x ∷ [])) × ((dynarr_alloc fuel x h).freed ≡ h.freed)
unfolding dynarr_alloc
dynarr_alloc-IsList fuel x h [] f pos n l =
    rw ((==_iff h.root 0).1 l.chain)
      (record { chain = (refl, pos, ground arith); distinct = (tt, tt) }, refl)
dynarr_alloc-IsList fuel x h (a ∷ es) f pos n l =
    rw (ne_test h.root 0 (omega (arith, l.chain.0, l.chain.1))) (
      record {
        chain =
            link-Chain fuel (set_next h.next x 0) h.root x a es (omega arith) pos (ground arith)
              l.distinct n (Chain-set_next h.next x 0 h.root (a ∷ es) n l.chain);
        distinct = Distinct-snoc x (a ∷ es) l.distinct n;
      },
      refl,
    )
