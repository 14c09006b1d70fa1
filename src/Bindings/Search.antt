-- ===== src/Bindings/Search.antt =====
-- What the search of the table finds.
use sharedgl.Prelude.{
  ℕ, zero, suc, ◌+◌, ◌≤◌, ◌<◌, ◌≡◌, ◌⊎◌, inl, inr, refl, sym, ap, ◌∙◌, true, false, Option, none,
  some, Bool-cases, arith,
}
use native.Mathlib.Decide.{dec_lt}
use sharedgl.Bindings.{Binding, Table, Found, here, nowhere, is_entry, keep_free, search}

-- The outcome over the entries from `i` to below `i + n`.
abbrev pub Outcome : ℕ → Table → ℕ → ℕ → Option ℕ → Found → Type 0
Outcome name t n i free_slot (here k) = (i ≤ k) × (k < i + n) × (is_entry name (t k) ≡ true)
Outcome name t n i free_slot (nowhere none) =
    (free_slot ≡ none)
    × ((k : ℕ) → i ≤ k → k < i + n → (is_entry name (t k) ≡ false) × ((t k).in_use ≡ true))
Outcome name t n i free_slot (nowhere (some f)) =
    ((free_slot ≡ some f) ⊎ ((i ≤ f) × (f < i + n) × ((t f).in_use ≡ false)))
    × ((k : ℕ) → i ≤ k → k < i + n → is_entry name (t k) ≡ false)

keep_free-none :
    (o : Option ℕ) (b : Binding) (i : ℕ) → keep_free o b i ≡ none → (o ≡ none) × (b.in_use ≡ true)
keep_free-none none b i h = (refl, ground (arith, h))
keep_free-none (some k) b i h = absurd (cc)

keep_free-some :
    (o : Option ℕ) (b : Binding) (i f : ℕ)
    → keep_free o b i ≡ some f
    → (o ≡ some f) ⊎ ((i ≡ f) × (b.in_use ≡ false))
keep_free-some none b i f h = ground (arith, h)
keep_free-some (some k) b i f h = inl h

widen :
    (name : ℕ) (t : Table) (n i : ℕ) (free_slot : Option ℕ) (r : Found)
    → is_entry name (t i) ≡ false
    → Outcome name t n (i + 1) (keep_free free_slot (t i) i) r
    → Outcome name t (suc n) i free_slot r
widen name t n i free_slot (here k) e (p, q, h) = (omega arith, omega arith, h)
widen name t n i free_slot (nowhere none) e (h, all) =
    let (a, b) = keep_free-none free_slot (t i) i h in
    (
      a,
      λ k p q. elim (dec_lt i k) [
        | yes l ↦ all k (omega arith) (omega arith)
        | no l ↦ let c : k ≡ i = omega arith in rw c (e, b)
      ],
    )
widen name t n i free_slot (nowhere (some f)) e (h, all) = (
  elim h [
    | inl h ↦ elim (keep_free-some free_slot (t i) i f h) [
      | inl h ↦ inl h
      | inr (h, u) ↦ inr (omega arith, omega arith, ap (λ k. (t k).in_use) (sym h) ∙ u)
    ]
    | inr (p, q, u) ↦ inr (omega arith, omega arith, u)
  ],
  λ k p q. elim (dec_lt i k) [
    | yes l ↦ all k (omega arith) (omega arith)
    | no l ↦ let c : k ≡ i = omega arith in rw c e
  ],
)

pub search-Outcome :
    (name : ℕ) (t : Table) (n i : ℕ) (free_slot : Option ℕ)
    → Outcome name t n i free_slot (search name t n i free_slot)
unfolding search
search-Outcome name t zero i none = (refl, λ k p q. absurd (omega arith))
search-Outcome name t zero i (some f) = (inl refl, λ k p q. absurd (omega arith))
search-Outcome name t (suc n) i free_slot = elim (Bool-cases (is_entry name (t i))) [
  | inl e ↦ rw e (omega arith, omega arith, e)
  | inr e ↦
      let rest = search-Outcome name t n (i + 1) (keep_free free_slot (t i) i) in
      rw e (widen name t n i free_slot _ e rest)
]
