-- ===== src/Draws/Indices.antt =====
-- The greatest index.
use sharedgl.Prelude.{ℕ, zero, suc, ◌+◌, ◌≤◌, ◌<◌, ◌^◌, ◌≡◌, ◌⊎◌, inl, inr, refl, ap, max, arith}
use native.Mathlib.Decide.{dec_lt}
use sharedgl.Memory.{Memory}
use sharedgl.Pixels.Enum.{gl_unsigned_byte, gl_unsigned_short, gl_unsigned_int}
use sharedgl.Draws.{max_from, index8, index16, index32, rounds_of, get_max_index}

-- `r` is the maximum of `from` and the `n` indices from `i` on.
pub record IsMaximum (index : ℕ → ℕ) (n i from r : ℕ) : Type 0 where
  pub above : (k : ℕ) → i ≤ k → k < i + n → index k ≤ r
  pub from_above : from ≤ r
  pub attained : (r ≡ from) ⊎ ((k : ℕ) × (i ≤ k) × (k < i + n) × (r ≡ index k))

pub max_from-IsMaximum :
    (index : ℕ → ℕ) (n i from : ℕ) → IsMaximum index n i from (max_from index n i from)
unfolding max_from
max_from-IsMaximum index zero i from = record {
  above = λ k p q. absurd (omega arith);
  from_above = omega arith;
  attained = inl refl;
}
max_from-IsMaximum index (suc n) i from =
    let rest = max_from-IsMaximum index n (i + 1) (max from (index i)) in
    record {
      above = λ k p q. elim (dec_lt i k) [
        | yes l ↦ rest.above k (omega arith) (omega arith)
        | no l ↦ let e : k ≡ i = omega arith in omega (arith, ap index e, rest.from_above)
      ];
      from_above = omega (arith, rest.from_above);
      attained = elim rest.attained [
        | inl e ↦ elim (dec_lt from (index i)) [
          | yes l ↦ inr (i, omega arith, omega arith, omega (arith, e))
          | no l ↦ inl (omega (arith, e))
        ]
        | inr (k, p, q, e) ↦ inr (k, omega arith, omega arith, e)
      ];
    }

pub rounds_of-small : (count : ℕ) → count < 2 ^ 31 → rounds_of count ≡ count
rounds_of-small count h = ground arith

-- For a count below 2^31: the result is the greatest of the indices of the type's width, or 0 where
-- there is none.
pub get_max_index-IsMaximum :
    (count : ℕ) (indices : Memory)
    → count < 2 ^ 31
    → IsMaximum (index8 indices) count 0 0 (get_max_index gl_unsigned_byte count indices)
      × IsMaximum (index16 indices) count 0 0 (get_max_index gl_unsigned_short count indices)
      × IsMaximum (index32 indices) count 0 0 (get_max_index gl_unsigned_int count indices)
unfolding get_max_index
get_max_index-IsMaximum count indices h =
    let e = rounds_of-small count h in
    rw e (
      max_from-IsMaximum (index8 indices) count 0 0,
      max_from-IsMaximum (index16 indices) count 0 0,
      max_from-IsMaximum (index32 indices) count 0 0,
    )
