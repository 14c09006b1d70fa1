-- ===== src/Bindings/Room.antt =====
-- How many entries of the table are in use, and that there is room below `max_objects`.
use sharedgl.Prelude.{
  ℕ, zero, suc, ◌+◌, ◌≤◌, ◌<◌, ◌≡◌, inl, inr, refl, true, false, Bool-cases, if◌then◌else◌, arith,
}
use sharedgl.Bindings.{Binding, Table, put}

unfoldable pub used : ℕ → Table → ℕ
used zero t = 0
used (suc n) t = (if (t n).in_use then 1 else 0) + used n t

pub used-put : (n k : ℕ) (t : Table) (b : Binding) → used n (put t k b) ≤ suc (used n t)
unfolding used
used-put zero k t b = omega arith
used-put (suc n) k t b = ground (arith, used-put n k t b, used-put_beyond n k t b)
  where
    used-put_beyond : (n k : ℕ) (t : Table) (b : Binding) → n ≤ k → used n (put t k b) ≡ used n t
    used-put_beyond zero k t b h = refl
    used-put_beyond (suc n) k t b h = ground (arith, used-put_beyond n k t b)

pub used-put-used :
    (n k : ℕ) (t : Table) (b : Binding) → (t k).in_use ≡ true → used n (put t k b) ≤ used n t
unfolding used
used-put-used zero k t b h = omega arith
used-put-used (suc n) k t b h = ground (arith, used-put-used n k t b h)

pub used-room : (n : ℕ) (t : Table) → used n t < n → (i : ℕ) × (i < n) × ((t i).in_use ≡ false)
unfolding used
used-room zero t h = absurd (omega arith)
used-room (suc n) t h = elim (Bool-cases (t n).in_use) [
  | inl e ↦ let (i, p, f) = used-room n t (ground (arith, h, e)) in (i, omega arith, f)
  | inr e ↦ (n, omega arith, e)
]
