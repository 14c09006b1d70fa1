-- ===== src/Pixels/Sizes.antt =====
-- The span of a pixel transfer reaches the end of its last pixel.
use Prim.Native.Nat.{bit_and}
use sharedgl.Prelude.{
  ℕ, zero, suc, ◌+◌, ◌-◌, ◌*◌, ◌/◌, ◌%◌, ◌^◌, ◌≤◌, ◌<◌, ◌≡◌, ◌⊎◌, inl, inr, refl, sym, ap, ◌∙◌,
  arith,
}
use native.Mathlib.Nat.{one-le-pow, mul-le-mul}
use sharedgl.Prelude.Bits.{bit_and_step, bit_and-zero}
use sharedgl.Layout.{size_mod}
use sharedgl.Pixels.{align_size, get_pixel_size, get_pixel_component_count, type_size}

-- The alignments of OpenGL
abbrev pub IsAlignment : ℕ → Type 0
IsAlignment a = (a ≡ 1) ⊎ (a ≡ 2) ⊎ (a ≡ 4) ⊎ (a ≡ 8)

bit_and-ones : (m x : ℕ) → x < 2 ^ m → bit_and x (2 ^ m - 1) ≡ x
bit_and-ones zero x h = omega (arith, bit_and-zero x)
bit_and-ones (suc m) x h =
    let p : 1 ≤ 2 ^ m = one-le-pow m 2 (omega arith) in
    let e : (2 ^ suc m - 1) / 2 ≡ 2 ^ m - 1 = omega arith in
    let i = bit_and-ones m (x / 2) (omega arith) in
    let j = ap (bit_and (x / 2)) e in omega (arith, bit_and_step x (2 ^ suc m - 1), i, j)

bit_and-double : (x c : ℕ) → bit_and x (2 * c) ≡ bit_and (x / 2) c * 2
bit_and-double x c =
    let e : 2 * c / 2 ≡ c = omega arith in
    omega (arith, bit_and_step x (2 * c), ap (bit_and (x / 2)) e)

-- The mask of `~(alignment - 1)` rounds down.
round_down :
    (x a : ℕ) → x < size_mod → (a ≡ 2) ⊎ (a ≡ 4) ⊎ (a ≡ 8) → bit_and x (size_mod - a) ≡ x / a * a
round_down x a h (inl e) =
    rw e (omega (arith, bit_and-double x (2 ^ 63 - 1), bit_and-ones 63 (x / 2) (omega arith)))
round_down x a h (inr (inl e)) = rw e (
    omega (
      arith,
      bit_and-double x (2 * (2 ^ 62 - 1)),
      bit_and-double (x / 2) (2 ^ 62 - 1),
      bit_and-ones 62 (x / 2 / 2) (omega arith),
    ))
round_down x a h (inr (inr e)) = rw e (
    omega (
      arith,
      bit_and-double x (2 * (2 * (2 ^ 61 - 1))),
      bit_and-double (x / 2) (2 * (2 ^ 61 - 1)),
      bit_and-double (x / 2 / 2) (2 ^ 61 - 1),
      bit_and-ones 61 (x / 2 / 2 / 2) (omega arith),
    ))

-- `r` is the least multiple of `a` from `value` on.
pub record Aligned (value a r : ℕ) : Type 0 where
  pub multiple : r % a ≡ 0
  pub covers : value ≤ r
  pub least : r < value + a

-- With an alignment of 1, 2, 4 or 8 and a size at least 8 below 2^64, the aligned size is the least multiple from the size on.
pub align_size-Aligned :
    (value a : ℕ) → value + 8 ≤ size_mod → IsAlignment a → Aligned value a (align_size value a)
unfolding align_size
align_size-Aligned value a h (inl e) =
    rw e (record { multiple = omega arith; covers = omega arith; least = omega arith })
align_size-Aligned value a h (inr (inl e)) =
    let r = round_down (value + 1) 2 (omega arith) (inl refl) in
    let m : (value + 2 - 1) % size_mod ≡ value + 1 = omega arith in
    rw (e, m, r) (record { multiple = omega arith; covers = omega arith; least = omega arith })
align_size-Aligned value a h (inr (inr (inl e))) =
    let r = round_down (value + 3) 4 (omega arith) (inr (inl refl)) in
    let m : (value + 4 - 1) % size_mod ≡ value + 3 = omega arith in
    rw (e, m, r) (record { multiple = omega arith; covers = omega arith; least = omega arith })
align_size-Aligned value a h (inr (inr (inr e))) =
    let r = round_down (value + 7) 8 (omega arith) (inr (inr refl)) in
    let m : (value + 8 - 1) % size_mod ≡ value + 7 = omega arith in
    rw (e, m, r) (record { multiple = omega arith; covers = omega arith; least = omega arith })

-- The remainders of two multiples of `a`, at its value.
remainders :
    (value a r r' k : ℕ)
    → a ≡ k
    → Aligned value a r
    → Aligned value a r'
    → (r % k ≡ 0) × (r' % k ≡ 0) × (value ≤ r) × (r < value + k) × (value ≤ r') × (r' < value + k)
remainders value a r r' k e p q = (
  ap (λ (b : ℕ). r % b) (sym e) ∙ p.multiple,
  ap (λ (b : ℕ). r' % b) (sym e) ∙ q.multiple,
  p.covers,
  omega (arith, e, p.least),
  q.covers,
  omega (arith, e, q.least),
)

pub Aligned-unique :
    (value a r r' : ℕ) → IsAlignment a → Aligned value a r → Aligned value a r' → r ≡ r'
Aligned-unique value a r r' (inl e) p q = omega (arith, remainders value a r r' 1 e p q)
Aligned-unique value a r r' (inr (inl e)) p q = omega (arith, remainders value a r r' 2 e p q)
Aligned-unique value a r r' (inr (inr (inl e))) p q = omega (arith, remainders value a r r' 4 e p q)
Aligned-unique value a r r' (inr (inr (inr e))) p q = omega (arith, remainders value a r r' 8 e p q)

get_pixel_component_count-le : (format : ℕ) → get_pixel_component_count format ≤ 4
unfolding get_pixel_component_count
get_pixel_component_count-le format = ground arith

pub type_size-le : (type : ℕ) → type_size type ≤ 8
unfolding type_size
type_size-le type = ground arith

pub get_pixel_size-le : (format type : ℕ) → get_pixel_size format type ≤ 32
unfolding get_pixel_size
get_pixel_size-le format type =
    ground (arith, mul-le-mul (get_pixel_component_count-le format) (type_size-le type))
