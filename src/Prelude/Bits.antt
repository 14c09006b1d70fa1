-- ===== src/Prelude/Bits.antt =====
-- `|` and `&` of the native numbers at variables: one digit at a time, and at a single set bit.
use Prim.Native.Nat.{
  ℕ, zero, suc, ◌+◌, ◌-◌, ◌*◌, ◌/◌, ◌%◌, ◌^◌, ◌≤◌, ◌<◌, min, max, bit_and, bit_or, digits,
  bit_and-bitwise, bit_or-bitwise,
}
use mathlib.Core.Path.{◌≡◌, refl, sym, ap, ◌∙◌}
use mathlib.Core.Logic.{◌≢◌}
use native.Mathlib.Nat.{pow-suc, one-le-pow}
use native.Mathlib.Omega.{arith}

-- An operation `op` that means a recursion on the digits: `one` where the left one runs out, `both`
-- at each digit. The library's meaning has the left argument for fuel.
module _ (one : ℕ → ℕ) (both op : ℕ → ℕ → ℕ)
    (meaning : (x y : ℕ) → op x y ≡ digits one both x x y) where
  one_more : (fuel x y : ℕ) → x ≤ fuel → digits one both (suc fuel) x y ≡ digits one both fuel x y
  one_more zero zero y h = refl
  one_more (suc fuel) zero y h = refl
  one_more zero (suc x) y h = absurd (omega arith)
  one_more (suc fuel) (suc x) y h = omega (arith, one_more fuel (suc x / 2) (y / 2) (omega arith))

  some_more : (extra fuel x y : ℕ) → extra + x ≡ fuel → digits one both fuel x y ≡ op x y
  some_more zero fuel x y h = ap (λ k. digits one both k x y) (omega arith) ∙ sym (meaning x y)
  some_more (suc extra) zero x y h = absurd (omega arith)
  some_more (suc extra) (suc fuel) x y h =
      one_more fuel x y (omega arith) ∙ some_more extra fuel x y (omega arith)

  lowest_digit : (x y : ℕ) → op (suc x) y ≡ op (suc x / 2) (y / 2) * 2 + both (suc x % 2) (y % 2)
  lowest_digit x y =
      omega
        (arith, meaning (suc x) y, some_more (x - suc x / 2) x (suc x / 2) (y / 2) (omega arith))

pub zero-bit_and : (b : ℕ) → bit_and 0 b ≡ 0
zero-bit_and b = bit_and-bitwise 0 b

pub zero-bit_or : (b : ℕ) → bit_or 0 b ≡ b
zero-bit_or b = bit_or-bitwise 0 b

pub bit_and_step : (a b : ℕ) → bit_and a b ≡ bit_and (a / 2) (b / 2) * 2 + min (a % 2) (b % 2)
bit_and_step zero y = omega (arith, zero-bit_and y, zero-bit_and (y / 2))
bit_and_step (suc x) y = lowest_digit (λ _. 0) min bit_and bit_and-bitwise x y

pub bit_or_step : (a b : ℕ) → bit_or a b ≡ bit_or (a / 2) (b / 2) * 2 + max (a % 2) (b % 2)
bit_or_step zero y = omega (arith, zero-bit_or y, zero-bit_or (y / 2))
bit_or_step (suc x) y = lowest_digit (λ y. y) max bit_or bit_or-bitwise x y

halves : (n a : ℕ) → a ≤ n → (bit_or a 0 ≡ a) × (bit_and a 0 ≡ 0)
halves n zero h = (zero-bit_or 0, zero-bit_and 0)
halves zero (suc a) h = absurd (omega arith)
halves (suc n) (suc a) h =
    omega (arith, bit_or_step (suc a) 0, bit_and_step (suc a) 0, halves n (suc a / 2) (omega arith))

pub bit_or-zero : (a : ℕ) → bit_or a 0 ≡ a
bit_or-zero a = (halves a a (omega arith)).0

pub bit_and-zero : (a : ℕ) → bit_and a 0 ≡ 0
bit_and-zero a = (halves a a (omega arith)).1

times_two : (q k : ℕ) → q * 2 ^ suc k ≡ 2 * (q * 2 ^ k)
times_two q k = omega (arith, ap (λ (t : ℕ). q * t) (pow-suc 2 k))

-- Or of fields that do not overlap is their sum.
pub bit_or_disjoint : (k q r : ℕ) → r < 2 ^ k → bit_or r (q * 2 ^ k) ≡ r + q * 2 ^ k
bit_or_disjoint zero q zero h = zero-bit_or (q * 1) ∙ omega arith
bit_or_disjoint zero q (suc r) h = absurd (omega arith)
bit_or_disjoint (suc k) q r h = ground (
  arith,
  bit_or_step r (q * 2 ^ suc k),
  times_two q k,
  bit_or_disjoint k q (r / 2) (omega (arith, pow-suc 2 k)),
)

-- Bit `k` of `a`.
abbrev pub bit : ℕ → ℕ → ℕ
bit zero a = a % 2
bit (suc k) a = bit k (a / 2)

pub bit_lt : (k a : ℕ) → bit k a < 2
bit_lt zero a = omega arith
bit_lt (suc k) a = bit_lt k (a / 2)

half_pow : (k : ℕ) → (2 ^ suc k / 2 ≡ 2 ^ k) × (2 ^ suc k % 2 ≡ 0)
half_pow k = omega (arith, pow-suc 2 k)

-- And with one bit reads it.
pub bit_and-bit : (k a : ℕ) → bit_and a (2 ^ k) ≡ bit k a * 2 ^ k
bit_and-bit zero a = omega (arith, bit_and_step a 1, bit_and-zero (a / 2))
bit_and-bit (suc k) a = ground (
  arith,
  half_pow k,
  bit_and_step a (2 ^ suc k),
  bit_and-bit k (a / 2),
  times_two (bit k (a / 2)) k,
)

pub bit-bit_and : (j a b : ℕ) → bit j (bit_and a b) ≡ min (bit j a) (bit j b)
bit-bit_and zero a b = omega (arith, bit_and_step a b)
bit-bit_and (suc j) a b =
    let e : bit_and a b / 2 ≡ bit_and (a / 2) (b / 2) = omega (arith, bit_and_step a b) in
    ap (bit j) e ∙ bit-bit_and j (a / 2) (b / 2)

pub bit-bit_or : (j a b : ℕ) → bit j (bit_or a b) ≡ max (bit j a) (bit j b)
bit-bit_or zero a b = omega (arith, bit_or_step a b)
bit-bit_or (suc j) a b =
    let e : bit_or a b / 2 ≡ bit_or (a / 2) (b / 2) = omega (arith, bit_or_step a b) in
    ap (bit j) e ∙ bit-bit_or j (a / 2) (b / 2)

bit-zero : (j : ℕ) → bit j 0 ≡ 0
bit-zero zero = refl
bit-zero (suc j) = bit-zero j

pub bit-pow_self : (k : ℕ) → bit k (2 ^ k) ≡ 1
bit-pow_self zero = refl
bit-pow_self (suc k) = ap (bit k) (half_pow k).0 ∙ bit-pow_self k

pub bit-pow_ne : (j k : ℕ) → j ≢ k → bit j (2 ^ k) ≡ 0
bit-pow_ne zero zero h = absurd (h refl)
bit-pow_ne zero (suc k) h = (half_pow k).1
bit-pow_ne (suc j) zero h = bit-zero j
bit-pow_ne (suc j) (suc k) h = ap (bit j) (half_pow k).0 ∙ bit-pow_ne j k (λ e. h (ap suc e))

-- `~(1 << k)` in `w` bits.
abbrev pub all_but : ℕ → ℕ → ℕ
all_but w k = 2 ^ w - 1 - 2 ^ k

pow_mono : (k w : ℕ) → k < w → 2 ^ suc k ≤ 2 ^ w
pow_mono k zero h = absurd (omega arith)
pow_mono zero (suc w) h = omega (arith, pow-suc 2 w, one-le-pow w 2)
pow_mono (suc k) (suc w) h =
    omega (arith, pow-suc 2 w, pow-suc 2 (suc k), pow_mono k w (omega arith))

bit-ones : (j w : ℕ) → j < w → bit j (2 ^ w - 1) ≡ 1
bit-ones j zero h = absurd (omega arith)
bit-ones zero (suc w) h = omega (arith, pow-suc 2 w, one-le-pow w 2)
bit-ones (suc j) (suc w) h =
    let e : (2 ^ suc w - 1) / 2 ≡ 2 ^ w - 1 = omega (arith, pow-suc 2 w, one-le-pow w 2) in
    ap (bit j) e ∙ bit-ones j w (omega arith)

all_but_half : (w k : ℕ) → k < w → all_but (suc w) (suc k) / 2 ≡ all_but w k
all_but_half w k h = omega (arith, pow-suc 2 w, pow-suc 2 k, pow_mono k w h, one-le-pow k 2)

pub bit-all_but_self : (w k : ℕ) → k < w → bit k (all_but w k) ≡ 0
bit-all_but_self zero k h = absurd (omega arith)
bit-all_but_self (suc w) zero h = omega (arith, pow-suc 2 w, one-le-pow w 2)
bit-all_but_self (suc w) (suc k) h =
    ap (bit k) (all_but_half w k (omega arith)) ∙ bit-all_but_self w k (omega arith)

pub bit-all_but_ne : (w j k : ℕ) → j < w → k < w → j ≢ k → bit j (all_but w k) ≡ 1
bit-all_but_ne zero j k h q n = absurd (omega arith)
bit-all_but_ne (suc w) zero zero h q n = absurd (n refl)
bit-all_but_ne (suc w) zero (suc k) h q n =
    omega (arith, pow-suc 2 w, pow-suc 2 k, pow_mono k w (omega arith), one-le-pow k 2)
bit-all_but_ne (suc w) (suc j) zero h q n =
    let e : all_but (suc w) 0 / 2 ≡ 2 ^ w - 1 = omega (arith, pow-suc 2 w, one-le-pow w 2) in
    ap (bit j) e ∙ bit-ones j w (omega arith)
bit-all_but_ne (suc w) (suc j) (suc k) h q n =
    ap (bit j) (all_but_half w k (omega arith))
    ∙ bit-all_but_ne w j k (omega arith) (omega arith) (λ e. n (ap suc e))

pub bit_or_lt : (w a b : ℕ) → a < 2 ^ w → b < 2 ^ w → bit_or a b < 2 ^ w
bit_or_lt zero zero b h q = rw zero-bit_or q
bit_or_lt zero (suc a) b h q = absurd (omega arith)
bit_or_lt (suc w) a b h q = omega (
  arith,
  pow-suc 2 w,
  bit_or_step a b,
  bit_or_lt w (a / 2) (b / 2) (omega (arith, pow-suc 2 w)) (omega (arith, pow-suc 2 w)),
)

bit_and_le_fuel : (n a b : ℕ) → a ≤ n → bit_and a b ≤ a
bit_and_le_fuel n zero b h = omega (arith, zero-bit_and b)
bit_and_le_fuel zero (suc a) b h = absurd (omega arith)
bit_and_le_fuel (suc n) (suc a) b h =
    omega (arith, bit_and_step (suc a) b, bit_and_le_fuel n (suc a / 2) (b / 2) (omega arith))

pub bit_and_le : (a b : ℕ) → bit_and a b ≤ a
bit_and_le a b = bit_and_le_fuel a a b (omega arith)

pub pow_lt : (k w : ℕ) → k < w → 2 ^ k < 2 ^ w
pow_lt k w h = omega (arith, pow-suc 2 k, pow_mono k w h, one-le-pow k 2)
