-- ===== src/Frames/Flip.antt =====
-- The vertical flip of `sgl_read_pixels` (src/server/context.c).
use sharedgl.Prelude.{
  ℕ, zero, suc, ◌+◌, ◌-◌, ◌*◌, ◌/◌, ◌%◌, ◌^◌, ◌≤◌, ◌<◌, ◌≡◌, ◌≢◌, ne_test, ◌⊎◌, inl, inr, refl, sym,
  ap, ◌∙◌, leb, ltb, ◌&&◌, ◌||◌, if◌then◌else◌, arith,
}
use native.Mathlib.Nat.{mul-le-mul_right, suc-mul}
use sharedgl.Frames.{Pixels, swap, flip_row, flip_rows, sgl_read_pixels}

-- The rows at `a` and `b` with `n` columns from `x` on exchanged.
unfoldable mirrored : Pixels → ℕ → ℕ → ℕ → ℕ → Pixels
mirrored p a b x n k =
    if leb (a + x) k && ltb k (a + x + n)
    then p (b + (k - a))
    else if leb (b + x) k && ltb k (b + x + n)
    then p (a + (k - b))
    else p k

mirrored-swap :
    (p : Pixels) (a b x n k : ℕ)
    → a + x + suc n ≤ b
    → mirrored (swap p (a + x) (b + x)) a b (x + 1) n k ≡ mirrored p a b x (suc n) k
unfolding mirrored
mirrored-swap p a b x n k h = ground arith

mirrored-none : (p : Pixels) (a b x k : ℕ) → mirrored p a b x 0 k ≡ p k
unfolding mirrored
mirrored-none p a b x k = ground arith

bottom-eq : (b x : ℕ) → b + x < 2 ^ 32 → (b % 2 ^ 32 + x) % 2 ^ 32 ≡ b + x
bottom-eq b x h = omega arith

-- The rows `y` and `height - y - 1`, which do not overlap.
flip_row-mirrored :
    (mw height y n x : ℕ) (p : Pixels) (k : ℕ)
    → x + n ≤ mw
    → y * mw + mw ≤ (height - y - 1) * mw
    → (height - y - 1) * mw + mw < 2 ^ 32
    → flip_row mw height y n x p k ≡ mirrored p (y * mw) ((height - y - 1) * mw) x n k
unfolding flip_row
flip_row-mirrored mw height y zero x p k l h w =
    sym (mirrored-none p (y * mw) ((height - y - 1) * mw) x k)
flip_row-mirrored mw height y (suc n) x p k l h w =
    let e = bottom-eq ((height - y - 1) * mw) x (omega arith) in
    let q = swap p (y * mw + x) ((height - y - 1) * mw + x) in
    ap (λ j. flip_row mw height y n (x + 1) (swap p (y * mw + x) j) k) e
    ∙ flip_row-mirrored mw height y n (x + 1) q k (omega arith) h w
    ∙ mirrored-swap p (y * mw) ((height - y - 1) * mw) x n k (omega arith)

pub below : (r y mw : ℕ) → r < y → r * mw + mw ≤ y * mw
below r y mw h = omega (arith, mul-le-mul_right {m = suc r} {n = y} mw (omega arith), suc-mul r mw)

-- The row whose pixels row `r` has after the exchange of the rows `y` to `y + n - 1`.
unfoldable mirror_row : ℕ → ℕ → ℕ → ℕ → ℕ
mirror_row height y n r =
    if (leb y r && ltb r (y + n)) || (leb (height - y - n) r && ltb r (height - y))
    then height - 1 - r
    else r

module _ (p : Pixels) (a b mw : ℕ) (apart : a + mw ≤ b) where
  mirrored-top : (x : ℕ) → x < mw → mirrored p a b 0 mw (a + x) ≡ p (b + x)
  unfolding mirrored
  mirrored-top x h = ground arith

  mirrored-bottom : (x : ℕ) → x < mw → mirrored p a b 0 mw (b + x) ≡ p (a + x)
  unfolding mirrored
  mirrored-bottom x h = ground arith

  mirrored-outside :
      (k : ℕ) → (k < a) ⊎ (a + mw ≤ k) × (k < b) ⊎ (b + mw ≤ k) → mirrored p a b 0 mw k ≡ p k
  unfolding mirrored
  mirrored-outside k h = ground arith

-- Where row `r` lies, for the rows `y < z`.
abbrev Place : ℕ → ℕ → ℕ → Type 0
Place r y z = (r ≡ y) ⊎ (r ≡ z) ⊎ (r < y) ⊎ (y < r) × (r < z) ⊎ (z < r)

place : (r y z : ℕ) → Place r y z
place r y z = ground arith

module _ (mw height : ℕ) (fits : height * mw < 2 ^ 32) where
  row_top : (y r : ℕ) → 2 * (y + 1) ≤ height → r ≡ y → height - y - 1 ≡ mirror_row height y 1 r
  unfolding mirror_row
  row_top y r h e = ground arith

  row_bottom : (y r : ℕ) → 2 * (y + 1) ≤ height → r ≡ height - y - 1 → y ≡ mirror_row height y 1 r
  unfolding mirror_row
  row_bottom y r h e = ground arith

  row_outside :
      (y r : ℕ)
      → 2 * (y + 1) ≤ height
      → (r < y) ⊎ (y < r) × (r < height - y - 1) ⊎ (height - y - 1 < r)
      → r ≡ mirror_row height y 1 r
  unfolding mirror_row
  row_outside y r h e = ground arith

  outside :
      (y z r x : ℕ)
      → x < mw
      → (r < y) ⊎ (y < r) × (r < z) ⊎ (z < r)
      → (r * mw + x < y * mw)
        ⊎ (y * mw + mw ≤ r * mw + x) × (r * mw + x < z * mw)
        ⊎ (z * mw + mw ≤ r * mw + x)
  outside y z r x c e = elim e [
    | inl q ↦ inl (omega (arith, below r y mw q))
    | inr (inl q) ↦ inr (inl (omega (arith, below y r mw q.0), omega (arith, below r z mw q.1)))
    | inr (inr q) ↦ inr (inr (omega (arith, below z r mw q)))
  ]

  one_row :
      (p : Pixels) (y r x : ℕ)
      → 2 * (y + 1) ≤ height
      → r < height
      → x < mw
      → mirrored p (y * mw) ((height - y - 1) * mw) 0 mw (r * mw + x)
        ≡ p (mirror_row height y 1 r * mw + x)
  one_row p y r x h q c =
      let z = height - y - 1 in
      let apart = below y z mw (omega arith) in
      elim (place r y z) [
        | inl e ↦
            ap (λ i. mirrored p (y * mw) (z * mw) 0 mw (i * mw + x)) e
            ∙ mirrored-top p (y * mw) (z * mw) mw apart x c
            ∙ ap (λ i. p (i * mw + x)) (row_top y r h e)
        | inr (inl e) ↦
            ap (λ i. mirrored p (y * mw) (z * mw) 0 mw (i * mw + x)) e
            ∙ mirrored-bottom p (y * mw) (z * mw) mw apart x c
            ∙ ap (λ i. p (i * mw + x)) (row_bottom y r h e)
        | inr (inr t) ↦
            mirrored-outside p (y * mw) (z * mw) mw apart (r * mw + x) (outside y z r x c t)
            ∙ ap (λ i. p (i * mw + x)) (row_outside y r h t)
      ]

  mirror_row-mirror_row :
      (y n r : ℕ)
      → 2 * (y + suc n) ≤ height
      → r < height
      → mirror_row height y 1 (mirror_row height (y + 1) n r) ≡ mirror_row height y (suc n) r
  unfolding mirror_row
  mirror_row-mirror_row y n r h q = ground arith

  mirror_row-lt : (y n r : ℕ) → r < height → mirror_row height y n r < height
  unfolding mirror_row
  mirror_row-lt y n r q = ground arith

  mirror_row-none : (y r : ℕ) → mirror_row height y 0 r ≡ r
  unfolding mirror_row
  mirror_row-none y r = ground arith

  bottom_row : (y : ℕ) → y < height → (height - y - 1) * mw + mw < 2 ^ 32
  bottom_row y h = omega (arith, fits, below (height - y - 1) height mw (omega arith))

  flip_rows-get :
      (n y : ℕ) (p : Pixels) (r x : ℕ)
      → 2 * (y + n) ≤ height
      → r < height
      → x < mw
      → flip_rows mw height n y p (r * mw + x) ≡ p (mirror_row height y n r * mw + x)
  unfolding flip_rows
  flip_rows-get zero y p r x h q c = ap (λ i. p (i * mw + x)) (sym (mirror_row-none y r))
  flip_rows-get (suc n) y p r x h q c =
      let r' = mirror_row height (y + 1) n r in
      flip_rows-get n (y + 1) (flip_row mw height y mw 0 p) r x (omega arith) q c
      ∙ flip_row-mirrored mw height y mw 0 p (r' * mw + x) (omega arith)
          (below y (height - y - 1) mw (omega arith)) (bottom_row y (omega arith))
      ∙ one_row p y r' x (omega arith) (mirror_row-lt (y + 1) n r q) c
      ∙ ap (λ i. p (i * mw + x)) (mirror_row-mirror_row y n r h q)

  -- Behind the picture nothing is written.
  flip_rows-behind :
      (n y : ℕ) (p : Pixels) (k : ℕ)
      → 2 * (y + n) ≤ height
      → height * mw ≤ k
      → flip_rows mw height n y p k ≡ p k
  unfolding flip_rows
  flip_rows-behind zero y p k h q = refl
  flip_rows-behind (suc n) y p k h q =
      let apart = below y (height - y - 1) mw (omega arith) in
      flip_rows-behind n (y + 1) (flip_row mw height y mw 0 p) k (omega arith) q
      ∙ flip_row-mirrored mw height y mw 0 p k (omega arith) apart (bottom_row y (omega arith))
      ∙ mirrored-outside p (y * mw) ((height - y - 1) * mw) mw apart k
          (inr (inr (omega (arith, q, below (height - y - 1) height mw (omega arith)))))

-- `out` is the picture `p` upside down: its rows in the opposite order, and nothing behind changed.
pub record UpsideDown (mw height : ℕ) (p out : Pixels) : Type 0 where
  pub rows : (y x : ℕ) → y < height → x < mw → out (y * mw + x) ≡ p ((height - 1 - y) * mw + x)
  pub behind : (k : ℕ) → height * mw ≤ k → out k ≡ p k

whole : (height r : ℕ) → r < height → mirror_row height 0 (height / 2) r ≡ height - 1 - r
unfolding mirror_row
whole height r h = ground arith

-- With `vflip`, what `sgl_read_pixels` hands to the overlay is the picture that was read, turned
-- upside down: its row `y` is the row `height - 1 - y` that was read, of the width that was set, and
-- no pixel behind it is written. The picture has fewer than 2^32 pixels.
pub sgl_read_pixels-UpsideDown :
    (mw height vflip : ℕ) (overlay : Pixels → Pixels) (read : Pixels)
    → height * mw < 2 ^ 32
    → vflip ≢ 0
    → (out : Pixels) × (sgl_read_pixels mw height vflip overlay read ≡ overlay out)
      × UpsideDown mw height read out
unfolding sgl_read_pixels
sgl_read_pixels-UpsideDown mw height vflip overlay read fits v = (
  flip_rows mw height (height / 2) 0 read,
  rw (ne_test vflip 0 v) refl,
  record {
    rows = λ y x h c.
        flip_rows-get mw height fits (height / 2) 0 read y x (omega arith) h c
        ∙ ap (λ i. read (i * mw + x)) (whole height y h);
    behind = λ k q. flip_rows-behind mw height fits (height / 2) 0 read k (omega arith) q;
  },
)
