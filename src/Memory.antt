-- ===== src/Memory.antt =====
-- Byte-addressed memory, for the shared mapping and the client's private push buffer.
use sharedgl.Prelude.{
  ℕ, zero, suc, ◌+◌, ◌-◌, ◌*◌, ◌/◌, ◌%◌, ◌^◌, ◌≤◌, ◌<◌, ◌≡◌, refl, sym, ap, ◌∙◌, ◌⊎◌, List, [], ◌∷◌,
  ◌&&◌, leb, ltb, if◌then◌else◌, length, get_or, arith, ◌++◌,
}

-- Offset to byte.
abbrev pub Memory : Type 0
Memory = ℕ → ℕ

-- `memcpy(m + o, bs, length bs)`
abbrev pub overlay : Memory → ℕ → List ℕ → Memory
overlay m o bs i = if leb o i && ltb i (o + length bs) then get_or bs (i - o) 0 else m i

-- `memset(m + o, 0, n)`
abbrev pub clear : Memory → ℕ → ℕ → Memory
clear m o n i = if leb o i && ltb i (o + n) then 0 else m i

-- The `n` bytes from offset `o`.
abbrev pub read_bytes : Memory → ℕ → ℕ → List ℕ
read_bytes m o zero = []
read_bytes m o (suc n) = m o ∷ read_bytes m (o + 1) n

-- A 32-bit word, least significant byte first.
abbrev pub bytes32 : ℕ → List ℕ
bytes32 w = w % 256 ∷ w / 256 % 256 ∷ w / 65536 % 256 ∷ w / 16777216 % 256 ∷ []

abbrev pub bytes64 : ℕ → List ℕ
bytes64 w = bytes32 (w % 2 ^ 32) ++ bytes32 (w / 2 ^ 32)

get_or-suc : (b : ℕ) (bs : List ℕ) (i : ℕ) → get_or (b ∷ bs) (1 + i) 0 ≡ get_or bs (0 + i) 0
get_or-suc b bs i =
    let e : 1 + i ≡ suc i = omega arith in
    let z : 0 + i ≡ i = omega arith in
    ap (λ k. get_or (b ∷ bs) k 0) e ∙ sym (ap (λ k. get_or bs k 0) z)

unfoldable pub read32 : Memory → ℕ → ℕ
read32 m o = m o + 256 * m (o + 1) + 65536 * m (o + 2) + 16777216 * m (o + 3)

unfoldable pub store32 : Memory → ℕ → ℕ → Memory
store32 m o w = overlay m o (bytes32 w)

pub read32-overlay_outside :
    (m : Memory) (o p : ℕ) (bs : List ℕ)
    → (p + 4 ≤ o) ⊎ (o + length bs ≤ p)
    → read32 (overlay m o bs) p ≡ read32 m p
unfolding read32
read32-overlay_outside m o p bs h = ground arith

-- A word that was stored is read back.
pub read32-store32 : (m : Memory) (o w : ℕ) → w < 2 ^ 32 → read32 (store32 m o w) o ≡ w
unfolding read32 store32
read32-store32 m o w h = ground arith

-- A longer word is cut to 32 bits.
pub read32-store32_mod : (m : Memory) (o w : ℕ) → read32 (store32 m o w) o ≡ w % 2 ^ 32
unfolding read32 store32
read32-store32_mod m o w = ground arith

pub read32-store32_ne :
    (m : Memory) (o p w : ℕ) → (p + 4 ≤ o) ⊎ (o + 4 ≤ p) → read32 (store32 m o w) p ≡ read32 m p
unfolding store32
read32-store32_ne m o p w h = read32-overlay_outside m o p (bytes32 w) h

-- A word is its four bytes.
pub read32-get :
    (m k : Memory) (o p : ℕ) → ((i : ℕ) → i < 4 → m (o + i) ≡ k (p + i)) → read32 m o ≡ read32 k p
unfolding read32
read32-get m k o p h =
    let z : m o ≡ k p = ap m (omega arith) ∙ h 0 (omega arith) ∙ ap k (omega arith) in
    omega (arith, z, h 1 (omega arith), h 2 (omega arith), h 3 (omega arith))

pub read_bytes-shift :
    (m k : Memory) (o p n : ℕ)
    → ((i : ℕ) → i < n → m (o + i) ≡ k (p + i))
    → read_bytes m o n ≡ read_bytes k p n
read_bytes-shift m k o p zero h = refl
read_bytes-shift m k o p (suc n) h =
    let e : m o ≡ k p = ap m (omega arith) ∙ h 0 (omega arith) ∙ ap k (omega arith) in
    let r =
      read_bytes-shift m k (o + 1) (p + 1) n
        (λ i q. ap m (omega arith) ∙ h (i + 1) (omega arith) ∙ ap k (omega arith)) in
    rw (e, r)

-- A list is what is read where it was copied.
pub read_bytes-list : (bs : List ℕ) → read_bytes (λ i. get_or bs i 0) 0 (length bs) ≡ bs
read_bytes-list [] = refl
read_bytes-list (b ∷ bs) =
    ap (λ t. b ∷ t)
      (read_bytes-shift (λ i. get_or (b ∷ bs) i 0) (λ i. get_or bs i 0) 1 0 (length bs)
          (λ i q. get_or-suc b bs i)
        ∙ read_bytes-list bs)

pub read_bytes-overlay :
    (m : Memory) (o : ℕ) (bs : List ℕ) → read_bytes (overlay m o bs) o (length bs) ≡ bs
read_bytes-overlay m o bs =
    read_bytes-shift (overlay m o bs) (λ i. get_or bs i 0) o 0 (length bs) inside
    ∙ read_bytes-list bs
  where
    inside : (i : ℕ) → i < length bs → overlay m o bs (o + i) ≡ get_or bs (0 + i) 0
    inside i q =
        let e : o + i - o ≡ 0 + i = omega arith in ground (arith, ap (λ k. get_or bs k 0) e)
