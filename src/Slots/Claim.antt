-- ===== src/Slots/Claim.antt =====
-- Claiming a slot takes the lowest free one; releasing a slot frees that one and no other.
use Prim.Native.Nat.{bit_and, bit_or}
use sharedgl.Prelude.{
  ℕ, zero, suc, ◌+◌, ◌-◌, ◌*◌, ◌^◌, ◌≤◌, ◌<◌, ◌≡◌, ◌≢◌, ◌⊎◌, inl, inr, refl, ap, ◌∙◌, arith, ==_iff,
  ne_test, true,
}
use sharedgl.Prelude.Bits.{
  all_but, bit, bit_lt, bit_and-bit, bit-bit_and, bit-bit_or, bit-pow_self, bit-pow_ne,
  bit-all_but_self, bit-all_but_ne, bit_or_lt, bit_and_le, pow_lt,
}
use sharedgl.Memory.{Memory, clear, read32, store32, read32-store32, read32-store32_ne}
use native.Mathlib.Decide.{dec_lt}
use native.Mathlib.Nat.{one-le-pow}
use sharedgl.Layout.{client_slot_size, client_slot_offset, valid_client_id}
use sharedgl.Layout.Reg
use sharedgl.Pb.{PushBuffer, pb_global_read, pb_global_write}
use sharedgl.Slots.{
  shm_slot_bit, claim_from, slot_rounds, shm_claim_slot, sgl_spin_lock, sgl_spin_unlock,
  sgl_release_client_slot,
}

-- Memory holds bytes.
abbrev pub IsBytes : Memory → Type 0
IsBytes m = (i : ℕ) → m i < 256

-- 1 if slot `id` is taken, else 0.
abbrev pub taken : Memory → ℕ → ℕ
taken m id = bit (id - 1) (read32 m Reg.shm_slot_mask)

-- A successful claim of slot `id` out of `n` slots, from `b` to `b'`.
pub record Claimed (n : ℕ) (b b' : PushBuffer) (id : ℕ) : Type 0 where
  pub in_range : (1 ≤ id) × (id ≤ n)
  pub was_free : taken b.shared id ≡ 0
  pub lowest : (k : ℕ) → 1 ≤ k → k < id → taken b.shared k ≡ 1
  pub now_taken : taken b'.shared id ≡ 1
  pub others : (k : ℕ) → 1 ≤ k → k ≢ id → taken b'.shared k ≡ taken b.shared k
  pub elsewhere :
      (i : ℕ) → (i < Reg.shm_slot_mask) ⊎ (Reg.shm_slot_mask + 4 ≤ i) → b'.shared i ≡ b.shared i

-- No slot is free: nothing is written.
pub record Full (n : ℕ) (b b' : PushBuffer) : Type 0 where
  pub all_taken : (k : ℕ) → 1 ≤ k → k ≤ n → taken b.shared k ≡ 1
  pub unchanged : b' ≡ b

slot_rounds-le : (w : ℕ) → slot_rounds w ≤ 32
unfolding slot_rounds
slot_rounds-le w = ground arith

mask-lt : (m : Memory) → IsBytes m → read32 m Reg.shm_slot_mask < 2 ^ 32
unfolding read32
mask-lt m h = omega (
  arith,
  h Reg.shm_slot_mask,
  h (Reg.shm_slot_mask + 1),
  h (Reg.shm_slot_mask + 2),
  h (Reg.shm_slot_mask + 3),
)

taking :
    (n : ℕ) (b : PushBuffer) (id : ℕ)
    → IsBytes b.shared
    → n ≤ 32
    → 1 ≤ id
    → id ≤ n
    → taken b.shared id ≡ 0
    → ((k : ℕ) → 1 ≤ k → k < id → taken b.shared k ≡ 1)
    → Claimed n b
        (pb_global_write b Reg.shm_slot_mask
          (bit_or (pb_global_read b Reg.shm_slot_mask) (shm_slot_bit id)))
        id
unfolding pb_global_write pb_global_read
taking n b id bytes small lo hi free low = record {
  in_range = (lo, hi);
  was_free = free;
  lowest = low;
  now_taken =
      ap (bit (id - 1)) stored
      ∙ omega (arith, bit-bit_or (id - 1) mask (2 ^ (id - 1)), bit-pow_self (id - 1));
  others = λ k h q.
      ap (bit (k - 1)) stored
      ∙ omega (
        arith,
        bit-bit_or (k - 1) mask (2 ^ (id - 1)),
        bit-pow_ne (k - 1) (id - 1) (omega arith),
      );
  elsewhere = unfold store32 in (λ i q. ground arith);
}
  where
    mask : ℕ
    mask = read32 b.shared Reg.shm_slot_mask

    stored :
        read32 (store32 b.shared Reg.shm_slot_mask (bit_or mask (2 ^ (id - 1)))) Reg.shm_slot_mask
        ≡ bit_or mask (2 ^ (id - 1))
    stored = read32-store32 b.shared Reg.shm_slot_mask (bit_or mask (2 ^ (id - 1))) (
        bit_or_lt 32 mask (2 ^ (id - 1)) (mask-lt b.shared bytes)
          (pow_lt (id - 1) 32 (omega arith)))

zero_or_one : (t : ℕ) → t < 2 → (t ≡ 0) ⊎ (t ≡ 1)
zero_or_one t h = ground arith

-- The code's test of a slot's bit.
free_test :
    (m : Memory) (id : ℕ)
    → ((bit_and (read32 m Reg.shm_slot_mask) (shm_slot_bit id) ≡ 0) × (taken m id ≡ 0))
      ⊎ ((bit_and (read32 m Reg.shm_slot_mask) (shm_slot_bit id) ≢ 0) × (taken m id ≡ 1))
free_test m id = elim (zero_or_one (taken m id) (bit_lt (id - 1) (read32 m Reg.shm_slot_mask))) [
  | inl e ↦ inl (
    bit_and-bit (id - 1) (read32 m Reg.shm_slot_mask)
        ∙ ap (λ (t : ℕ). t * 2 ^ (id - 1)) e
        ∙ omega arith,
    e,
  )
  | inr e ↦ inr (
    omega (
      arith,
      bit_and-bit (id - 1) (read32 m Reg.shm_slot_mask),
      ap (λ (t : ℕ). t * 2 ^ (id - 1)) e,
      one-le-pow (id - 1) 2,
    ),
    e,
  )
]

-- The outcome of a claim out of `n` slots.
abbrev pub Outcome : ℕ → PushBuffer → ℕ × PushBuffer → Type 0
Outcome n b r = ((r.0 ≡ 0) × Full n b r.1) ⊎ Claimed n b r.1 r.0

extend :
    (m : Memory) (id : ℕ)
    → ((k : ℕ) → 1 ≤ k → k < id → taken m k ≡ 1)
    → taken m id ≡ 1
    → (k : ℕ) → 1 ≤ k
    → k < id + 1
    → taken m k ≡ 1
extend m id low here k h q = elim (dec_lt k id) [
  | yes p ↦ low k h p
  | no p ↦ let e : k ≡ id = omega arith in rw e here
]

claim_from-Outcome :
    (n : ℕ) (slot total : ℕ) (b : PushBuffer)
    → IsBytes b.shared
    → total ≤ 32
    → 1 ≤ slot
    → slot + n ≡ total + 1
    → ((k : ℕ) → 1 ≤ k → k < slot → taken b.shared k ≡ 1)
    → Outcome total b (claim_from n slot (pb_global_read b Reg.shm_slot_mask) b)
unfolding claim_from pb_global_read
claim_from-Outcome zero slot total b bytes small lo e low =
    inl (refl, record { all_taken = λ k h q. low k h (omega arith); unchanged = refl })
claim_from-Outcome (suc n) slot total b bytes small lo e low = elim (free_test b.shared slot) [
  | inl (z, free) ↦
      rw ((==_iff (bit_and (read32 b.shared Reg.shm_slot_mask) (shm_slot_bit slot)) 0).1 z)
        (inr (taking total b slot bytes small lo (omega arith) free low))
  | inr (z, here) ↦
      rw (ne_test (bit_and (read32 b.shared Reg.shm_slot_mask) (shm_slot_bit slot)) 0 z) (
        claim_from-Outcome n (slot + 1) total b bytes small (omega arith) (omega arith)
          (extend b.shared slot low here))
]

-- `shm_claim_slot` takes the lowest free slot of the `max_slots` (32 at most) that the server
-- allows: it was free, all lower ones were taken, and only its mask bit changes in the shared
-- memory. It returns 0 exactly when all are taken, and then writes nothing.
pub shm_claim_slot-Outcome :
    (b : PushBuffer)
    → IsBytes b.shared
    → Outcome (slot_rounds (pb_global_read b Reg.max_clients)) b (shm_claim_slot b)
unfolding shm_claim_slot
shm_claim_slot-Outcome b bytes =
    claim_from-Outcome (slot_rounds (pb_global_read b Reg.max_clients)) 1
      (slot_rounds (pb_global_read b Reg.max_clients)) b bytes (slot_rounds-le _) (omega arith)
      (omega arith) (λ k h q. absurd (omega arith))

-- What a release does to the shared memory.
pub record Released (m m' : Memory) (id : ℕ) : Type 0 where
  pub now_free : taken m' id ≡ 0
  pub others : (k : ℕ) → 1 ≤ k → k ≤ 32 → k ≢ id → taken m' k ≡ taken m k
  pub cleared : (i : ℕ) → i < client_slot_size → m' (client_slot_offset id + i) ≡ 0
  pub unlocked : read32 m' Reg.lock ≡ 0
  pub elsewhere :
      (i : ℕ)
      → (i < Reg.shm_slot_mask) ⊎ (Reg.lock + 4 ≤ i)
      → (i < client_slot_offset id) ⊎ (client_slot_offset id + client_slot_size ≤ i)
      → m' i ≡ m i

read32-clear_outside : (m : Memory) (o n p : ℕ) → p + 4 ≤ o → read32 (clear m o n) p ≡ read32 m p
unfolding read32
read32-clear_outside m o n p h = ground arith

module _ (m : Memory) (id : ℕ) (v : valid_client_id id ≡ true) where
  valid-range : (1 ≤ id) × (id ≤ 16)
  unfolding valid_client_id
  valid-range = ground arith

  abbrev wiped : Memory
  wiped = clear (sgl_spin_lock m) (client_slot_offset id) client_slot_size

  released-eq :
      sgl_release_client_slot m id
      ≡ sgl_spin_unlock (
          store32 wiped Reg.shm_slot_mask
            (bit_and (read32 wiped Reg.shm_slot_mask) (all_but 32 (id - 1))))
  unfolding sgl_release_client_slot
  released-eq = rw v

  wiped-mask : read32 wiped Reg.shm_slot_mask ≡ read32 m Reg.shm_slot_mask
  unfolding sgl_spin_lock
  wiped-mask =
      read32-clear_outside (store32 m Reg.lock 1) (client_slot_offset id) client_slot_size
        Reg.shm_slot_mask (omega arith)
      ∙ read32-store32_ne m Reg.lock Reg.shm_slot_mask 1 (inl (omega arith))

  released-mask :
      IsBytes m
      → read32 (sgl_release_client_slot m id) Reg.shm_slot_mask
        ≡ bit_and (read32 m Reg.shm_slot_mask) (all_but 32 (id - 1))
  unfolding sgl_spin_unlock
  released-mask bytes =
      rw
        (
          released-eq,
          wiped-mask,
          read32-store32_ne
              (store32 wiped Reg.shm_slot_mask
                (bit_and (read32 m Reg.shm_slot_mask) (all_but 32 (id - 1))))
              Reg.lock Reg.shm_slot_mask 0 (inl (omega arith)),
        )
        (read32-store32 wiped Reg.shm_slot_mask
          (bit_and (read32 m Reg.shm_slot_mask) (all_but 32 (id - 1)))
          (omega (
            arith,
            bit_and_le (read32 m Reg.shm_slot_mask) (all_but 32 (id - 1)),
            mask-lt m bytes,
          )))

  -- Releasing a valid id frees its slot and no other, empties its page, gives the lock back, and
  -- leaves every byte outside the page, the mask and the lock as it was.
  pub sgl_release_client_slot-Released : IsBytes m → Released m (sgl_release_client_slot m id) id
  sgl_release_client_slot-Released bytes = record {
    now_free =
        ap (bit (id - 1)) (released-mask bytes)
        ∙ omega (
          arith,
          bit-bit_and (id - 1) (read32 m Reg.shm_slot_mask) (all_but 32 (id - 1)),
          bit-all_but_self 32 (id - 1) (omega (arith, valid-range)),
        );
    others = λ k h q n.
        ap (bit (k - 1)) (released-mask bytes)
        ∙ omega (
          arith,
          bit-bit_and (k - 1) (read32 m Reg.shm_slot_mask) (all_but 32 (id - 1)),
          bit-all_but_ne 32 (k - 1) (id - 1) (omega arith) (omega (arith, valid-range))
              (omega (arith, valid-range)),
          bit_lt (k - 1) (read32 m Reg.shm_slot_mask),
        );
    cleared =
        unfold sgl_spin_unlock store32 in (λ i h. rw released-eq (ground (arith, valid-range)));
    unlocked = unfold sgl_spin_unlock in rw released-eq (read32-store32 _ Reg.lock 0 (omega arith));
    elsewhere =
        unfold sgl_spin_unlock sgl_spin_lock store32 in
        (λ i h q. rw released-eq (ground (arith, valid-range)));
  }
