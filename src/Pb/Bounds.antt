-- ===== src/Pb/Bounds.antt =====
-- No writer of src/client/pb.c leaves the push buffer.
use sharedgl.Prelude.{
  ℕ, ◌+◌, ◌%◌, ◌^◌, ◌≤◌, ◌<◌, ◌≡◌, ◌⊎◌, refl, ◌∙◌, Bool-cases, inl, inr, List, [], ◌∷◌, length,
  if◌then◌else◌, ◌-◌, arith,
}
use sharedgl.Memory.{bytes64}
use sharedgl.Layout.{stage_offset}
use sharedgl.Pb.{
  PushBuffer, pb_can_write, pb_note_overflow, in_copy, in_advance, pb_reset, pb_push, pb_push64,
  pb_pushf, pb_memcpy, pb_memcpy_unaligned, align_to_4, pb_realign,
}

-- The buffer starts at a page, and its capacity comes from a positive `int`.
pub record IsValid (b : PushBuffer) : Type 0 where
  pub inside : b.in_cur ≤ b.in_capacity
  pub small : b.in_capacity < 2 ^ 32
  pub aligned : b.in_base % 4 ≡ 0
  pub low : b.in_base < 2 ^ 63

-- A call of a writer, with its argument.
pub data Call : Type 0 where
  push : ℕ → Call
  push64 : ℕ → Call
  pushf : ℕ → Call
  memcpy : List ℕ → Call
  memcpy_unaligned : List ℕ → Call
  realign : Call
  reset : Call

unfoldable pub call : Call → PushBuffer → PushBuffer
call (push c) b = pb_push c b
call (push64 c) b = pb_push64 c b
call (pushf c) b = pb_pushf c b
call (memcpy src) b = pb_memcpy src b
call (memcpy_unaligned src) b = pb_memcpy_unaligned src b
call realign b = pb_realign b
call reset b = pb_reset b

-- What is copied has a length that an object of C can have.
abbrev pub IsSized : Call → Type 0
IsSized (memcpy src) = length src < 2 ^ 63
IsSized (memcpy_unaligned src) = length src < 2 ^ 63
IsSized _ = Unit

abbrev pub AllSized : List Call → Type 0
AllSized [] = Unit
AllSized (c ∷ cs) = IsSized c × AllSized cs

unfoldable pub calls : List Call → PushBuffer → PushBuffer
calls [] b = b
calls (c ∷ cs) b = calls cs (call c b)

-- What a call leaves alone, and what it keeps true.
pub record Confined (b b' : PushBuffer) : Type 0 where
  pub valid : IsValid b'
  pub capacity : b'.in_capacity ≡ b.in_capacity
  pub direct : b'.using_direct_access ≡ b.using_direct_access
  pub private_kept : (i : ℕ) → b.in_capacity ≤ i → b'.private i ≡ b.private i
  pub shared_kept :
      (i : ℕ) → (i < stage_offset) ⊎ (stage_offset + b.in_capacity ≤ i) → b'.shared i ≡ b.shared i

module _ {b : PushBuffer} (v : IsValid b) where
  write-Confined :
      (src : List ℕ) (n m : ℕ)
      → length src ≤ n
      → n ≡ m
      → b.in_cur + n ≤ b.in_capacity
      → Confined b (in_advance (in_copy b src) m)
  unfolding in_advance in_copy
  write-Confined src n m h e q = record {
    valid = record {
      inside = ground arith;
      small = ground arith;
      aligned = ground arith;
      low = ground arith;
    };
    capacity = ground arith;
    direct = ground arith;
    private_kept = λ i p. ground arith;
    shared_kept = λ i p. ground arith;
  }

  stay-Confined : Confined b (pb_note_overflow b)
  unfolding pb_note_overflow
  stay-Confined = record {
    valid = record { inside = v.inside; small = v.small; aligned = v.aligned; low = v.low };
    capacity = refl;
    direct = refl;
    private_kept = λ i p. refl;
    shared_kept = λ i p. refl;
  }

  guarded-Confined :
      (len : ℕ) {b' : PushBuffer}
      → len ≤ 2 ^ 63 + 8
      → (b.in_cur + len ≤ b.in_capacity → Confined b b')
      → Confined b (if pb_can_write b len then b' else pb_note_overflow b)
  unfolding pb_can_write
  guarded-Confined len h k = elim (Bool-cases (pb_can_write b len)) [
    | inl fits ↦ rw fits (k (ground arith))
    | inr full ↦ rw full stay-Confined
  ]

  reset-Confined : Confined b (pb_reset b)
  unfolding pb_reset
  reset-Confined = record {
    valid = record { inside = omega arith; small = v.small; aligned = v.aligned; low = v.low };
    capacity = refl;
    direct = refl;
    private_kept = λ i p. refl;
    shared_kept = λ i p. refl;
  }

  -- The padding is at most three bytes, so the cursor stays inside where the guard lets it move.
  realign-Confined : Confined b (pb_realign b)
  unfolding pb_realign align_to_4
  realign-Confined =
      guarded-Confined (align_to_4 (b.in_base + b.in_cur) - (b.in_base + b.in_cur)) (omega arith)
        (λ q. record {
          valid = record {
            inside = omega arith;
            small = v.small;
            aligned = v.aligned;
            low = v.low;
          };
          capacity = refl;
          direct = refl;
          private_kept = λ i p. refl;
          shared_kept = λ i p. refl;
        })

  call-Confined : (c : Call) → IsSized c → Confined b (call c b)
  unfolding call pb_push pb_push64 pb_pushf pb_memcpy pb_memcpy_unaligned
  call-Confined (push c) h =
      guarded-Confined 4 (omega arith) (λ q. write-Confined _ 4 4 (omega arith) refl q)
  call-Confined (push64 c) h =
      guarded-Confined 8 (omega arith) (λ q. write-Confined (bytes64 c) 8 8 (omega arith) refl q)
  call-Confined (pushf c) h =
      guarded-Confined 4 (omega arith) (λ q. write-Confined _ 4 4 (omega arith) refl q)
  call-Confined (memcpy src) h =
      guarded-Confined _ (omega arith) (λ q. write-Confined src _ _ (omega arith) refl q)
  call-Confined (memcpy_unaligned src) h =
      guarded-Confined _ (omega arith) (λ q. write-Confined src _ _ (omega arith) refl q)
  call-Confined realign h = realign-Confined
  call-Confined reset h = reset-Confined

Confined-trans : {a b c : PushBuffer} → Confined a b → Confined b c → Confined a c
Confined-trans {a} {b} {c} f g = record {
  valid = g.valid;
  capacity = g.capacity ∙ f.capacity;
  direct = g.direct ∙ f.direct;
  private_kept = λ i p. g.private_kept i (omega (arith, f.capacity)) ∙ f.private_kept i p;
  shared_kept = λ i p. g.shared_kept i (omega (arith, f.capacity)) ∙ f.shared_kept i p;
}

-- Whatever calls are made, in whatever order: the cursor stays inside the buffer, the capacity
-- stays, no private byte from the capacity on is written, and no byte of the shared mapping
-- outside the stage's first `in_capacity` bytes is written.
pub calls-Confined :
    {b : PushBuffer} → IsValid b → (cs : List Call) → AllSized cs → Confined b (calls cs b)
unfolding calls
calls-Confined {b} v [] h = record {
  valid = v;
  capacity = refl;
  direct = refl;
  private_kept = λ i p. refl;
  shared_kept = λ i p. refl;
}
calls-Confined {b} v (c ∷ cs) h =
    let f = call-Confined v c h.0 in Confined-trans f (calls-Confined {b = call c b} f.valid cs h.1)
