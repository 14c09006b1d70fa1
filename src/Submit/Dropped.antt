-- ===== src/Submit/Dropped.antt =====
-- What a submission does after the push buffer has overflowed.
use sharedgl.Prelude.{
  ℕ, ◌+◌, ◌-◌, ◌*◌, ◌^◌, List, [], ◌∷◌, ◌++◌, length, length-append, inl, ◌≢◌, ◌≤◌, ◌<◌, ◌≡◌, ◌⊎◌,
  refl, ap, ◌∙◌, true, false, if◌then◌else◌, ◌==◌, ne_test, arith,
}
use sharedgl.Memory.{Memory, clear, store32}
use sharedgl.Layout.{client_slot_size, client_slot_offset, stage_offset, valid_client_id}
use sharedgl.Layout.Reg
use sharedgl.Pb.{
  PushBuffer, pb_push, pb_reset, pb_write, pb_resolve_offset, pb_is_global_offset, pb_can_write,
  in_copy, in_advance, pb_note_overflow,
}
use sharedgl.Submit.{submit_shm, drop_submission, glimpl_submit}
use sharedgl.Pb.Stream.{push_all, push_all-overflow}
use sharedgl.Submit.Delivery.{pb_push-Kept, push_all-Kept, push_all-snoc, valid-range}

-- Client `id` finds zeros where an answer would be; nothing is submitted.
pub record Dropped (id : ℕ) (b b' : PushBuffer) : Type 0 where
  pub empty : b'.in_cur ≡ 0
  pub no_overflow : b'.write_overflowed ≡ false
  pub zeros :
      (i : ℕ)
      → Reg.retval ≤ i
      → (i < Reg.retval + 4) ⊎ (Reg.retval_v ≤ i)
      → i < client_slot_size
      → b'.shared (client_slot_offset id + i) ≡ 0
  pub elsewhere :
      (i : ℕ)
      → i < stage_offset
      → (i < client_slot_offset id) ⊎ (client_slot_offset id + client_slot_size ≤ i)
      → b'.shared i ≡ b.shared i

module _ (id : ℕ) (b : PushBuffer) (v : valid_client_id id ≡ true) (has : b.has_client_slot ≡ true)
    (slot : b.slot_offset ≡ client_slot_offset id) where
  abbrev dropped : Memory
  dropped =
      clear (store32 b.shared (client_slot_offset id + Reg.retval) 0)
        (client_slot_offset id + Reg.retval_v) (client_slot_size - Reg.retval_v)

  drop_submission-shared : (drop_submission b).shared ≡ dropped
  unfolding drop_submission pb_write pb_reset pb_resolve_offset pb_is_global_offset
  drop_submission-shared = rw (has, slot) refl

  drop_submission-Dropped : Dropped id b (drop_submission b)
  drop_submission-Dropped = record {
    empty = unfold drop_submission pb_reset in refl;
    no_overflow = unfold drop_submission pb_reset in refl;
    zeros =
        unfold store32 in
        (λ i lo q hi. rw drop_submission-shared (ground (arith, valid-range id v)));
    elsewhere =
        unfold store32 in (λ i lo q. rw drop_submission-shared (ground (arith, valid-range id v)));
  }

pb_push-overflowed :
    (w : ℕ) (b : PushBuffer) → b.write_overflowed ≡ true → (pb_push w b).write_overflowed ≡ true
unfolding pb_push pb_can_write in_copy in_advance pb_note_overflow
pb_push-overflowed w b h = ground (arith, h)

glimpl_submit-drops :
    (id : ℕ) (b : PushBuffer)
    → (pb_push 0 b).write_overflowed ≡ true
    → id ≢ 0
    → glimpl_submit id b ≡ drop_submission (pb_push 0 b)
unfolding glimpl_submit
glimpl_submit-drops id b h n =
    ap
      (λ t.
        if t
        then (if id == 0 then pb_reset (pb_push 0 b) else drop_submission (pb_push 0 b))
        else submit_shm id (pb_push 0 b))
      h
    ∙ ap (λ t. if t then pb_reset (pb_push 0 b) else drop_submission (pb_push 0 b)) (ne_test id 0 n)

-- After an overflow, `glimpl_submit` drops the stream: the client's buffer is empty again and its
-- overflow mark gone, its slot has zeros for the return value and the values behind it, and no byte
-- before the stage is written outside that slot, so no submission is raised.
pub glimpl_submit-Dropped :
    (id : ℕ) (b : PushBuffer)
    → valid_client_id id ≡ true
    → b.has_client_slot ≡ true
    → b.slot_offset ≡ client_slot_offset id
    → b.write_overflowed ≡ true
    → Dropped id b (glimpl_submit id b)
glimpl_submit-Dropped id b v has slot h =
    let one = pb_push-Kept 0 b in
    let d = drop_submission-Dropped id (pb_push 0 b) v (one.has_slot ∙ has) (one.slot ∙ slot) in
    rw (glimpl_submit-drops id b (pb_push-overflowed 0 b h) (omega (arith, valid-range id v)))
      (record {
        empty = d.empty;
        no_overflow = d.no_overflow;
        zeros = d.zeros;
        elsewhere = λ i lo q. d.elsewhere i lo q ∙ one.registers i lo;
      })

-- Pushes of words that do not fit the buffer together with the closing 0, and then `glimpl_submit`:
-- nothing of the stream is submitted. The client's buffer is empty again and its overflow mark gone,
-- its slot has zeros for the return value and the values behind it, and no byte before the stage is
-- written outside that slot.
pub push_all-Dropped :
    (id : ℕ) (ws : List ℕ) (b : PushBuffer)
    → valid_client_id id ≡ true
    → b.has_client_slot ≡ true
    → b.slot_offset ≡ client_slot_offset id
    → b.in_cur ≤ b.in_capacity
    → b.in_capacity < 2 ^ 63
    → b.in_capacity < b.in_cur + 4 * (length ws + 1)
    → Dropped id b (glimpl_submit id (push_all ws b))
push_all-Dropped id ws b v has slot h c full =
    let over : (pb_push 0 (push_all ws b)).write_overflowed ≡ true =
      rw (← push_all-snoc ws 0 b) (
        push_all-overflow (ws ++ (0 ∷ [])) b h c
          (inl (omega (arith, length-append ws (0 ∷ []))))) in
    let all = push_all-Kept ws b in
    let one = pb_push-Kept 0 (push_all ws b) in
    let d =
      drop_submission-Dropped id (pb_push 0 (push_all ws b)) v (one.has_slot ∙ all.has_slot ∙ has)
        (one.slot ∙ all.slot ∙ slot) in
    rw (glimpl_submit-drops id (push_all ws b) over (omega (arith, valid-range id v))) (record {
      empty = d.empty;
      no_overflow = d.no_overflow;
      zeros = d.zeros;
      elsewhere = λ i lo q. d.elsewhere i lo q ∙ one.registers i lo ∙ all.registers i lo;
    })
