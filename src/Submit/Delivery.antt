-- ===== src/Submit/Delivery.antt =====
-- What a client's submission leaves in the shared memory.
use sharedgl.Prelude.{
  ℕ, zero, suc, ◌+◌, ◌-◌, ◌*◌, ◌%◌, ◌^◌, ◌≤◌, ◌<◌, ◌≡◌, ◌⊎◌, inr, refl, ap, ◌∙◌, true, false, List,
  [], ◌∷◌, ◌++◌, length, ltb, arith, length-append,
}
use sharedgl.Memory.{Memory, read32-get, read32, store32, read32-store32, read32-store32_ne}
use sharedgl.Layout.{client_slot_offset, command_start, stage_offset, valid_client_id}
use sharedgl.Layout.Reg
use sharedgl.Pb.{
  PushBuffer, int_to_size, pb_push, pb_write, pb_global_read, pb_global_write, pb_resolve_offset,
  pb_is_global_offset, pb_size, pb_copy_to_shared, pb_can_write, in_copy, in_advance,
  pb_note_overflow,
}
use sharedgl.Pb.Stream.{
  in_mem, words_at, push_all, AllWords, Streamed, push_all-Streamed, pb_copy_to_shared-get,
}
use sharedgl.Slots.{sgl_spin_lock, sgl_spin_unlock}
use sharedgl.Submit.{submit_shm, glimpl_submit, slot_word}

-- The last word is pushed by `glimpl_submit`.
pub push_all-snoc :
    (ws : List ℕ) (w : ℕ) (b : PushBuffer) → push_all (ws ++ (w ∷ [])) b ≡ pb_push w (push_all ws b)
unfolding push_all
push_all-snoc [] w b = refl
push_all-snoc (v ∷ ws) w b = push_all-snoc ws w (pb_push v b)

pub AllWords-snoc : (ws : List ℕ) → AllWords ws → AllWords (ws ++ (0 ∷ []))
AllWords-snoc [] h = (omega arith, tt)
AllWords-snoc (w ∷ ws) h = (h.0, AllWords-snoc ws h.1)

-- What the writers leave alone.
pub record Kept (b b' : PushBuffer) : Type 0 where
  pub registers : (i : ℕ) → i < stage_offset → b'.shared i ≡ b.shared i
  pub has_slot : b'.has_client_slot ≡ b.has_client_slot
  pub slot : b'.slot_offset ≡ b.slot_offset

pub pb_push-Kept : (w : ℕ) (b : PushBuffer) → Kept b (pb_push w b)
unfolding pb_push pb_can_write in_copy in_advance pb_note_overflow
pb_push-Kept w b = record {
  registers = λ i h. ground arith;
  has_slot = ground arith;
  slot = ground arith;
}

pub push_all-Kept : (ws : List ℕ) (b : PushBuffer) → Kept b (push_all ws b)
unfolding push_all
push_all-Kept [] b = record { registers = λ i h. refl; has_slot = refl; slot = refl }
push_all-Kept (w ∷ ws) b =
    let one = pb_push-Kept w b in
    let rest = push_all-Kept ws (pb_push w b) in
    record {
      registers = λ i h. rest.registers i h ∙ one.registers i h;
      has_slot = rest.has_slot ∙ one.has_slot;
      slot = rest.slot ∙ one.slot;
    }

-- The submission of client `id` in the shared memory `m'`, which was `m`: `n` bytes of stream.
pub record Submitted (m m' : Memory) (id n : ℕ) : Type 0 where
  pub raised : read32 m' Reg.submit ≡ 1
  pub sender : read32 m' Reg.stage_client_id ≡ id
  pub size : read32 m' Reg.stage_size ≡ n
  pub waiting : slot_word m' id Reg.submit ≡ 1
  pub unlocked : read32 m' Reg.lock ≡ 0
  -- The other slots, and all of this one but its SUBMIT flag, are as they were.
  pub slots :
      (i : ℕ)
      → command_start ≤ i
      → i < stage_offset
      → (i < client_slot_offset id) ⊎ (client_slot_offset id + 4 ≤ i)
      → m' i ≡ m i

pub valid-range : (id : ℕ) → valid_client_id id ≡ true → (1 ≤ id) × (id ≤ 16)
unfolding valid_client_id
valid-range id v = ground arith

module _ (id : ℕ) (b : PushBuffer) (v : valid_client_id id ≡ true) (has : b.has_client_slot ≡ true)
    (slot : b.slot_offset ≡ client_slot_offset id) (ok : b.write_overflowed ≡ false)
    (fits : b.in_cur ≤ int_to_size (pb_global_read b Reg.fifo_size))
    (small : b.in_cur < 2 ^ 31) where
  abbrev first : Memory
  first = store32 (store32 b.shared Reg.lock 1) (client_slot_offset id + Reg.submit) 1

  abbrev copied : Memory
  copied = (pb_copy_to_shared (record b { shared = first })).shared

  abbrev last : Memory
  last =
      store32
        (store32
          (store32 (store32 copied Reg.stage_client_id id) Reg.stage_size (b.in_cur % 2 ^ 32))
          Reg.submit 1)
        Reg.lock 0

  resolved : pb_resolve_offset b Reg.submit ≡ client_slot_offset id + Reg.submit
  unfolding pb_resolve_offset pb_is_global_offset
  resolved = ground arith

  roomy : ltb (int_to_size (pb_global_read b Reg.fifo_size)) b.in_cur ≡ false
  roomy = ground arith

  submit_shm-shared : (submit_shm id b).shared ≡ last
  unfolding submit_shm pb_write pb_global_write pb_size sgl_spin_lock sgl_spin_unlock
      pb_resolve_offset pb_is_global_offset
  submit_shm-shared = rw (roomy, has, slot) refl

  copied-get : (i : ℕ) → (i < stage_offset) → copied i ≡ first i
  copied-get i h = ground (arith, pb_copy_to_shared-get (record b { shared = first }) i)

  copied-stream : (i : ℕ) → i < b.in_cur → copied (stage_offset + i) ≡ in_mem b i
  unfolding store32
  copied-stream i h =
      let e : stage_offset + i - stage_offset ≡ i = omega arith in
      ground (
        arith,
        ok,
        valid-range id v,
        ap b.private e,
        pb_copy_to_shared-get (record b { shared = first }) (stage_offset + i),
      )

  slot-waiting : read32 last (client_slot_offset id + Reg.submit) ≡ 1
  slot-waiting =
      read32-store32_ne _ Reg.lock _ 0 (inr (omega arith))
      ∙ read32-store32_ne _ Reg.submit _ 1 (inr (omega arith))
      ∙ read32-store32_ne _ Reg.stage_size _ (b.in_cur % 2 ^ 32) (inr (omega arith))
      ∙ read32-store32_ne copied Reg.stage_client_id _ id (inr (omega arith))
      ∙ read32-get copied first _ _ (λ i h. copied-get _ (omega (arith, valid-range id v)))
      ∙ read32-store32 (store32 b.shared Reg.lock 1) (client_slot_offset id + Reg.submit) 1
          (omega arith)

  pub submit_shm-Submitted : Submitted b.shared (submit_shm id b).shared id b.in_cur
  unfolding store32 read32
  submit_shm-Submitted = rw submit_shm-shared (record {
    raised = ground arith;
    sender = ground (arith, valid-range id v);
    size = ground arith;
    waiting = slot-waiting;
    unlocked = ground arith;
    slots = λ i lo hi q. ground (arith, copied-get i hi);
  })

  pub submit_shm-stream :
      (i : ℕ) → i < b.in_cur → (submit_shm id b).shared (stage_offset + i) ≡ in_mem b i
  unfolding store32
  submit_shm-stream i h = rw submit_shm-shared (ground (arith, copied-stream i h))

-- A client that may submit: it owns slot `id`, its buffer is empty and as large as the stage.
pub record IsReady (id : ℕ) (b : PushBuffer) : Type 0 where
  pub valid : valid_client_id id ≡ true
  pub has_slot : b.has_client_slot ≡ true
  pub slot : b.slot_offset ≡ client_slot_offset id
  pub empty : b.in_cur ≡ 0
  pub no_overflow : b.write_overflowed ≡ false
  pub capacity : b.in_capacity ≡ int_to_size (read32 b.shared Reg.fifo_size)
  pub small : b.in_capacity < 2 ^ 31

pub words_at-same :
    (n : ℕ) (m k : Memory) (o p : ℕ)
    → ((i : ℕ) → i < 4 * n → m (o + i) ≡ k (p + i))
    → words_at m o n ≡ words_at k p n
words_at-same zero m k o p h = refl
words_at-same (suc n) m k o p h =
    let e : read32 m o ≡ read32 k p = read32-get m k o p (λ i q. h i (omega arith)) in
    let r = words_at-same n m k (o + 4) (p + 4) (λ i q.
      let a : o + 4 + i ≡ o + (4 + i) = omega arith in
      let c : p + (4 + i) ≡ p + 4 + i = omega arith in ap m a ∙ h (4 + i) (omega arith) ∙ ap k c) in
    rw (e, r)

-- A stream of words pushed by a ready client and submitted.
pub record Delivered (m m' : Memory) (id : ℕ) (ws : List ℕ) : Type 0 where
  pub words : words_at m' stage_offset (length ws + 1) ≡ ws ++ (0 ∷ [])
  pub registers : Submitted m m' id (4 * (length ws + 1))

glimpl_submit-eq :
    (id : ℕ) (b : PushBuffer)
    → (pb_push 0 b).write_overflowed ≡ false
    → glimpl_submit id b ≡ submit_shm id (pb_push 0 b)
unfolding glimpl_submit
glimpl_submit-eq id b h = rw h refl

module _ (id : ℕ) (ws : List ℕ) (b : PushBuffer) (r : IsReady id b) (h : AllWords ws)
    (room : 4 * (length ws + 1) ≤ b.in_capacity) where
  abbrev ended : PushBuffer
  ended = pb_push 0 (push_all ws b)

  ended-Streamed : Streamed b ended (ws ++ (0 ∷ []))
  ended-Streamed = rw (← push_all-snoc ws 0 b) (
      push_all-Streamed (ws ++ (0 ∷ [])) b (AllWords-snoc ws h) (omega (arith, r.small))
        (omega (arith, r.empty, length-append ws (0 ∷ []))))

  ended-Kept : Kept b ended
  ended-Kept = rw (← push_all-snoc ws 0 b) (push_all-Kept (ws ++ (0 ∷ [])) b)

  ended-size : ended.in_cur ≡ 4 * (length ws + 1)
  ended-size = omega (arith, r.empty, ended-Streamed.cursor, length-append ws (0 ∷ []))

  ended-fifo : pb_global_read ended Reg.fifo_size ≡ read32 b.shared Reg.fifo_size
  unfolding pb_global_read
  ended-fifo = read32-get ended.shared b.shared _ _ (λ i q. ended-Kept.registers _ (omega arith))

  ended-ok : ended.write_overflowed ≡ false
  ended-ok = ended-Streamed.flag ∙ r.no_overflow

  ended-slot : ended.slot_offset ≡ client_slot_offset id
  ended-slot = ended-Kept.slot ∙ r.slot

  ended-has : ended.has_client_slot ≡ true
  ended-has = ended-Kept.has_slot ∙ r.has_slot

  ended-fits : ended.in_cur ≤ int_to_size (pb_global_read ended Reg.fifo_size)
  ended-fits = omega (arith, ended-size, r.capacity, ap int_to_size ended-fifo)

  ended-small : ended.in_cur < 2 ^ 31
  ended-small = omega (arith, ended-size, r.small)

  ended-words : words_at (submit_shm id ended).shared stage_offset (length ws + 1) ≡ ws ++ (0 ∷ [])
  ended-words =
      words_at-same (length ws + 1) (submit_shm id ended).shared (in_mem ended) stage_offset
        b.in_cur
        (λ i q.
          submit_shm-stream id ended r.valid ended-has ended-slot ended-ok ended-fits ended-small i
            (omega (arith, ended-size))
          ∙ ap (in_mem ended) (omega (arith, r.empty)))
      ∙ ap (words_at (in_mem ended) b.in_cur) (omega (arith, length-append ws (0 ∷ [])))
      ∙ ended-Streamed.words

  ended-Submitted : Submitted b.shared (submit_shm id ended).shared id (4 * (length ws + 1))
  ended-Submitted =
      let s =
        submit_shm-Submitted id ended r.valid ended-has ended-slot ended-ok ended-fits
          ended-small in
      record {
        raised = s.raised;
        sender = s.sender;
        size = s.size ∙ ended-size;
        waiting = s.waiting;
        unlocked = s.unlocked;
        slots = λ i lo hi q. s.slots i lo hi q ∙ ended-Kept.registers i hi;
      }

  -- What a ready client submits, when it fits: the stage holds the pushed words and the closing 0,
  -- the registers hold the client's id and the size in bytes, SUBMIT and the client's own flag are
  -- up, the lock is free, and no other byte of the slots has changed.
  pub glimpl_submit-Delivered : Delivered b.shared (glimpl_submit id (push_all ws b)).shared id ws
  glimpl_submit-Delivered =
      rw (glimpl_submit-eq id (push_all ws b) ended-ok)
        (record { words = ended-words; registers = ended-Submitted })
