-- ===== src/Submit/Reply.antt =====
-- The server's batch for a submission that a client delivered.
use sharedgl.Prelude.{
  ℕ, suc, ◌+◌, ◌-◌, ◌*◌, ◌/◌, ◌%◌, ◌^◌, ◌≤◌, ◌<◌, ◌≡◌, ◌⊎◌, inl, inr, refl, ap, ◌∙◌, true, false,
  List, [], ◌∷◌, ◌++◌, length, ltb, get_or, arith,
}
use sharedgl.Memory.{
  Memory, overlay, read32-get, read32, store32, read32-store32, read32-store32_ne,
  read32-overlay_outside, read32-store32_mod,
}
use sharedgl.Layout.{
  client_slot_size, client_slot_offset, command_start, stage_offset, valid_client_id,
}
use sharedgl.Layout.Reg
use sharedgl.Pb.{PushBuffer, int_to_size}
use sharedgl.Pb.Stream.{words_at, push_all, AllWords, read_bytes-get, length-read_bytes}
use sharedgl.Server.{Effect, Server, run, finished}
use sharedgl.Server.Client.{ClientCall, stream_words, AllNarrow, perform_all}
use sharedgl.Submit.{
  glimpl_submit, slot_word, Batch, refused, answered, unfinished, load, reply_bytes, answer, finish,
  serve,
}
use sharedgl.Submit.Loop.{run-words_at}
use sharedgl.Submit.Delivery.{IsReady, words_at-same, valid-range, glimpl_submit-Delivered}

load-get :
    (shared exec : Memory) (n i : ℕ)
    → i < n
    → load shared exec n (command_start + i) ≡ shared (stage_offset + i)
unfolding load
load-get shared exec n i h =
    let e : command_start + i - command_start ≡ i = omega arith in
    ground
      (arith, length-read_bytes shared stage_offset n, e, read_bytes-get shared stage_offset n i h)

-- The stream of `n` words stands at the front of the execution buffer.
load-words :
    (shared exec : Memory) (n : ℕ)
    → words_at (load shared exec (4 * n)) command_start n ≡ words_at shared stage_offset n
load-words shared exec n =
    words_at-same n (load shared exec (4 * n)) shared command_start stage_offset
      (λ i q. load-get shared exec (4 * n) i q)

-- The state in which the command loop starts.
abbrev pub started : Server → Server
started s = record s { retval = 0; release_client_slot = 0 }

module _ (driver : List Effect → ℕ) (cs : List ClientCall) (shared exec : Memory) (fifo_size id : ℕ)
    (s : Server) (narrow : AllNarrow cs) (valid : valid_client_id id ≡ true)
    (room : 4 * (length (stream_words cs) + 1) ≤ fifo_size) (small : fifo_size < 2 ^ 31)
    (sender : read32 shared Reg.stage_client_id ≡ id)
    (size : read32 shared Reg.stage_size ≡ 4 * (length (stream_words cs) + 1))
    (words : words_at shared stage_offset (length (stream_words cs) + 1)
      ≡ stream_words cs ++ (0 ∷ [])) where
  abbrev count : ℕ
  count = length (stream_words cs) + 1

  abbrev loaded : Memory
  loaded = load shared exec (4 * count)

  abbrev behind : List ℕ
  behind = words_at loaded (command_start + 4 * count) (fifo_size / 4 - count)

  loop :
      run driver
        (suc (fifo_size / 4))
        (fifo_size / 4)
        (started s)
        (words_at loaded command_start (fifo_size / 4))
      ≡ finished (perform_all driver 0 cs (started s)) behind
  loop =
      run-words_at driver cs loaded command_start (fifo_size / 4) (started s) narrow (omega arith)
        (load-words shared exec count ∙ words)

  size-eq : int_to_size (read32 shared Reg.stage_size) ≡ 4 * count
  unfolding int_to_size
  size-eq = rw size (ground arith)

  fits : ltb fifo_size (4 * count) ≡ false
  fits = ground arith

  pub serve-eq :
      serve driver fifo_size shared exec s
      ≡ finish
          (store32 shared Reg.submit 0)
          loaded
          id
          (finished (perform_all driver 0 cs (started s)) behind)
  unfolding serve
  serve-eq = rw (sender, valid, size-eq, fits, loop) refl

-- What the client finds after a batch: the server is in state `s'`; the slot's SUBMIT flag is down
-- and its RETVAL register holds the server's; the stage may be used again; the other slots are as
-- they were.
pub record Served (id : ℕ) (before shared : Memory) (s s' : Server) : Type 0 where
  pub server : s ≡ s'
  pub done : slot_word shared id Reg.submit ≡ 0
  pub retval : slot_word shared id Reg.retval ≡ s'.retval % 2 ^ 32
  pub free : read32 shared Reg.submit ≡ 0
  pub others :
      (i : ℕ)
      → command_start ≤ i
      → i < stage_offset
      → (i < client_slot_offset id) ⊎ (client_slot_offset id + client_slot_size ≤ i)
      → shared i ≡ before i

abbrev pub IsServed : ℕ → Memory → Server → Batch → Type 0
IsServed id before s' (answered shared exec s) = Served id before shared s s'
IsServed id before s' (refused shared) = ⊥
IsServed id before s' unfinished = ⊥

pub length-reply_bytes : (exec : Memory) → length (reply_bytes exec) ≡ client_slot_size - Reg.retval
unfolding reply_bytes
length-reply_bytes exec = length-read_bytes exec Reg.retval (client_slot_size - Reg.retval)

pub reply_bytes-get :
    (exec : Memory) (i : ℕ)
    → i < client_slot_size - Reg.retval
    → get_or (reply_bytes exec) i 0 ≡ exec (Reg.retval + i)
unfolding reply_bytes
reply_bytes-get exec i h = read_bytes-get exec Reg.retval (client_slot_size - Reg.retval) i h

module _ (shared exec : Memory) (id : ℕ) (s : Server) (valid : valid_client_id id ≡ true)
    (kept : s.release_client_slot ≡ 0) where
  abbrev replied : Memory
  replied = store32 (store32 exec Reg.retval s.retval) Reg.submit 0

  abbrev copied : Memory
  copied =
      overlay (store32 shared Reg.submit 0) (client_slot_offset id + Reg.retval)
        (reply_bytes replied)

  abbrev answer_memory : Memory
  answer_memory = store32 copied (client_slot_offset id + Reg.submit) 0

  answer-eq : answer (store32 shared Reg.submit 0) replied id s ≡ answer_memory
  unfolding answer
  answer-eq = rw kept refl

  copied-retval :
      (i : ℕ) → i < 4 → copied (client_slot_offset id + Reg.retval + i) ≡ replied (Reg.retval + i)
  copied-retval i h =
      let e : client_slot_offset id + Reg.retval + i - (client_slot_offset id + Reg.retval) ≡ i =
        omega arith in
      ground (
        arith,
        ap (λ k. get_or (reply_bytes replied) k 0) e,
        length-reply_bytes replied,
        reply_bytes-get replied i (omega arith),
      )

  finish-IsServed :
      (ws : List ℕ)
      → IsServed id shared s (finish (store32 shared Reg.submit 0) exec id (finished s ws))
  finish-IsServed ws = rw answer-eq (record {
    server = refl;
    done = read32-store32 copied (client_slot_offset id + Reg.submit) 0 (omega arith);
    retval =
        read32-store32_ne copied (client_slot_offset id + Reg.submit)
          (client_slot_offset id + Reg.retval) 0 (inr (omega arith))
        ∙ read32-get copied replied _ _ copied-retval
        ∙ read32-store32_ne (store32 exec Reg.retval s.retval) Reg.submit Reg.retval 0
            (inr (omega arith))
        ∙ read32-store32_mod exec Reg.retval s.retval;
    free =
        read32-store32_ne copied (client_slot_offset id + Reg.submit) Reg.submit 0
          (inl (omega arith))
        ∙ read32-overlay_outside (store32 shared Reg.submit 0) (client_slot_offset id + Reg.retval)
            Reg.submit (reply_bytes replied) (inl (omega arith))
        ∙ read32-store32 shared Reg.submit 0 (omega arith);
    others = λ i lo hi q.
        unfold store32 in ground (arith, length-reply_bytes replied, valid-range id valid);
  })

-- A submission from end to end, by a ready client, of whatever modelled calls fit its buffer and do
-- not say goodbye, with 64-bit arguments below 2^31 and data as long as the calls say: the server
-- does exactly these calls, in order, and afterwards the client finds its SUBMIT flag down and its
-- RETVAL register set to the server's; the stage is free again and no other client's slot has
-- changed since the server took the batch up.
pub serve-glimpl_submit :
    (driver : List Effect → ℕ) (cs : List ClientCall) (id : ℕ) (b : PushBuffer) (exec : Memory)
    (s : Server)
    → IsReady id b
    → AllNarrow cs
    → AllWords (stream_words cs)
    → 4 * (length (stream_words cs) + 1) ≤ b.in_capacity
    → (perform_all driver 0 cs (started s)).release_client_slot ≡ 0
    → IsServed id
        (glimpl_submit id (push_all (stream_words cs) b)).shared
        (perform_all driver 0 cs (started s))
        (serve driver b.in_capacity (glimpl_submit id (push_all (stream_words cs) b)).shared exec s)
serve-glimpl_submit driver cs id b exec s r narrow small room kept =
    let d = glimpl_submit-Delivered id (stream_words cs) b r small room in
    let m = (glimpl_submit id (push_all (stream_words cs) b)).shared in
    rw
      (serve-eq driver cs m exec b.in_capacity id s narrow r.valid room r.small d.registers.sender
        d.registers.size d.words)
      (finish-IsServed m (load m exec (4 * (length (stream_words cs) + 1))) id
        (perform_all driver 0 cs (started s)) r.valid kept [])
