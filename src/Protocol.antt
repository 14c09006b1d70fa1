-- ===== src/Protocol.antt =====
-- Several clients and the server over one shared mapping, interleaved in any order: `submit_shm` of
-- src/client/glimpl.c, the locks of src/client/spinlock.c, and `wait_shm` with the outer loop of
-- `sgl_cmd_processor_start` in src/server/processor.c. Each step makes one access to shared memory.
pub mod Invariant
pub mod Clients
pub mod Servers
pub mod Rounds
pub mod Safety
pub mod Progress
mod Tests
use sharedgl.Prelude.{ℕ, suc, ◌+◌, ◌≤◌, ◌<◌, ◌≡◌, Bool, true, false, ◌==◌, if◌then◌else◌}
use sharedgl.Layout.{valid_client_id}

-- A submission: `submit_size` bytes of the push buffer
pub record Stream : Type 0 where
  pub size : ℕ
  pub byte : ℕ → ℕ

abbrev pub no_stream : Stream
no_stream = record { size = 0; byte = λ _. 0 }

-- The registers, the stage, and of each slot the SUBMIT flag and the RETVAL word. The lock, SUBMIT
-- and the flags hold 0 or 1.
pub record Shared : Type 0 where
  pub lock : Bool
  pub submit : Bool
  pub stage_client_id : ℕ
  pub stage_size : ℕ
  pub stage : ℕ → ℕ
  pub flag : ℕ → Bool
  pub retval : ℕ → ℕ

abbrev pub update {ℓ} : {A : Type ℓ} → (ℕ → A) → ℕ → A → ℕ → A
update f i a j = if i == j then a else f j

-- Where a client stands in `submit_shm`, with the stream that it submits.
pub data Pc : Type 0 where
  idle : Pc
  dropping : Pc  -- with a stream that is too large, before `pb_write(RETVAL, 0)`
  locking : Stream → Pc  -- in `spin_lock`
  checking : Stream → Pc  -- at the head of `while (SUBMIT == 1)`, with the lock
  unlocking : Stream → Pc
  polling : Stream → Pc  -- in the inner `while`, without the lock
  flagging : Stream → Pc  -- before `pb_write(SUBMIT, 1)`
  copying : Stream → ℕ → Pc  -- in `pb_copy_to_shared`
  naming : Stream → Pc
  sizing : Stream → Pc
  raising : Stream → Pc  -- before `pb_global_write(SUBMIT, 1)`
  releasing : Stream → Pc  -- before `spin_unlock`
  waiting : Stream → Pc  -- in the last `while`
  fetching : Stream → Pc  -- before it reads RETVAL
  answered : Stream → ℕ → Pc  -- with the RETVAL that it read

-- One step of client `i`. A stream above `fifo_size` is dropped before the lock; the values behind
-- RETVAL, which are cleared too, are not in `Shared`. The caller of `glimpl_submit` reads RETVAL.
pub data Move (fifo_size i : ℕ) (m : Shared) : Pc → Shared → Pc → Type 0 where
  begin : {s : Stream} → s.size ≤ fifo_size → Move fifo_size i m idle m (locking s)
  oversize : (s : Stream) → fifo_size < s.size → Move fifo_size i m idle m dropping
  drop : Move fifo_size i m dropping (record m { retval = update m.retval i 0 }) idle
  spin : {s : Stream} → m.lock ≡ true → Move fifo_size i m (locking s) m (locking s)
  take :
      {s : Stream}
      → m.lock ≡ false
      → Move fifo_size i m (locking s) (record m { lock = true }) (checking s)
  busy : {s : Stream} → m.submit ≡ true → Move fifo_size i m (checking s) m (unlocking s)
  unlock : {s : Stream} → Move fifo_size i m (unlocking s) (record m { lock = false }) (polling s)
  poll : {s : Stream} → m.submit ≡ true → Move fifo_size i m (polling s) m (polling s)
  retry : {s : Stream} → m.submit ≡ false → Move fifo_size i m (polling s) m (locking s)
  free : {s : Stream} → m.submit ≡ false → Move fifo_size i m (checking s) m (flagging s)
  set_flag :
      {s : Stream}
      → Move fifo_size i m (flagging s) (record m { flag = update m.flag i true }) (copying s 0)
  copy :
      {s : Stream} {k : ℕ}
      → k < s.size
      → Move fifo_size i m
          (copying s k)
          (record m { stage = update m.stage k (s.byte k) })
          (copying s (suc k))
  copied : {s : Stream} {k : ℕ} → s.size ≤ k → Move fifo_size i m (copying s k) m (naming s)
  name : {s : Stream} → Move fifo_size i m (naming s) (record m { stage_client_id = i }) (sizing s)
  size : {s : Stream} → Move fifo_size i m (sizing s) (record m { stage_size = s.size }) (raising s)
  raise : {s : Stream} → Move fifo_size i m (raising s) (record m { submit = true }) (releasing s)
  release : {s : Stream} → Move fifo_size i m (releasing s) (record m { lock = false }) (waiting s)
  wait : {s : Stream} → m.flag i ≡ true → Move fifo_size i m (waiting s) m (waiting s)
  see : {s : Stream} → m.flag i ≡ false → Move fifo_size i m (waiting s) m (fetching s)
  read : {s : Stream} → Move fifo_size i m (fetching s) m (answered s (m.retval i))

-- Where the server stands in its outer loop, with its copy of the stream.
pub data ServerPc : Type 0 where
  listening : ServerPc  -- in `wait_shm`
  naming_client : ServerPc  -- before `*client_id = ...`
  sizing_batch : (id : ℕ) → ServerPc  -- before `*submit_size = ...`
  checking_batch : (id n : ℕ) → ServerPc
  wiping : (id : ℕ) → ServerPc  -- before the `memset` of a slot whose batch is too large
  refusing : ServerPc  -- before SUBMIT is lowered with no batch run
  loading : (id n k : ℕ) → (ℕ → ℕ) → ServerPc  -- in the `memcpy` to `shared_exec`
  lowering : (id n : ℕ) → (ℕ → ℕ) → ServerPc  -- before SUBMIT is lowered
  executing : (id n : ℕ) → (ℕ → ℕ) → ServerPc  -- the command loop
  replying : (id r : ℕ) → ServerPc  -- before the `memcpy` to the slot
  answering : (id r : ℕ) → ServerPc  -- before the slot's flag is lowered

-- One step of the server, but for the command loop.
pub data Serve (fifo_size : ℕ) (m : Shared) : ServerPc → Shared → ServerPc → Type 0 where
  listen : m.submit ≡ false → Serve fifo_size m listening m listening
  wake : m.submit ≡ true → Serve fifo_size m listening m naming_client
  read_id : Serve fifo_size m naming_client m (sizing_batch m.stage_client_id)
  read_size : {id : ℕ} → Serve fifo_size m (sizing_batch id) m (checking_batch id m.stage_size)
  bad_id :
      {id n : ℕ} → valid_client_id id ≡ false → Serve fifo_size m (checking_batch id n) m refusing
  too_large :
      {id n : ℕ}
      → valid_client_id id ≡ true
      → fifo_size < n
      → Serve fifo_size m (checking_batch id n) m (wiping id)
  wipe :
      {id : ℕ}
      → Serve fifo_size m
          (wiping id)
          (record m { flag = update m.flag id false; retval = update m.retval id 0 })
          refusing
  refuse : Serve fifo_size m refusing (record m { submit = false }) listening
  accept :
      {id n : ℕ}
      → valid_client_id id ≡ true
      → n ≤ fifo_size
      → Serve fifo_size m (checking_batch id n) m (loading id n 0 (λ _. 0))
  load :
      {id n k : ℕ} {exec : ℕ → ℕ}
      → k < n
      → Serve fifo_size m (loading id n k exec) m (loading id n (suc k) (update exec k (m.stage k)))
  loaded :
      {id n k : ℕ} {exec : ℕ → ℕ}
      → n ≤ k
      → Serve fifo_size m (loading id n k exec) m (lowering id n exec)
  lower :
      {id n : ℕ} {exec : ℕ → ℕ}
      → Serve fifo_size m (lowering id n exec) (record m { submit = false }) (executing id n exec)
  reply :
      {id r : ℕ}
      → Serve fifo_size m
          (replying id r)
          (record m { retval = update m.retval id r })
          (answering id r)
  answer :
      {id r : ℕ}
      → Serve fifo_size m (answering id r) (record m { flag = update m.flag id false }) listening

-- A batch that the command loop has run, with the value that it left in RETVAL
pub record Batch : Type 0 where
  pub size : ℕ
  pub byte : ℕ → ℕ
  pub result : ℕ

-- `asked` counts the submissions from which each client has returned with an answer, which are those
-- that it did not drop, `runs` the batches that the
-- command loop has run for it; `last` is the latest of these.
pub record World : Type 0 where
  pub shared : Shared
  pub clients : ℕ → Pc
  pub server : ServerPc
  pub asked : ℕ → ℕ
  pub runs : ℕ → ℕ
  pub last : ℕ → Batch

-- The command loop ends with any value. A goodbye, which takes the lock to release a slot, is left
-- out, and so is a client that connects.
pub data Step (fifo_size : ℕ) (w : World) : World → Type 0 where
  client :
      (i : ℕ) {m : Shared} {p : Pc}
      → valid_client_id i ≡ true
      → Move fifo_size i w.shared (w.clients i) m p
      → Step fifo_size w (record w { shared = m; clients = update w.clients i p })
  return :
      (i : ℕ) {s : Stream} {r : ℕ}
      → w.clients i ≡ answered s r
      → Step fifo_size w (record w {
        clients = update w.clients i idle;
        asked = update w.asked i (suc (w.asked i));
      })
  serve :
      {m : Shared} {p : ServerPc}
      → Serve fifo_size w.shared w.server m p
      → Step fifo_size w (record w { shared = m; server = p })
  execute :
      {id n : ℕ} {exec : ℕ → ℕ} (r : ℕ)
      → w.server ≡ executing id n exec
      → Step fifo_size w (record w {
        server = replying id r;
        runs = update w.runs id (suc (w.runs id));
        last = update w.last id (record { size = n; byte = exec; result = r });
      })

-- `sgl_cmd_processor_start` has cleared the registers and the slots; no client has submitted.
abbrev pub quiet : Shared
quiet = record {
  lock = false;
  submit = false;
  stage_client_id = 0;
  stage_size = 0;
  stage = λ _. 0;
  flag = λ _. false;
  retval = λ _. 0;
}

abbrev pub init : World
init = record {
  shared = quiet;
  clients = λ _. idle;
  server = listening;
  asked = λ _. 0;
  runs = λ _. 0;
  last = λ _. record { size = 0; byte = λ _. 0; result = 0 };
}

pub data Reach (fifo_size : ℕ) : World → Type 0 where
  start : Reach fifo_size init
  later : {w w' : World} → Reach fifo_size w → Step fifo_size w w' → Reach fifo_size w'
