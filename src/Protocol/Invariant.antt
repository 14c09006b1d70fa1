-- ===== src/Protocol/Invariant.antt =====
-- What holds of every reachable state.
use sharedgl.Prelude.{ℕ, suc, ◌≤◌, ◌<◌, ◌≡◌, ◌⊎◌, Bool, true, false, ◌==◌}
use sharedgl.Layout.{valid_client_id}
use sharedgl.Protocol.{
  Stream, no_stream, Shared, Pc, idle, locking, checking, unlocking, polling, flagging, copying,
  naming, sizing, raising, releasing, waiting, fetching, dropping, answered, ServerPc,
  naming_client, sizing_batch, checking_batch, wiping, refusing, loading, lowering, executing,
  replying, answering, World,
}

-- The stream of a client's present submission
abbrev pub stream_of : Pc → Stream
stream_of idle = no_stream
stream_of dropping = no_stream
stream_of (locking s) = s
stream_of (checking s) = s
stream_of (unlocking s) = s
stream_of (polling s) = s
stream_of (flagging s) = s
stream_of (copying s k) = s
stream_of (naming s) = s
stream_of (sizing s) = s
stream_of (raising s) = s
stream_of (releasing s) = s
stream_of (waiting s) = s
stream_of (fetching s) = s
stream_of (answered s r) = s

-- The client has the lock.
abbrev pub critical : Pc → Bool
critical idle = false
critical dropping = false
critical (locking s) = false
critical (polling s) = false
critical (waiting s) = false
critical (fetching s) = false
critical (answered s r) = false
critical _ = true

-- It has seen SUBMIT at 0 and not raised it yet.
abbrev pub staging : Pc → Bool
staging (flagging s) = true
staging (copying s k) = true
staging (naming s) = true
staging (sizing s) = true
staging (raising s) = true
staging _ = false

-- It has raised SUBMIT and not read its answer yet.
abbrev pub raised : Pc → Bool
raised (releasing s) = true
raised (waiting s) = true
raised (fetching s) = true
raised _ = false

abbrev pub is_idle : Pc → Bool
is_idle idle = true
is_idle _ = false

abbrev pub is_answered : Pc → Bool
is_answered (answered s r) = true
is_answered _ = false

-- The bytes of its stream that are in the stage
abbrev pub progress : Pc → ℕ
progress (copying s k) = k
progress (naming s) = s.size
progress (sizing s) = s.size
progress (raising s) = s.size
progress _ = 0

-- What the client has told about its stream so far, and that it has seen its own flag down.
abbrev pub IsPlaced : Shared → ℕ → Pc → Type 0
IsPlaced m i (copying s k) = m.flag i ≡ true
IsPlaced m i (naming s) = m.flag i ≡ true
IsPlaced m i (sizing s) = (m.flag i ≡ true) × (m.stage_client_id ≡ i)
IsPlaced m i (raising s) = (m.flag i ≡ true) × (m.stage_client_id ≡ i) × (m.stage_size ≡ s.size)
IsPlaced m i (fetching s) = m.flag i ≡ false
IsPlaced m i _ = Unit

-- The server runs a batch of `i`, or answers it.
abbrev pub serves : ServerPc → ℕ → Bool
serves (executing id n exec) i = id == i
serves (replying id r) i = id == i
serves (answering id r) i = id == i
serves _ i = false

abbrev pub rejects : ServerPc → Bool
rejects (wiping id) = true
rejects refusing = true
rejects _ = false

-- The bytes that the server has copied, and to where
abbrev pub loaded_bytes : ServerPc → ℕ
loaded_bytes (loading id n k exec) = k
loaded_bytes (lowering id n exec) = n
loaded_bytes _ = 0

abbrev pub exec_of : ServerPc → ℕ → ℕ
exec_of (loading id n k exec) = exec
exec_of (lowering id n exec) = exec
exec_of (executing id n exec) = exec
exec_of _ = λ _. 0

-- While the server takes a batch up, SUBMIT is raised, and what it has read is what is there.
abbrev pub IsFetched : Shared → ServerPc → Type 0
IsFetched m naming_client = m.submit ≡ true
IsFetched m (sizing_batch id) = (m.submit ≡ true) × (id ≡ m.stage_client_id)
IsFetched m (checking_batch id n) =
    (m.submit ≡ true) × (id ≡ m.stage_client_id) × (n ≡ m.stage_size)
IsFetched m (loading id n k exec) =
    (m.submit ≡ true) × (id ≡ m.stage_client_id) × (n ≡ m.stage_size)
IsFetched m (lowering id n exec) = (m.submit ≡ true) × (id ≡ m.stage_client_id) × (n ≡ m.stage_size)
IsFetched m _ = Unit

-- While it runs a batch and answers, the client waits for it.
abbrev pub IsRunning : World → ServerPc → Type 0
IsRunning w (executing id n exec) =
    (raised (w.clients id) ≡ true)
    × (w.shared.flag id ≡ true)
    × (w.runs id ≡ w.asked id)
    × (n ≡ (stream_of (w.clients id)).size)
IsRunning w (replying id r) =
    (raised (w.clients id) ≡ true)
    × (w.shared.flag id ≡ true)
    × (w.runs id ≡ suc (w.asked id))
    × ((w.last id).result ≡ r)
IsRunning w (answering id r) =
    (raised (w.clients id) ≡ true)
    × (w.shared.flag id ≡ true)
    × (w.runs id ≡ suc (w.asked id))
    × ((w.last id).result ≡ r)
    × (w.shared.retval id ≡ r)
IsRunning w _ = Unit

-- What a raised SUBMIT register says of the client that it names.
pub record IsPublished (fifo_size : ℕ) (w : World) (id : ℕ) : Type 0 where
  pub valid : valid_client_id id ≡ true
  pub waits : raised (w.clients id) ≡ true
  pub flagged : w.shared.flag id ≡ true
  pub fresh : w.runs id ≡ w.asked id
  pub unserved : serves w.server id ≡ false
  pub size : w.shared.stage_size ≡ (stream_of (w.clients id)).size

pub record Inv (fifo_size : ℕ) (w : World) : Type 0 where
  pub locked : (i : ℕ) → critical (w.clients i) ≡ true → w.shared.lock ≡ true
  pub held : w.shared.lock ≡ true → (i : ℕ) × (critical (w.clients i) ≡ true)
  pub members : (i : ℕ) → is_idle (w.clients i) ≡ false → valid_client_id i ≡ true
  pub alone : (i j : ℕ) → critical (w.clients i) ≡ true → critical (w.clients j) ≡ true → i ≡ j
  pub lowered : (i : ℕ) → staging (w.clients i) ≡ true → w.shared.submit ≡ false
  pub placed : (i : ℕ) → IsPlaced w.shared i (w.clients i)
  pub small : (i : ℕ) → (stream_of (w.clients i)).size ≤ fifo_size
  pub staged :
      (i k : ℕ) → k < progress (w.clients i) → w.shared.stage k ≡ (stream_of (w.clients i)).byte k
  pub published : w.shared.submit ≡ true → IsPublished fifo_size w w.shared.stage_client_id
  pub published_bytes :
      w.shared.submit ≡ true
      → (k : ℕ) → k < w.shared.stage_size
      → w.shared.stage k ≡ (stream_of (w.clients w.shared.stage_client_id)).byte k
  pub awaited :
      (i : ℕ)
      → raised (w.clients i) ≡ true
      → w.shared.flag i ≡ true
      → ((w.shared.submit ≡ true) × (w.shared.stage_client_id ≡ i)) ⊎ (serves w.server i ≡ true)
  pub settled :
      (i : ℕ)
      → raised (w.clients i) ≡ true
      → w.shared.flag i ≡ false
      → (w.runs i ≡ suc (w.asked i)) × (w.shared.retval i ≡ (w.last i).result)
  pub prior :
      (i : ℕ)
      → raised (w.clients i) ≡ false
      → is_answered (w.clients i) ≡ false
      → w.runs i ≡ w.asked i
  pub returned :
      (i : ℕ) (s : Stream) (r : ℕ)
      → w.clients i ≡ answered s r
      → (w.runs i ≡ suc (w.asked i)) × ((w.last i).result ≡ r)
  pub accepts : rejects w.server ≡ false
  pub fetched : IsFetched w.shared w.server
  pub loaded : (k : ℕ) → k < loaded_bytes w.server → exec_of w.server k ≡ w.shared.stage k
  pub running : IsRunning w w.server
  pub running_bytes :
      (id n : ℕ) (exec : ℕ → ℕ)
      → w.server ≡ executing id n exec
      → (k : ℕ) → k < n
      → exec k ≡ (stream_of (w.clients id)).byte k
  pub ran_size :
      (i : ℕ) → w.runs i ≡ suc (w.asked i) → (w.last i).size ≡ (stream_of (w.clients i)).size
  pub ran_bytes :
      (i : ℕ)
      → w.runs i ≡ suc (w.asked i)
      → (k : ℕ) → k < (w.last i).size
      → (w.last i).byte k ≡ (stream_of (w.clients i)).byte k
