-- ===== src/Network/Waiting.antt =====
-- What `wait_net` of src/server/processor.c has when it returns.
use sharedgl.Prelude.{
  ℕ, ◌+◌, ◌-◌, ◌≤◌, ◌<◌, ◌≡◌, ◌≢◌, refl, ap, ◌∙◌, true, false, some, List, [], ◌∷◌, ◌++◌, length,
  arith, get_or, if◌then◌else◌,
}
use sharedgl.Memory.{store32}
use sharedgl.Layout.{command_start}
use sharedgl.Layout.Reg
use sharedgl.Network.{
  NetEvent, connect, disconnect, disconnect_timeout, receive, Net, NetArgs, handle, drain, found,
  wait_rounds, sgl_net_get_fifo_upload, sgl_net_accept_connection,
}

pub drain-append :
    (args : NetArgs) (xs ys : List NetEvent) (n : Net)
    → drain args (xs ++ ys) n ≡ drain args ys (drain args xs n)
unfolding drain
drain-append args [] ys n = refl
drain-append args (x ∷ xs) ys n = drain-append args xs ys (handle args x n)

-- Events that deliver nothing to run, and do not connect `peer` again.
abbrev pub IsQuiet : ℕ → NetEvent → Type 0
IsQuiet peer (connect p) = p ≢ peer
IsQuiet peer (disconnect p) = Unit
IsQuiet peer (disconnect_timeout p) = Unit
IsQuiet peer (receive p bs) = ⊥

abbrev pub AllQuiet : ℕ → List NetEvent → Type 0
AllQuiet peer [] = Unit
AllQuiet peer (e ∷ es) = IsQuiet peer e × AllQuiet peer es

-- What such events leave alone.
pub record Calm (peer : ℕ) (n n' : Net) : Type 0 where
  pub registers : (i : ℕ) → i < Reg.claim_id → n'.shared i ≡ n.shared i
  pub commands : (i : ℕ) → command_start ≤ i → n'.shared i ≡ n.shared i
  pub context : n'.peer_data peer ≡ n.peer_data peer
  pub ready : n'.ready ≡ n.ready
  pub out_ctx : n'.out_ctx ≡ n.out_ctx
  pub out_peer : n'.out_peer ≡ n.out_peer

Calm-refl : (peer : ℕ) (n : Net) → Calm peer n n
Calm-refl peer n = record {
  registers = λ i h. refl;
  commands = λ i h. refl;
  context = refl;
  ready = refl;
  out_ctx = refl;
  out_peer = refl;
}

handle-Calm :
    (args : NetArgs) (peer : ℕ) (e : NetEvent) (n : Net)
    → IsQuiet peer e
    → Calm peer n (handle args e n)
unfolding handle sgl_net_accept_connection store32
handle-Calm args peer (connect p) n q = record {
  registers = λ i h. ground arith;
  commands = λ i h. ground arith;
  context = ground arith;
  ready = refl;
  out_ctx = refl;
  out_peer = refl;
}
handle-Calm args peer (disconnect p) n q = Calm-refl peer n
handle-Calm args peer (disconnect_timeout p) n q = Calm-refl peer n
handle-Calm args peer (receive p bs) n q = absurd q

pub drain-Calm :
    (args : NetArgs) (peer : ℕ) (es : List NetEvent) (n : Net)
    → AllQuiet peer es
    → Calm peer n (drain args es n)
unfolding drain
drain-Calm args peer [] n q = Calm-refl peer n
drain-Calm args peer (e ∷ es) n q =
    let one = handle-Calm args peer e n q.0 in
    let rest = drain-Calm args peer es (handle args e n) q.1 in
    record {
      registers = λ i h. rest.registers i h ∙ one.registers i h;
      commands = λ i h. rest.commands i h ∙ one.commands i h;
      context = rest.context ∙ one.context;
      ready = rest.ready ∙ one.ready;
      out_ctx = rest.out_ctx ∙ one.out_ctx;
      out_peer = rest.out_peer ∙ one.out_peer;
    }

-- A packet has arrived and its peer's context is at hand.
pub record Uploaded (peer : ℕ) (bs : List ℕ) (n n' : Net) : Type 0 where
  pub ready : n'.ready ≡ true
  pub ctx : n'.out_ctx ≡ n.peer_data peer
  pub registers : (i : ℕ) → i < Reg.claim_id → n'.shared i ≡ n.shared i
  pub sender : n'.out_peer ≡ some peer
  pub bytes : (i : ℕ) → i < length bs → n'.shared (command_start + i) ≡ get_or bs i 0

receive-Uploaded :
    (args : NetArgs) (peer : ℕ) (bs : List ℕ) (n : Net)
    → Uploaded peer bs n (handle args (receive peer bs) n)
unfolding handle sgl_net_get_fifo_upload
receive-Uploaded args peer bs n = record {
  ready = refl;
  ctx = refl;
  registers = λ i h. ground arith;
  sender = refl;
  bytes = λ i h.
      let e : command_start + i - command_start ≡ i = omega arith in
      ground (arith, ap (λ k. get_or bs k 0) e);
}

-- One packet among quiet events.
pub drain-Uploaded :
    (args : NetArgs) (peer : ℕ) (bs : List ℕ) (before after : List NetEvent) (n : Net)
    → AllQuiet peer before
    → AllQuiet peer after
    → Uploaded peer bs n (drain args (before ++ (receive peer bs ∷ after)) n)
drain-Uploaded args peer bs before after n qb qa =
    let m = drain args before n in
    let b = drain-Calm args peer before n qb in
    let r = receive-Uploaded args peer bs m in
    let a = drain-Calm args peer after (handle args (receive peer bs) m) qa in
    rw (drain-append args before (receive peer bs ∷ after) n) (
      unfold drain in
      record {
        ready = a.ready ∙ r.ready;
        ctx = a.out_ctx ∙ r.ctx ∙ b.context;
        registers = λ i h. a.registers i h ∙ r.registers i h ∙ b.registers i h;
        sender = a.out_peer ∙ r.sender;
        bytes = λ i h. a.commands (command_start + i) (omega arith) ∙ r.bytes i h;
      })

-- Rounds without a packet.
abbrev pub AllIdle : ℕ → List (List NetEvent) → Type 0
AllIdle peer [] = Unit
AllIdle peer (es ∷ rounds) = AllQuiet peer es × AllIdle peer rounds

-- The state after those rounds.
unfoldable pub drain_rounds : NetArgs → List (List NetEvent) → Net → Net
drain_rounds args [] n = n
drain_rounds args (es ∷ rounds) n = drain_rounds args rounds (drain args es n)

pub drain_rounds-Calm :
    (args : NetArgs) (peer : ℕ) (rounds : List (List NetEvent)) (n : Net)
    → AllIdle peer rounds
    → Calm peer n (drain_rounds args rounds n)
unfolding drain_rounds
drain_rounds-Calm args peer [] n q = Calm-refl peer n
drain_rounds-Calm args peer (es ∷ rounds) n q =
    let one = drain-Calm args peer es n q.0 in
    let rest = drain_rounds-Calm args peer rounds (drain args es n) q.1 in
    record {
      registers = λ i h. rest.registers i h ∙ one.registers i h;
      commands = λ i h. rest.commands i h ∙ one.commands i h;
      context = rest.context ∙ one.context;
      ready = rest.ready ∙ one.ready;
      out_ctx = rest.out_ctx ∙ one.out_ctx;
      out_peer = rest.out_peer ∙ one.out_peer;
    }

-- Behind idle rounds, the first round that delivers a packet is the last of the call.
pub wait_rounds-found :
    (args : NetArgs) (peer : ℕ) (idle : List (List NetEvent)) (es : List NetEvent)
    (rounds : List (List NetEvent)) (n : Net)
    → n.ready ≡ false
    → AllIdle peer idle
    → (drain args es (drain_rounds args idle n)).ready ≡ true
    → wait_rounds args (idle ++ (es ∷ rounds)) n
      ≡ found (drain args es (drain_rounds args idle n)) rounds
unfolding wait_rounds drain_rounds
wait_rounds-found args peer [] es rounds n r q h =
    ap
      (λ t. if t then found (drain args es n) rounds else wait_rounds args rounds (drain args es n))
      h
wait_rounds-found args peer (x ∷ idle) es rounds n r q h =
    let c = drain-Calm args peer x n q.0 in
    let rest = wait_rounds args (idle ++ (es ∷ rounds)) (drain args x n) in
    ap (λ t. if t then found (drain args x n) (idle ++ (es ∷ rounds)) else rest) (c.ready ∙ r)
    ∙ wait_rounds-found args peer idle es rounds (drain args x n) (c.ready ∙ r) q.1 h
