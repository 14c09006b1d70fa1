-- ===== src/Network/Reply.antt =====
-- The server's batch for a submission over the network, and what its client reads then.
use sharedgl.Prelude.{
  ℕ, ◌+◌, ◌-◌, ◌*◌, ◌≤◌, ◌≡◌, true, false, none, some, List, [], ◌∷◌, ◌++◌, length, if◌then◌else◌,
}
use sharedgl.Memory.{Memory, overlay, store32}
use sharedgl.Layout.{command_start}
use sharedgl.Layout.Reg
use sharedgl.Pb.{pb_reset}
use sharedgl.Pb.Stream.{words_at, AllWords}
use sharedgl.Server.{Effect, Server}
use sharedgl.Server.Client.{ClientCall, stream_words, AllNarrow, perform_all}
use sharedgl.Network.{
  NetEvent, receive, Net, NetArgs, drain, retval_packet, NetBatch, answered, starved, unfinished,
  net_started, NetClient, ClientEvent, received, net_packet, net_ended, glimpl_submit_net,
}
use sharedgl.Network.Waiting.{AllQuiet, AllIdle, drain_rounds}
use sharedgl.Network.Session.{IsNetReady, net_push, AllWaiting, Returned}

-- The mapping after the command loop.
abbrev answered_memory : Memory → Server → Memory
answered_memory m s = store32 (store32 m Reg.retval s.retval) Reg.submit 0

module _ (ws : List ℕ) (c : NetClient) (r : IsNetReady c) (h : AllWords ws)
    (room : 4 * (length ws + 1) ≤ c.pb.in_capacity) (m : Memory) (s : Server)
    (es : List ClientEvent) (q : AllWaiting es) where
  abbrev regs : Memory
  regs = answered_memory m s

  abbrev replied : NetClient
  replied = record c {
    pb = pb_reset (net_ended (net_push ws c)).pb;
    fake_register_space = overlay c.fake_register_space 0 (retval_packet regs);
  }

-- The batch of a submission by `peer`, whose context is `ctx`: `s` is the server after its command
-- loop, and `earlier` what had been sent before the batch. The client `c` pushed `ws`; `returned` is its submission, for which it gets the reply.
pub record NetServed (frame : List Effect → List ℕ) (peer ctx : ℕ) (earlier : List (ℕ × List ℕ))
    (ws : List ℕ) (c : NetClient) (s s' : Server) (n : Net) : Type 0 where
  pub server : s' ≡ record s { expecting_retval = true; did_swap_buffers = false }
  pub context : n.current ≡ some ctx
  pub packets : n.sent ≡ (
      let replied = (peer, retval_packet n.shared) ∷ earlier in
      if s.did_swap_buffers then (peer, frame s.trace) ∷ replied else replied)
  pub returned :
      (es : List ClientEvent)
      → AllWaiting es
      → Returned s n.shared
          (glimpl_submit_net (es ++ (received (retval_packet n.shared) ∷ [])) (net_push ws c))

abbrev pub IsNetServed :
    (List Effect → List ℕ)
    → ℕ
    → ℕ
    → List (ℕ × List ℕ)
    → List ℕ
    → NetClient
    → Server
    → NetBatch
    → Type 0
IsNetServed frame peer ctx earlier ws c s (answered rounds n s') =
    NetServed frame peer ctx earlier ws c s s' n
IsNetServed frame peer ctx earlier ws c s (starved n) = ⊥
IsNetServed frame peer ctx earlier ws c s unfinished = ⊥

module _ (driver : List Effect → ℕ) (frame : List Effect → List ℕ) (cs : List ClientCall)
    (peer ctx words : ℕ) (args : NetArgs) (c : NetClient) (idle : List (List NetEvent))
    (before after : List NetEvent) (rounds : List (List NetEvent)) (n : Net) (s : Server)
    (ready : IsNetReady c) (narrow : AllNarrow cs) (small : AllWords (stream_words cs))
    (room : 4 * (length (stream_words cs) + 1) ≤ c.pb.in_capacity)
    (space : c.pb.in_capacity ≤ 4 * words) (quiet : AllIdle peer idle) (qb : AllQuiet peer before)
    (qa : AllQuiet peer after) (has : n.peer_data peer ≡ some ctx)
    (expecting : (perform_all driver 0 cs (net_started n s)).expecting_retval ≡ true) where
  abbrev packet : List ℕ
  packet = net_packet (net_ended (net_push (stream_words cs) c))

  abbrev begun : Net
  begun = record n { ready = false; out_ctx = none; out_peer = none }

  abbrev waited : Net
  waited = drain args (before ++ (receive peer packet ∷ after)) (drain_rounds args idle begun)

  abbrev behind : List ℕ
  behind =
      words_at waited.shared (command_start + 4 * (length (stream_words cs) + 1))
        (words - (length (stream_words cs) + 1))
