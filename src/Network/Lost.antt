-- ===== src/Network/Lost.antt =====
-- Several packets in one inner loop of `wait_net` of src/server/processor.c.
use sharedgl.Prelude.{
  ℕ, ◌+◌, ◌≤◌, ◌<◌, ◌≡◌, refl, ap, ◌∙◌, sym, true, false, none, some, List, [], ◌∷◌, ◌++◌, length,
  fun_ext, arith,
}
use sharedgl.Memory.{overlay, read32, read32-get, store32}
use sharedgl.Layout.{command_start}
use sharedgl.Layout.Reg
use sharedgl.Server.{Effect, Server}
use sharedgl.Network.{
  NetEvent, connect, disconnect, disconnect_timeout, receive, Net, NetArgs, handle, drain,
  wait_rounds, wait_net, serve_net, sgl_net_get_fifo_upload, sgl_net_accept_connection, welcome,
  set_data,
}
use sharedgl.Network.Packet.{connect_bytes}
use sharedgl.Network.Waiting.{drain-append}

-- The state with and without a packet of `k` bytes that has been written to the command area.
record Like (k : ℕ) (n n' : Net) : Type 0 where
  low : (i : ℕ) → i < command_start → n.shared i ≡ n'.shared i
  high : (i : ℕ) → command_start + k ≤ i → n.shared i ≡ n'.shared i
  peer_data : n.peer_data ≡ n'.peer_data
  created : n.created ≡ n'.created
  packets : n.sent ≡ n'.sent
  listed : n.listed ≡ n'.listed
  current : n.current ≡ n'.current

receive-Like :
    (args : NetArgs) (p : ℕ) (bs : List ℕ) (n : Net)
    → Like (length bs) (handle args (receive p bs) n) n
unfolding handle sgl_net_get_fifo_upload
receive-Like args p bs n = record {
  low = λ i h. ground arith;
  high = λ i h. ground arith;
  peer_data = refl;
  created = refl;
  packets = refl;
  listed = refl;
  current = refl;
}

Like-id :
    {k : ℕ} {n n' : Net}
    → Like k n n'
    → read32 n.shared Reg.claim_id ≡ read32 n'.shared Reg.claim_id
Like-id {k} {n} {n'} l =
    read32-get n.shared n'.shared Reg.claim_id Reg.claim_id
      (λ i h. l.low (Reg.claim_id + i) (omega arith))

handle-Like :
    (args : NetArgs) (k : ℕ) (e : NetEvent) (n n' : Net)
    → Like k n n'
    → Like k (handle args e n) (handle args e n')
unfolding handle sgl_net_accept_connection sgl_net_get_fifo_upload store32
handle-Like args k (connect p) n n' l =
    let id = Like-id l in
    record {
      low = λ i h. ground (arith, id, l.low i h);
      high = λ i h. ground (arith, id, l.high i h);
      peer_data = λ i. set_data (l.peer_data i) p (l.created i);
      created = ap (λ c. c + 1) l.created;
      packets = λ i. (p, connect_bytes (welcome args (id i))) ∷ l.packets i;
      listed = l.listed;
      current = l.current;
    }
handle-Like args k (disconnect p) n n' l = l
handle-Like args k (disconnect_timeout p) n n' l = l
handle-Like args k (receive p bs) n n' l = record {
  low = λ i h. ground (arith, l.low i h);
  high = λ i h. ground (arith, l.high i h);
  peer_data = l.peer_data;
  created = l.created;
  packets = l.packets;
  listed = l.listed;
  current = l.current;
}

drain-Like :
    (args : NetArgs) (k : ℕ) (es : List NetEvent) (n n' : Net)
    → Like k n n'
    → Like k (drain args es n) (drain args es n')
unfolding drain
drain-Like args k [] n n' l = l
drain-Like args k (e ∷ es) n n' l =
    drain-Like args k es (handle args e n) (handle args e n') (handle-Like args k e n n' l)

-- A packet that covers the other leaves no difference.
covered :
    (args : NetArgs) (q : ℕ) (cs : List ℕ) (k : ℕ) (n n' : Net)
    → Like k n n'
    → k ≤ length cs
    → handle args (receive q cs) n ≡ handle args (receive q cs) n'
unfolding handle sgl_net_get_fifo_upload
covered args q cs k n n' l h =
    let same : overlay n.shared command_start cs ≡ overlay n'.shared command_start cs =
      fun_ext (λ i. ground (arith, l.low i, l.high i)) in
    λ i. record {
      shared = same i;
      peer_data = l.peer_data i;
      created = l.created i;
      sent = l.packets i;
      ready = true;
      out_ctx = l.peer_data i q;
      out_peer = some q;
      listed = l.listed i;
      current = l.current i;
    }

drain-lost :
    (args : NetArgs) (p q : ℕ) (bs cs : List ℕ) (before between after : List NetEvent) (n : Net)
    → length bs ≤ length cs
    → drain args (before ++ (receive p bs ∷ (between ++ (receive q cs ∷ after)))) n
      ≡ drain args (before ++ (between ++ (receive q cs ∷ after))) n
drain-lost args p q bs cs before between after n h =
    let m = drain args before n in
    let l =
      drain-Like args (length bs) between (handle args (receive p bs) m) m
        (receive-Like args p bs m) in
    drain-append args before (receive p bs ∷ (between ++ (receive q cs ∷ after))) n
    ∙ unfold drain in
      drain-append args between (receive q cs ∷ after) (handle args (receive p bs) m)
      ∙ (unfold drain in ap (drain args after) (covered args q cs (length bs) _ _ l h))
      ∙ sym (drain-append args between (receive q cs ∷ after) m)
      ∙ sym (drain-append args before (between ++ (receive q cs ∷ after)) n)

module _ (driver : List Effect → ℕ) (frame : List Effect → List ℕ) where
  -- A submission that is received in the first round that `wait_net` takes up, with a later one in
  -- the same round that is at least as long, is lost, whatever is received before, between and
  -- behind: the batch is the same as if it had never been sent.
  pub serve_net-lost :
      (words : ℕ) (args : NetArgs) (p q : ℕ) (bs cs : List ℕ) (before between after : List NetEvent)
      (rounds : List (List NetEvent)) (n : Net) (s : Server)
      → length bs ≤ length cs
      → serve_net driver frame words args
          ((before ++ (receive p bs ∷ (between ++ (receive q cs ∷ after)))) ∷ rounds)
          n
          s
        ≡ serve_net driver frame words args
            ((before ++ (between ++ (receive q cs ∷ after))) ∷ rounds)
            n
            s
  unfolding serve_net wait_net wait_rounds
  serve_net-lost words args p q bs cs before between after rounds n s h =
      rw
        (drain-lost args p q bs cs before between after
          (record n { ready = false; out_ctx = none; out_peer = none }) h)
        refl
