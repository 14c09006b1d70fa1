-- ===== src/Network/Session.antt =====
-- A submission over the network from end to end.
use sharedgl.Prelude.{
  ℕ, ◌+◌, ◌*◌, ◌%◌, ◌^◌, ◌≤◌, ◌<◌, ◌≡◌, refl, ap, ◌∙◌, true, false, none, some, List, [], ◌∷◌, ◌++◌,
  length, arith, get_or, length-append,
}
use sharedgl.Memory.{Memory, overlay}
use sharedgl.Layout.{command_start}
use sharedgl.Layout.Reg
use sharedgl.Pb.{PushBuffer, pb_push, pb_size}
use sharedgl.Pb.Stream.{
  in_mem, words_at, push_all, AllWords, Streamed, push_all-Streamed, read_bytes-get,
  length-read_bytes,
}
use sharedgl.Server.{Server}
use sharedgl.Submit.Delivery.{words_at-same, push_all-snoc, AllWords-snoc}
use sharedgl.Network.{
  NetClient, ClientEvent, received, no_packet, await, net_packet, net_ended, NetSubmit,
  pb_read_hook,
}

-- A client that may submit: its buffer is empty.
pub record IsNetReady (c : NetClient) : Type 0 where
  pub empty : c.pb.in_cur ≡ 0
  pub no_overflow : c.pb.write_overflowed ≡ false
  pub small : c.pb.in_capacity < 2 ^ 31
  pub expecting : c.expecting_retval ≡ true

abbrev pub net_push : List ℕ → NetClient → NetClient
net_push ws c = record c { pb = push_all ws c.pb }

module _ (ws : List ℕ) (c : NetClient) (r : IsNetReady c) (h : AllWords ws)
    (room : 4 * (length ws + 1) ≤ c.pb.in_capacity) where
  abbrev ended : PushBuffer
  ended = pb_push 0 (push_all ws c.pb)

  ended-Streamed : Streamed c.pb ended (ws ++ (0 ∷ []))
  ended-Streamed = rw (← push_all-snoc ws 0 c.pb) (
      push_all-Streamed (ws ++ (0 ∷ [])) c.pb (AllWords-snoc ws h) (omega (arith, r.small))
        (omega (arith, r.empty, length-append ws (0 ∷ []))))

  ended-size : ended.in_cur ≡ 4 * (length ws + 1)
  ended-size = omega (arith, r.empty, ended-Streamed.cursor, length-append ws (0 ∷ []))

  pub ended-ok : ended.write_overflowed ≡ false
  ended-ok = ended-Streamed.flag ∙ r.no_overflow

  abbrev packet : List ℕ
  packet = net_packet (net_ended (net_push ws c))

  length-packet : length packet ≡ 4 * (length ws + 1)
  unfolding net_packet pb_size
  length-packet = length-read_bytes (in_mem ended) 0 ended.in_cur ∙ ended-size

  packet-get : (i : ℕ) → i < 4 * (length ws + 1) → get_or packet i 0 ≡ in_mem ended (0 + i)
  unfolding net_packet pb_size
  packet-get i q = read_bytes-get (in_mem ended) 0 ended.in_cur i (omega (arith, ended-size))

  -- Where the packet's bytes stand, there stands the stream.
  pub packet-words :
      (m : Memory)
      → ((i : ℕ) → i < length packet → m (command_start + i) ≡ get_or packet i 0)
      → words_at m command_start (length ws + 1) ≡ ws ++ (0 ∷ [])
  packet-words m q =
      words_at-same (length ws + 1) m (in_mem ended) command_start c.pb.in_cur (λ i k.
        q i (omega (arith, length-packet))
        ∙ packet-get i k
        ∙ ap (in_mem ended) (omega (arith, r.empty)))
      ∙ ap (words_at (in_mem ended) c.pb.in_cur) (omega (arith, length-append ws (0 ∷ [])))
      ∙ ended-Streamed.words

-- The client's events before the answer.
abbrev pub AllWaiting : List ClientEvent → Type 0
AllWaiting [] = Unit
AllWaiting (no_packet ∷ es) = AllWaiting es
AllWaiting (e ∷ es) = ⊥

pub await-received :
    (es : List ClientEvent) (bs : List ℕ) (m : Memory)
    → AllWaiting es
    → await (es ++ (received bs ∷ [])) m ≡ some (overlay m 0 bs)
unfolding await
await-received [] bs m h = refl
await-received (no_packet ∷ es) bs m h = await-received es bs m h
await-received (received cs ∷ es) bs m h = absurd h
await-received (ClientEvent.service_error ∷ es) bs m h = absurd h

-- What the client has when its submission returns: RETVAL and the values are those of the server's
-- registers `regs`, and its buffer is empty.
pub record HasReply (s : Server) (regs : Memory) (c : NetClient) : Type 0 where
  pub retval : pb_read_hook c Reg.retval ≡ s.retval % 2 ^ 32
  pub values : (i : ℕ) → i < 256 → c.fake_register_space (8 + i) ≡ regs (Reg.retval_v + i)
  pub empty : c.pb.in_cur ≡ 0
  pub no_overflow : c.pb.write_overflowed ≡ false

abbrev pub Returned : Server → Memory → NetSubmit → Type 0
Returned s regs (NetSubmit.sent bs (some c)) = HasReply s regs c
Returned s regs (NetSubmit.sent bs none) = ⊥
Returned s regs NetSubmit.null_write = ⊥
