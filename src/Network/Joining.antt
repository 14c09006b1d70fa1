-- ===== src/Network/Joining.antt =====
-- A client that joins over the network.
use sharedgl.Prelude.{
  ℕ, ◌+◌, ◌%◌, ◌^◌, ◌<◌, ◌≡◌, ◌≢◌, ◌≤◌, ◌⊎◌, refl, ap, ◌∙◌, sym, some, List, ◌∷◌, arith,
}
use sharedgl.Memory.{Memory, read32, store32, read32-store32_mod}
use sharedgl.Layout.Reg
use sharedgl.Pb.{PushBuffer, pb_set_net}
use sharedgl.Network.{connect, Net, NetArgs, handle, welcome, sgl_net_accept_connection, init_net}
use sharedgl.Network.Packet.{
  ConnectPacket, IsWide, connect_bytes, connect_packet, connect_packet-connect_bytes,
}
use sharedgl.Network.Session.{IsNetReady}

-- The server was `n` and is `n'`; it sent `bs`.
pub record Joined (args : NetArgs) (peer : ℕ) (n n' : Net) (bs : List ℕ) : Type 0 where
  pub sent : n'.sent ≡ (peer, bs) ∷ n.sent
  pub id : (connect_packet bs).client_id ≡ read32 n.shared Reg.claim_id
  pub next_id : read32 n'.shared Reg.claim_id ≡ ((connect_packet bs).client_id + 1) % 2 ^ 32
  pub fifo : (connect_packet bs).fifo_size ≡ args.fifo_size
  pub frames : (connect_packet bs).framebuffer_size ≡ args.framebuffer_size
  pub width : (connect_packet bs).max_width ≡ args.width
  pub height : (connect_packet bs).max_height ≡ args.height
  pub major : (connect_packet bs).gl_major ≡ args.gl_major
  pub minor : (connect_packet bs).gl_minor ≡ args.gl_minor
  pub context : n'.peer_data peer ≡ some n.created
  pub unused : n'.created ≡ n.created + 1
  pub others : (p : ℕ) → p ≢ peer → n'.peer_data p ≡ n.peer_data p
  pub elsewhere : (i : ℕ) → (i < Reg.claim_id) ⊎ (Reg.claim_id + 4 ≤ i) → n'.shared i ≡ n.shared i
  pub nothing_to_run : n'.ready ≡ n.ready

module _ (args : NetArgs) (peer : ℕ) (n : Net)
    (wide : IsWide (welcome args (read32 n.shared Reg.claim_id))) where
  abbrev packet : ConnectPacket
  packet = welcome args (read32 n.shared Reg.claim_id)

  -- When a peer connects, the server sends it a packet in which `struct sgl_packet_connect` reads
  -- the next id and the server's FIFO size, framebuffer size, dimensions and GL version. The id is
  -- used up and no other byte of the mapping has changed; the peer's connection has a new context,
  -- the other connections keep theirs, and there is nothing to run yet. The values fit the packet.
  pub handle-Joined : Joined args peer n (handle args (connect peer) n) (connect_bytes packet)
  unfolding handle sgl_net_accept_connection store32
  handle-Joined =
      let e = connect_packet-connect_bytes packet wide in
      record {
        sent = refl;
        id = ap (λ p. p.client_id) e;
        next_id =
            read32-store32_mod n.shared Reg.claim_id (read32 n.shared Reg.claim_id + 1)
            ∙ ap (λ p. (p.client_id + 1) % 2 ^ 32) (sym e);
        fifo = ap (λ p. p.fifo_size) e;
        frames = ap (λ p. p.framebuffer_size) e;
        width = ap (λ p. p.max_width) e;
        height = ap (λ p. p.max_height) e;
        major = ap (λ p. p.gl_major) e;
        minor = ap (λ p. p.gl_minor) e;
        context = ground arith;
        unused = refl;
        others = λ p q. ground (arith, q);
        elsewhere = λ i h. ground (arith, h);
        nothing_to_run = refl;
      }

-- `init_net` reads the packet after it has destroyed it. Where the memory still holds the packet, and
-- the FIFO is smaller than 2^31, the client may submit, with the id of the packet.
init_net-IsNetReady :
    (destroy : List ℕ → List ℕ) (b : PushBuffer) (addr : ℕ) (registers : Memory)
    (packet : ConnectPacket)
    → IsWide packet
    → packet.fifo_size < 2 ^ 31
    → destroy (connect_bytes packet) ≡ connect_bytes packet
    → IsNetReady (init_net destroy b addr registers (connect_bytes packet))
      × ((init_net destroy b addr registers (connect_bytes packet)).client_id ≡ packet.client_id)
unfolding init_net pb_set_net
init_net-IsNetReady destroy b addr registers packet wide small intact =
    let e : connect_packet (destroy (connect_bytes packet)) ≡ packet =
      ap connect_packet intact ∙ connect_packet-connect_bytes packet wide in
    (
      record {
        empty = refl;
        no_overflow = refl;
        small = omega (arith, ap (λ p. p.fifo_size) e);
        expecting = refl;
      },
      ap (λ p. p.client_id) e,
    )
