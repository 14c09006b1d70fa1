-- ===== src/Network.antt =====
-- The transport over the network: `wait_net` and the end of a batch of src/server/processor.c, and
-- `init_net`, `submit_net`, `glimpl_submit` and the register hooks of src/client/glimpl.c. What ENet
-- delivers is a list of events, in the order in which `__enet_host_service` returns them; the
-- packets that a side sends are a list, latest first.
pub mod Packet
pub mod Joining
pub mod Waiting
pub mod Lost
pub mod Session
pub mod Reply
mod Tests
use sharedgl.Prelude.{
  ℕ, zero, suc, ◌+◌, ◌*◌, ◌^◌, ◌%◌, Bool, true, false, Option, none, some, List, [], ◌∷◌, ◌++◌,
  ◌==◌, if◌then◌else◌,
}
use sharedgl.Memory.{Memory, overlay, read_bytes, read32, store32}
use sharedgl.Layout.{command_start}
use sharedgl.Layout.Reg
use sharedgl.Pb.{PushBuffer, pb_push, pb_reset, pb_set_net, pb_size}
use sharedgl.Pb.Stream.{in_mem, words_at}
use sharedgl.Server.{Effect, Server, Outcome, run, finished, failed, out_of_fuel}
use sharedgl.Network.Packet.{ConnectPacket, connect_bytes, connect_packet}

-- The event types that `wait_net` names; a peer is a number.
pub data NetEvent : Type 0 where
  connect : ℕ → NetEvent
  disconnect : ℕ → NetEvent
  disconnect_timeout : ℕ → NetEvent
  receive : ℕ → List ℕ → NetEvent

-- `peer_data` is `peer->data`; contexts are numbered as they are created. `current` is the context
-- that GL calls go to, and `listed` what `connection_current` finds for an id. `ready`, `out_ctx` and
-- `out_peer` are the locals that one call of `wait_net` sets.
pub record Net : Type 0 where
  pub shared : Memory
  pub peer_data : ℕ → Option ℕ
  pub created : ℕ
  pub sent : List (ℕ × List ℕ)
  pub ready : Bool
  pub out_ctx : Option ℕ
  pub out_peer : Option ℕ
  pub listed : ℕ → Option ℕ
  pub current : Option ℕ

-- The arguments that `wait_net` passes on.
pub record NetArgs : Type 0 where
  pub framebuffer_size : ℕ
  pub fifo_size : ℕ
  pub gl_major : ℕ
  pub gl_minor : ℕ
  pub width : ℕ
  pub height : ℕ

-- The packet for a client that gets `id`.
abbrev pub welcome : NetArgs → ℕ → ConnectPacket
welcome args id = record {
  client_id = id;
  framebuffer_size = args.framebuffer_size;
  fifo_size = args.fifo_size;
  gl_major = args.gl_major;
  gl_minor = args.gl_minor;
  max_width = args.width;
  max_height = args.height;
}

unfoldable pub sgl_net_accept_connection : NetArgs → ℕ → Net → Net
sgl_net_accept_connection args peer n =
    let id = read32 n.shared Reg.claim_id in
    record n {
      sent = (peer, connect_bytes (welcome args id)) ∷ n.sent;
      shared = store32 n.shared Reg.claim_id (id + 1);
    }

abbrev pub set_data : (ℕ → Option ℕ) → ℕ → ℕ → ℕ → Option ℕ
set_data old peer ctx p = if p == peer then some ctx else old p

unfoldable pub sgl_net_get_fifo_upload : List ℕ → Net → Net
sgl_net_get_fifo_upload bs n = record n { shared = overlay n.shared command_start bs }

-- The switch of `wait_net`. `sgl_context_create` ends the program where it fails.
unfoldable pub handle : NetArgs → NetEvent → Net → Net
handle args (connect peer) n =
    let accepted = sgl_net_accept_connection args peer n in
    record accepted {
      peer_data = set_data accepted.peer_data peer accepted.created;
      created = accepted.created + 1;
    }
handle args (disconnect peer) n = n
handle args (disconnect_timeout peer) n = n
handle args (receive peer bs) n =
    let uploaded = sgl_net_get_fifo_upload bs n in
    record uploaded { ready = true; out_ctx = uploaded.peer_data peer; out_peer = some peer }

-- The inner loop: the events that `__enet_host_service` returns until it has none.
unfoldable pub drain : NetArgs → List NetEvent → Net → Net
drain args [] n = n
drain args (e ∷ es) n = drain args es (handle args e n)

-- `wait_net` returns with the rounds that it has not asked for, or still waits when all are used.
pub data Waited : Type 0 where
  found : Net → List (List NetEvent) → Waited
  waiting : Net → Waited

-- The outer loop; each list is what one inner loop finds.
unfoldable pub wait_rounds : NetArgs → List (List NetEvent) → Net → Waited
wait_rounds args [] n = waiting n
wait_rounds args (es ∷ rounds) n =
    let rest = wait_rounds args rounds (drain args es n) in
    if (drain args es n).ready then found (drain args es n) rounds else rest

unfoldable pub wait_net : NetArgs → List (List NetEvent) → Net → Waited
wait_net args rounds n =
    wait_rounds args rounds (record n { ready = false; out_ctx = none; out_peer = none })

abbrev pub made_current : Option ℕ → Option ℕ → Option ℕ → Option ℕ
made_current (some ctx) listed old = some ctx
made_current none (some ctx) old = some ctx
made_current none none old = old

-- `sgl_set_current(net_ctx)`, or `connection_current(client_id)` where there is no context; in
-- network mode `client_id` is 0.
unfoldable pub set_current : Net → Net
set_current n = record n { current = made_current n.out_ctx (n.listed 0) n.current }

-- `struct sgl_packet_retval`, from the registers
unfoldable pub retval_packet : Memory → List ℕ
retval_packet p = read_bytes p Reg.retval 8 ++ read_bytes p Reg.retval_v 256

abbrev pub send : Option ℕ → List ℕ → List (ℕ × List ℕ) → List (ℕ × List ℕ)
send (some peer) bs old = (peer, bs) ∷ old
send none bs old = old

pub data NetBatch : Type 0 where
  answered : List (List NetEvent) → Net → Server → NetBatch
  starved : Net → NetBatch
  unfinished : NetBatch

-- The command loop reads the mapping itself; RETVAL is not reset.
abbrev pub net_started : Net → Server → Server
net_started n s = record s { retval = read32 n.shared Reg.retval; release_client_slot = 0 }

-- `driver` gives the values of the GL calls; `frame` is the compressed picture that
-- `sgl_net_send_framebuffer` sends.
module _ (driver : List Effect → ℕ) (frame : List Effect → List ℕ) where
  -- What follows the command loop in network mode. The command loop's RETVAL register is in the
  -- mapping.
  unfoldable pub net_answer : List (List NetEvent) → Net → Server → NetBatch
  net_answer rounds n s =
      let shared = store32 (store32 n.shared Reg.retval s.retval) Reg.submit 0 in
      let replied =
        if s.expecting_retval then send n.out_peer (retval_packet shared) n.sent else n.sent in
      let framed =
        if s.did_swap_buffers then send n.out_peer (frame s.trace) replied else replied in
      answered rounds (record n { shared = shared; sent = framed })
        (record s { expecting_retval = true; did_swap_buffers = false })

  abbrev pub net_finish : List (List NetEvent) → Net → Outcome → NetBatch
  net_finish rounds n (finished s ws) = net_answer rounds n s
  net_finish rounds n (failed e) = unfinished
  net_finish rounds n out_of_fuel = unfinished

  abbrev pub serve_waited : ℕ → Server → Waited → NetBatch
  serve_waited words s (found n rounds) =
      net_finish rounds (set_current n)
        (run driver (suc words) words (net_started n s) (words_at n.shared command_start words))
  serve_waited words s (waiting n) = starved n

  -- One batch in network mode; `words` is the number of words of the mapping from the commands on.
  unfoldable pub serve_net : ℕ → NetArgs → List (List NetEvent) → Net → Server → NetBatch
  serve_net words args rounds n s = serve_waited words s (wait_net args rounds n)

-- A client that uses the network. `fb_size` is the size of both framebuffers, and the maximal
-- dimensions are those of `icd_set_max_dimensions`.
pub record NetClient : Type 0 where
  pub client_id : ℕ
  pub fb_size : ℕ
  pub max_width : ℕ
  pub max_height : ℕ
  pub pb : PushBuffer
  pub fake_register_space : Memory
  pub expecting_retval : Bool
  pub glimpl_major : ℕ
  pub glimpl_minor : ℕ

-- `init_net` from the packet's bytes on: `b` is the push buffer before, `addr` what `mmap` returns
-- and `registers` what `malloc` leaves in the registers. `glimpl_init` has set `expecting_retval`.
-- The packet is destroyed before it is read: `destroy bs` is what its memory holds then.
unfoldable pub init_net : (List ℕ → List ℕ) → PushBuffer → ℕ → Memory → List ℕ → NetClient
init_net destroy b addr registers bs =
    let packet = connect_packet (destroy bs) in
    record {
      client_id = packet.client_id;
      fb_size = packet.framebuffer_size;
      max_width = packet.max_width;
      max_height = packet.max_height;
      pb = pb_set_net b addr packet.fifo_size;
      fake_register_space = registers;
      expecting_retval = true;
      glimpl_major = packet.gl_major;
      glimpl_minor = packet.gl_minor;
    }

-- What `__enet_host_service` of the client returns: a packet, any other result that is not
-- negative, or an error.
pub data ClientEvent : Type 0 where
  received : List ℕ → ClientEvent
  no_packet : ClientEvent
  service_error : ClientEvent

-- The loop of `submit_net` that waits for the answer: the registers, or `none` while it waits.
unfoldable pub await : List ClientEvent → Memory → Option Memory
await [] registers = none
await (received bs ∷ es) registers = some (overlay registers 0 bs)
await (no_packet ∷ es) registers = await es registers
await (service_error ∷ es) registers = some registers

abbrev pub after_await : NetClient → Option Memory → Option NetClient
after_await c none = none
after_await c (some registers) =
    some (record c { pb = pb_reset c.pb; fake_register_space = registers })

-- The packet that `submit_net` sends, and its state after the events.
unfoldable pub net_packet : NetClient → List ℕ
net_packet c = read_bytes (in_mem c.pb) 0 (pb_size c.pb)

unfoldable pub submit_net : List ClientEvent → NetClient → Option NetClient
submit_net es c =
    if c.expecting_retval
    then after_await c (await es c.fake_register_space)
    else some (record c { pb = pb_reset c.pb })

-- `sent packet c` is a submission whose client is `c` after the events. In network mode nothing
-- sets `ptr`, nor the hook of `pb_write`.
pub data NetSubmit : Type 0 where
  sent : List ℕ → Option NetClient → NetSubmit
  null_write : NetSubmit

abbrev pub net_ended : NetClient → NetClient
net_ended c = record c { pb = pb_push 0 c.pb }

-- `glimpl_submit` in network mode
unfoldable pub glimpl_submit_net : List ClientEvent → NetClient → NetSubmit
glimpl_submit_net es c =
    if (net_ended c).pb.write_overflowed
    then null_write
    else sent (net_packet (net_ended c)) (submit_net es (net_ended c))

-- `fake_register_space` is an array of `int`.
unfoldable pub pb_read_hook : NetClient → ℕ → ℕ
pb_read_hook c offset =
    if offset == Reg.retval
    then read32 c.fake_register_space 0
    else if offset == Reg.glmaj
    then c.glimpl_major
    else if offset == Reg.glmin
    then c.glimpl_minor
    else read32 c.fake_register_space (4 * offset)

-- What `pb_ptr_hook` points at: a byte of `fake_register_space`, the client's own flag, or a byte
-- of the push buffer.
pub data HookPtr : Type 0 where
  register_byte : ℕ → HookPtr
  swap_buffers_flag : HookPtr
  buffer_byte : ℕ → HookPtr

unfoldable pub pb_ptr_hook : ℕ → HookPtr
pb_ptr_hook offset =
    if offset == Reg.retval
    then register_byte 0
    else if offset == Reg.retval_v
    then register_byte 8
    else if offset == Reg.swap_buffers_sync
    then swap_buffers_flag
    else buffer_byte offset
