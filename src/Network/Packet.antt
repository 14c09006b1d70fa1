-- ===== src/Network/Packet.antt =====
-- The packets of inc/network/packet.h: what the server sends to a client that connects, and what
-- `init_net` of src/client/glimpl.c reads of it.
use sharedgl.Prelude.{ℕ, ◌+◌, ◌*◌, ◌/◌, ◌%◌, ◌^◌, ◌<◌, ◌≡◌, ◌∙◌, List, ◌++◌, get_or, arith}
use mathlib.Core.Path.{ap₂}
use sharedgl.Memory.{Memory, bytes32, bytes64, read32}

-- `struct sgl_packet_connect`
pub record ConnectPacket : Type 0 where
  pub client_id : ℕ
  pub framebuffer_size : ℕ
  pub fifo_size : ℕ
  pub gl_major : ℕ
  pub gl_minor : ℕ
  pub max_width : ℕ
  pub max_height : ℕ

-- The packed struct, as it is sent.
unfoldable pub connect_bytes : ConnectPacket → List ℕ
connect_bytes p =
    bytes32 p.client_id
    ++ bytes64 p.framebuffer_size
    ++ bytes64 p.fifo_size
    ++ bytes32 p.gl_major
    ++ bytes32 p.gl_minor
    ++ bytes32 p.max_width
    ++ bytes32 p.max_height

abbrev read64 : Memory → ℕ → ℕ
read64 m o = read32 m o + 2 ^ 32 * read32 m (o + 4)

-- The members behind a pointer to the packet's data.
unfoldable pub connect_packet : List ℕ → ConnectPacket
connect_packet bs =
    let m : Memory = λ i. get_or bs i 0 in
    record {
      client_id = read32 m 0;
      framebuffer_size = read64 m 4;
      fifo_size = read64 m 12;
      gl_major = read32 m 20;
      gl_minor = read32 m 24;
      max_width = read32 m 28;
      max_height = read32 m 32;
    }

-- The members fit their types.
pub record IsWide (p : ConnectPacket) : Type 0 where
  pub client_id : p.client_id < 2 ^ 32
  pub framebuffer_size : p.framebuffer_size < 2 ^ 64
  pub fifo_size : p.fifo_size < 2 ^ 64
  pub gl_major : p.gl_major < 2 ^ 32
  pub gl_minor : p.gl_minor < 2 ^ 32
  pub max_width : p.max_width < 2 ^ 32
  pub max_height : p.max_height < 2 ^ 32

join32 :
    (w : ℕ)
    → w % 256 + 256 * (w / 256 % 256) + 65536 * (w / 65536 % 256) + 16777216 * (w / 16777216 % 256)
      ≡ w % 2 ^ 32
join32 w = omega arith

fits32 : (w : ℕ) → w < 2 ^ 32 → w % 2 ^ 32 ≡ w
fits32 w h = omega arith

join64 : (w : ℕ) → w < 2 ^ 64 → w % 2 ^ 32 % 2 ^ 32 + 2 ^ 32 * (w / 2 ^ 32 % 2 ^ 32) ≡ w
join64 w h = omega arith

-- The value of a word's four bytes.
abbrev joined : ℕ → ℕ
joined w =
    w % 256 + 256 * (w / 256 % 256) + 65536 * (w / 65536 % 256) + 16777216 * (w / 16777216 % 256)

join_size : (w : ℕ) → w < 2 ^ 64 → joined (w % 2 ^ 32) + 2 ^ 32 * joined (w / 2 ^ 32) ≡ w
join_size w h = ap₂ (λ a b. a + 2 ^ 32 * b) (join32 (w % 2 ^ 32)) (join32 (w / 2 ^ 32)) ∙ join64 w h

-- The client reads what the server wrote.
pub connect_packet-connect_bytes :
    (p : ConnectPacket) → IsWide p → connect_packet (connect_bytes p) ≡ p
unfolding connect_packet connect_bytes read32
connect_packet-connect_bytes p w =
    let size = join_size p.framebuffer_size w.framebuffer_size in
    let capacity = join_size p.fifo_size w.fifo_size in
    λ i. record {
      client_id = (join32 p.client_id ∙ fits32 p.client_id w.client_id) i;
      framebuffer_size = size i;
      fifo_size = capacity i;
      gl_major = (join32 p.gl_major ∙ fits32 p.gl_major w.gl_major) i;
      gl_minor = (join32 p.gl_minor ∙ fits32 p.gl_minor w.gl_minor) i;
      max_width = (join32 p.max_width ∙ fits32 p.max_width w.max_width) i;
      max_height = (join32 p.max_height ∙ fits32 p.max_height w.max_height) i;
    }
