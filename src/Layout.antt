-- ===== src/Layout.antt =====
-- The shared mapping of inc/sharedgl.h: a page of global registers, a page for each client slot,
-- and the staging area that the push buffer is copied to.
pub mod Reg
use sharedgl.Prelude.{ℕ, ◌+◌, ◌-◌, ◌*◌, ◌^◌, ◌/◌, ◌%◌, Bool, ◌==◌, leb, ◌&&◌}

-- `size_t` and `uint32_t` arithmetic is modulo these.
abbrev pub size_mod : ℕ
size_mod = 2 ^ 64

abbrev pub u32_mod : ℕ
u32_mod = 2 ^ 32

abbrev pub command_start : ℕ
command_start = 0x1000

abbrev pub client_slot_size : ℕ
client_slot_size = command_start

abbrev pub max_clients : ℕ
max_clients = 16

abbrev pub mailboxes_offset : ℕ
mailboxes_offset = command_start

abbrev pub mailboxes_size : ℕ
mailboxes_size = client_slot_size * max_clients

abbrev pub stage_offset : ℕ
stage_offset = mailboxes_offset + mailboxes_size

-- `SGL_CLIENT_SLOT_OFFSET`, in `size_t` arithmetic, for an id that is at least 1.
abbrev pub client_slot_offset : ℕ → ℕ
client_slot_offset id = mailboxes_offset + (id - 1) * client_slot_size

-- `CEIL_DIV` at `size_t`.
abbrev pub ceil_div : ℕ → ℕ → ℕ
ceil_div n d = (n + d - 1) % size_mod / d

-- A C `int` is kept as its bit pattern, below 2^32. It is at most 0 when it is 0 or has its sign
-- bit set.
abbrev pub int_sign : ℕ → Bool
int_sign w = leb (2 ^ 31) w

-- `client_id > 0 && client_id <= SGL_MAX_CLIENTS` of the server
unfoldable pub valid_client_id : ℕ → Bool
valid_client_id id = leb 1 id && leb id max_clients
