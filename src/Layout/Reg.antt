-- ===== src/Layout/Reg.antt =====
-- The register offsets of inc/sharedgl.h, in bytes.
use sharedgl.Prelude.{ℕ, ◌*◌}

abbrev pub submit : ℕ
submit = 4 * 0

abbrev pub retval : ℕ
retval = 4 * 1

abbrev pub ready_hint : ℕ
ready_hint = 4 * 2

abbrev pub shm_slot_mask : ℕ
shm_slot_mask = ready_hint

abbrev pub lock : ℕ
lock = 4 * 3

abbrev pub claim_id : ℕ
claim_id = 4 * 4

abbrev pub connect : ℕ
connect = 4 * 5

abbrev pub fbstart : ℕ
fbstart = 4 * 6

abbrev pub memsize : ℕ
memsize = 4 * 8

abbrev pub swap_buffers_sync : ℕ
swap_buffers_sync = 4 * 10

abbrev pub glmaj : ℕ
glmaj = 4 * 11

abbrev pub glmin : ℕ
glmin = 4 * 12

abbrev pub retval_v : ℕ
retval_v = 4 * 13

abbrev pub stage_client_id : ℕ
stage_client_id = 4 * 14

abbrev pub stage_size : ℕ
stage_size = 4 * 15

abbrev pub fifo_size : ℕ
fifo_size = 4 * 16

abbrev pub max_clients : ℕ
max_clients = 4 * 17
