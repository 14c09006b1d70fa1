-- ===== src/Pb/Offsets.antt =====
-- Where a client's registers are: `pb_set_client` and `pb_resolve_offset` of src/client/pb.c.
use sharedgl.Prelude.{ℕ, ◌+◌, ◌≤◌, ◌<◌, ◌≡◌, ◌≢◌, true, false, arith}
use sharedgl.Layout.{
  client_slot_size, client_slot_offset, command_start, stage_offset, valid_client_id,
}
use sharedgl.Pb.{PushBuffer, pb_is_global_offset, pb_resolve_offset, pb_set_client}

-- An offset of a client's own page
pub record IsOwn (id : ℕ) (b : PushBuffer) (offs : ℕ) : Type 0 where
  pub own : pb_resolve_offset b offs ≡ client_slot_offset id + offs
  pub behind_registers : command_start ≤ pb_resolve_offset b offs
  pub before_stage : pb_resolve_offset b offs < stage_offset

pb_set_client-IsOwn :
    (id offs : ℕ) (b : PushBuffer)
    → valid_client_id id ≡ true
    → offs < client_slot_size
    → pb_is_global_offset offs ≡ false
    → IsOwn id (pb_set_client id b) offs
unfolding valid_client_id pb_resolve_offset pb_set_client
pb_set_client-IsOwn id offs b v h g = record {
  own = ground arith;
  behind_registers = ground arith;
  before_stage = ground arith;
}

-- Two clients in different slots, whatever registers that are not global they use: each finds its
-- own behind the global page and before the stage, and never the same byte as the other.
pub pb_resolve_offset-apart :
    (i j offs offs' : ℕ) (b c : PushBuffer)
    → valid_client_id i ≡ true
    → valid_client_id j ≡ true
    → i ≢ j
    → offs < client_slot_size
    → offs' < client_slot_size
    → pb_is_global_offset offs ≡ false
    → pb_is_global_offset offs' ≡ false
    → IsOwn i (pb_set_client i b) offs
      × IsOwn j (pb_set_client j c) offs'
      × (pb_resolve_offset (pb_set_client i b) offs ≢ pb_resolve_offset (pb_set_client j c) offs')
unfolding valid_client_id
pb_resolve_offset-apart i j offs offs' b c v w n h h' g g' =
    let one = pb_set_client-IsOwn i offs b v h g in
    let two = pb_set_client-IsOwn j offs' c w h' g' in
    (one, two, λ e. absurd (ground (arith, one.own, two.own, e)))
