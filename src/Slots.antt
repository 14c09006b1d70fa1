-- ===== src/Slots.antt =====
-- Shared-memory slots: `shm_claim_slot` of src/client/glimpl.c and `sgl_release_client_slot` of
-- src/server/processor.c. A set bit `id - 1` of the mask register says that slot `id` is taken.
-- Both run under the global spin lock, so each is one step on the shared memory.
pub mod Claim
mod Tests
use Prim.Native.Nat.{bit_and, bit_or}
use sharedgl.Prelude.{ℕ, zero, suc, ◌+◌, ◌-◌, ◌*◌, ◌^◌, ltb, ◌==◌, if◌then◌else◌}
use sharedgl.Prelude.Bits.{all_but}
use sharedgl.Memory.{Memory, clear, read32, store32}
use sharedgl.Layout.{client_slot_size, client_slot_offset, int_sign, valid_client_id}
use sharedgl.Layout.Reg
use sharedgl.Pb.{PushBuffer, pb_global_read, pb_global_write}

-- `SGL_SHM_SLOT_BIT`, for an id from 1 to 32
abbrev pub shm_slot_bit : ℕ → ℕ
shm_slot_bit id = 2 ^ (id - 1)

-- The loop, with `n` rounds left from `slot` on.
unfoldable pub claim_from : ℕ → ℕ → ℕ → PushBuffer → ℕ × PushBuffer
claim_from zero slot slot_mask b = (0, b)
claim_from (suc n) slot slot_mask b =
    let rest = claim_from n (slot + 1) slot_mask b in
    let slot_bit = shm_slot_bit slot in
    if bit_and slot_mask slot_bit == 0
    then (slot, pb_global_write b Reg.shm_slot_mask (bit_or slot_mask slot_bit))
    else rest

-- The rounds of the loop: none for a negative `max_slots`, and at most the bits of the mask.
unfoldable pub slot_rounds : ℕ → ℕ
slot_rounds max_slots = if int_sign max_slots then 0 else if ltb 32 max_slots then 32 else max_slots

unfoldable pub shm_claim_slot : PushBuffer → ℕ × PushBuffer
shm_claim_slot b =
    let slot_mask = pb_global_read b Reg.shm_slot_mask in
    let max_slots = pb_global_read b Reg.max_clients in
    claim_from (slot_rounds max_slots) 1 slot_mask b

-- `sgl_spin_lock` waits for a lock word of 0 and writes 1; `sgl_spin_unlock` writes 0.
unfoldable pub sgl_spin_lock : Memory → Memory
sgl_spin_lock shared = store32 shared Reg.lock 1

unfoldable pub sgl_spin_unlock : Memory → Memory
sgl_spin_unlock shared = store32 shared Reg.lock 0

unfoldable pub sgl_release_client_slot : Memory → ℕ → Memory
sgl_release_client_slot shared client_id =
    if valid_client_id client_id
    then (let locked = sgl_spin_lock shared in
        let cleared = clear locked (client_slot_offset client_id) client_slot_size in
        let slot_mask = bit_and (read32 cleared Reg.shm_slot_mask) (all_but 32 (client_id - 1)) in
        sgl_spin_unlock (store32 cleared Reg.shm_slot_mask slot_mask))
    else shared
