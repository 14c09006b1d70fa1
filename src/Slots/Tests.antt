-- ===== src/Slots/Tests.antt =====
-- Tests and instances for the shared-memory slots.
use sharedgl.Prelude.{◌≡◌, refl, true, arith}
use sharedgl.Memory.{Memory, read32, store32}
use sharedgl.Layout.{valid_client_id}
use sharedgl.Layout.Reg
use sharedgl.Pb.{PushBuffer, pb_global_read}
use sharedgl.Pb.Tests.{fresh}
use sharedgl.Slots.{claim_from, slot_rounds, shm_claim_slot, sgl_release_client_slot}
use sharedgl.Slots.Claim.{
  IsBytes, Outcome, shm_claim_slot-Outcome, Released, sgl_release_client_slot-Released,
}

-- Slots 1 and 2 are taken, out of 16.
abbrev two_taken : Memory
two_taken = store32 (store32 (λ _. 0) Reg.shm_slot_mask 3) Reg.max_clients 16

two_taken-IsBytes : IsBytes two_taken
unfolding store32
two_taken-IsBytes i = ground arith

abbrev joining : PushBuffer
joining = record fresh { shared = two_taken }

shm_claim_slot-Outcome_example :
    Outcome (slot_rounds (pb_global_read joining Reg.max_clients)) joining (shm_claim_slot joining)
shm_claim_slot-Outcome_example = shm_claim_slot-Outcome joining two_taken-IsBytes

claimed_run : (shm_claim_slot joining).0 ≡ 3
unfolding shm_claim_slot claim_from slot_rounds pb_global_read read32 store32
claimed_run = refl

two-valid : valid_client_id 2 ≡ true
unfolding valid_client_id
two-valid = refl

sgl_release_client_slot-Released_example :
    Released two_taken (sgl_release_client_slot two_taken 2) 2
sgl_release_client_slot-Released_example =
    sgl_release_client_slot-Released two_taken 2 two-valid two_taken-IsBytes
