-- ===== src/Protocol/Tests.antt =====
-- Runs of two clients and the server, and the theorems at their states.
use sharedgl.Prelude.{ℕ, suc, ◌≡◌, ◌⊎◌, refl, true, false, arith}
use sharedgl.Layout.{valid_client_id}
use sharedgl.Protocol.{
  Stream, begin, take, busy, free, set_flag, copy, copied, name, size, raise, release, see, read,
  wake, read_id, read_size, accept, load, loaded, lower, reply, answer, update, World, client,
  serve, execute, Reach, start, later,
}
use sharedgl.Protocol.Invariant.{serves, rejects}
use sharedgl.Protocol.Safety.{
  mutual_exclusion, Untorn, executing-Untorn, rejects-never, waiting-cases,
}
use sharedgl.Protocol.Progress.{CanStep, reach-CanStep}

three : valid_client_id 3 ≡ true
unfolding valid_client_id
three = refl

five : valid_client_id 5 ≡ true
unfolding valid_client_id
five = refl

-- One byte
abbrev short : Stream
short = record { size = 1; byte = λ _. 7 }

-- Client 5 waits for the lock while client 3 writes the stage and raises SUBMIT.
contended : (w : World) × Reach 64 w
contended = (
  _,
  later
      (later
        (later
          (later
            (later
              (later
                (later
                  (later
                    (later (later start (client 3 three (begin {s = short} (omega arith))))
                      (client 5 five (begin {s = short} (omega arith))))
                    (client 3 three (take refl)))
                  (client 3 three (free refl)))
                (client 3 three set_flag))
              (client 3 three (copy (omega arith))))
            (client 3 three (copied (omega arith))))
          (client 3 three name))
        (client 3 three size))
      (client 3 three raise),
)

mutual_exclusion_example : (◌≡◌ {A = ℕ} 3 3) × (contended.0.shared.lock ≡ true)
unfolding contended
mutual_exclusion_example = mutual_exclusion contended.1 3 3 refl refl

-- Client 5 gets the lock, finds SUBMIT up and gives way; the server takes the batch up.
running : (w : World) × Reach 64 w
unfolding contended
running = (
  _,
  later
      (later
        (later
          (later
            (later
              (later
                (later
                  (later
                    (later (later contended.1 (client 3 three release)) (client 5 five (take refl)))
                    (client 5 five (busy refl)))
                  (serve (wake refl)))
                (serve read_id))
              (serve read_size))
            (serve (accept three (omega arith))))
          (serve (load (omega arith))))
        (serve (loaded (omega arith))))
      (serve lower),
)

executing-Untorn_example : Untorn 64 running.0 3 1 (update (λ _. 0) 0 7)
unfolding running contended
executing-Untorn_example = executing-Untorn running.1 3 1 (update (λ _. 0) 0 7) refl

waiting-cases_example :
    ((running.0.shared.flag 3 ≡ true)
      × (((running.0.shared.submit ≡ true) × (running.0.shared.stage_client_id ≡ 3))
          ⊎ (serves running.0.server 3 ≡ true)))
    ⊎ ((running.0.shared.flag 3 ≡ false)
        × (running.0.runs 3 ≡ suc (running.0.asked 3))
        × (running.0.shared.retval 3 ≡ (running.0.last 3).result))
unfolding running contended
waiting-cases_example = waiting-cases running.1 3 refl

reach-CanStep_example : CanStep 64 running.0
unfolding running contended
reach-CanStep_example = reach-CanStep running.1 5 refl

rejects-never_example : rejects running.0.server ≡ false
rejects-never_example = rejects-never running.1

-- The command loop leaves 42.
served : (w : World) × Reach 64 w
unfolding running contended
served = (
  _,
  later
      (later (later (later (later running.1 (execute 42 refl)) (serve reply)) (serve answer))
        (client 3 three (see refl)))
      (client 3 three read),
)
