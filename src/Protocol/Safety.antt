-- ===== src/Protocol/Safety.antt =====
-- What the clients and the server can rely on, in every reachable state.
use mathlib.Core.Path.{subst}
use sharedgl.Prelude.{ℕ, suc, ◌≤◌, ◌<◌, ◌≡◌, ◌⊎◌, true, false, Bool-cases, inl, inr, arith}
use sharedgl.Protocol.{Stream, executing, World, Reach}
use sharedgl.Protocol.Invariant.{stream_of, critical, raised, serves, rejects, IsRunning, Inv}
use sharedgl.Protocol.Rounds.{Reach-Inv}

-- Two clients are never both between `spin_lock` and `spin_unlock`, and while one is there the lock
-- word is 1.
pub mutual_exclusion :
    {fifo_size : ℕ} {w : World}
    → Reach fifo_size w
    → (i j : ℕ) → critical (w.clients i) ≡ true
    → critical (w.clients j) ≡ true
    → (i ≡ j) × (w.shared.lock ≡ true)
mutual_exclusion r i j c d = let inv = Reach-Inv r in (inv.alone i j c d, inv.locked i c)

-- The batch that the command loop runs is, byte for byte, what the client named by the id has
-- submitted; that client is waiting for it, and it is not larger than the stage.
pub record Untorn (fifo_size : ℕ) (w : World) (id n : ℕ) (exec : ℕ → ℕ) : Type 0 where
  pub waits : raised (w.clients id) ≡ true
  pub size : n ≡ (stream_of (w.clients id)).size
  pub bytes : (k : ℕ) → k < n → exec k ≡ (stream_of (w.clients id)).byte k
  pub fits : n ≤ fifo_size
  pub first_run : w.runs id ≡ w.asked id

-- However clients and server interleave, no submission is torn, mixed with another or run twice: the
-- batch that the command loop gets is exactly the stream of the client that it is run for, which
-- waits for it and has had every earlier submission run once.
pub executing-Untorn :
    {fifo_size : ℕ} {w : World}
    → Reach fifo_size w
    → (id n : ℕ) (exec : ℕ → ℕ) → w.server ≡ executing id n exec
    → Untorn fifo_size w id n exec
executing-Untorn {fifo_size} {w} r id n exec e = record {
  waits = run.0;
  size = run.3;
  bytes = inv.running_bytes id n exec e;
  fits = omega (arith, run.3, inv.small id);
  first_run = run.2;
}
  where
    inv : Inv fifo_size w
    inv = Reach-Inv r

    run : IsRunning w (executing id n exec)
    run = subst (λ x. IsRunning w x) e inv.running

-- What a client has when it returns from `submit_shm`.
pub record Answered (w : World) (i : ℕ) (s : Stream) (r : ℕ) : Type 0 where
  pub size : (w.last i).size ≡ s.size
  pub bytes : (k : ℕ) → k < s.size → (w.last i).byte k ≡ s.byte k
  pub result : (w.last i).result ≡ r
  pub once : w.runs i ≡ suc (w.asked i)

-- The server never drops a batch: the checks of the client id and the size never fail.
pub rejects-never : {fifo_size : ℕ} {w : World} → Reach fifo_size w → rejects w.server ≡ false
rejects-never r = (Reach-Inv r).accepts

-- No submission is lost: a client that waits with its flag up is the one that the raised SUBMIT
-- register names, or the one that the server runs or answers. When its flag is down, the result of
-- its batch is in its slot.
pub waiting-cases :
    {fifo_size : ℕ} {w : World}
    → Reach fifo_size w
    → (i : ℕ) → raised (w.clients i) ≡ true
    → ((w.shared.flag i ≡ true)
        × (((w.shared.submit ≡ true) × (w.shared.stage_client_id ≡ i))
            ⊎ (serves w.server i ≡ true)))
      ⊎ ((w.shared.flag i ≡ false)
          × (w.runs i ≡ suc (w.asked i))
          × (w.shared.retval i ≡ (w.last i).result))
waiting-cases {w = w} r i c =
    let inv = Reach-Inv r in
    elim (Bool-cases (w.shared.flag i)) [
      | inl f ↦ inl (f, inv.awaited i c f)
      | inr f ↦ inr (f, (inv.settled i c f).0, (inv.settled i c f).1)
    ]
