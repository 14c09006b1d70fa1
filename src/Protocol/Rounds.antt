-- ===== src/Protocol/Rounds.antt =====
-- A run of the command loop and a client's return keep the invariant; so does every step.
use sharedgl.Prelude.{ℕ, suc, ◌≡◌, refl, ◌==◌, arith, Bool-cases, inl, inr}
use sharedgl.Protocol.{
  Stream, idle, answered, executing, replying, World, update, init, Step, client, return, serve,
  execute, Reach, start, later,
}
use sharedgl.Protocol.Invariant.{Inv}
use sharedgl.Protocol.Clients.{Move-Inv}
use sharedgl.Protocol.Servers.{Serve-Inv}

module _ {fifo_size : ℕ} {w : World} (inv : Inv fifo_size w) where
  open inv use {
    locked, alone, lowered, placed, small, staged, published, published_bytes, awaited, settled,
    prior, accepts, fetched, loaded, running, running_bytes, ran_size, ran_bytes, returned,
  }

  return-Inv :
      (i : ℕ) (s : Stream) (r : ℕ)
      → w.clients i ≡ answered s r
      → Inv fifo_size (record w {
        clients = update w.clients i idle;
        asked = update w.asked i (suc (w.asked i));
      })
  return-Inv i s r e = record {
    locked = λ j c. ground (arith, locked j);
    held = λ c. let (j, h) = inv.held c in (j, ground (arith, h, e));
    members = λ j c. ground (arith, inv.members j);
    alone = λ a b c d. ground (arith, alone a b);
    lowered = λ j c. ground (arith, lowered j);
    placed = λ j. ground (arith, placed j);
    small = λ j. ground (arith, small j);
    staged = λ j k q. ground (arith, staged j k);
    published = λ c. ground (arith, published c);
    published_bytes = λ c k q. ground (arith, published_bytes c k, published c);
    awaited = λ j c f. ground (arith, awaited j);
    settled = λ j c f. ground (arith, settled j);
    prior = λ j c f. ground (arith, prior j, returned i s r e);
    returned = λ j u v f. ground (arith, returned j u v);
    accepts = accepts;
    fetched = fetched;
    loaded = loaded;
    running = ground (arith, running);
    running_bytes = λ id n exec f k q. ground (arith, running_bytes id n exec f k, running);
    ran_size = λ j c. ground (arith, ran_size j, returned i s r e);
    ran_bytes = λ j c k q.
        let c' : w.runs j ≡ suc (w.asked j) = ground (arith, c, returned i s r e) in
        ground (arith, c, returned i s r e, ran_bytes j c' k q);
  }

  execute-Inv :
      (id n : ℕ) (exec : ℕ → ℕ) (r : ℕ)
      → w.server ≡ executing id n exec
      → Inv fifo_size (record w {
        server = replying id r;
        runs = update w.runs id (suc (w.runs id));
        last = update w.last id (record { size = n; byte = exec; result = r });
      })
  execute-Inv id n exec r e = record {
    locked = locked;
    held = inv.held;
    members = inv.members;
    alone = alone;
    lowered = lowered;
    placed = placed;
    small = small;
    staged = staged;
    published = λ c. ground (arith, published c);
    published_bytes = published_bytes;
    awaited = λ j c f. ground (arith, awaited j);
    settled = λ j c f. ground (arith, settled j, running);
    prior = λ j c f. ground (arith, prior j, running);
    returned = λ j u v f. ground (arith, returned j u v, running);
    accepts = refl;
    fetched = tt;
    loaded = λ k q. absurd (omega arith);
    running = ground (arith, running);
    running_bytes = λ j m x f k q. cc;
    ran_size = λ j c. ground (arith, ran_size j, running);
    ran_bytes = λ j c k q. elim (Bool-cases (id == j)) [
      | inl h ↦ ground (arith, h, running_bytes id n exec e k)
      | inr h ↦
          let c' : w.runs j ≡ suc (w.asked j) = ground (arith, h, c) in
          ground (arith, h, ran_bytes j c' k)
    ];
  }

Inv-init : (fifo_size : ℕ) → Inv fifo_size init
Inv-init fifo_size = record {
  locked = λ i c. cc;
  held = λ c. absurd (cc);
  members = λ i c. absurd (cc);
  alone = λ i j c d. cc;
  lowered = λ i c. refl;
  placed = λ i. tt;
  small = λ i. omega arith;
  staged = λ i k q. absurd (omega arith);
  published = λ c. cc;
  published_bytes = λ c k q. cc;
  awaited = λ i c f. cc;
  settled = λ i c f. cc;
  prior = λ i c f. refl;
  returned = λ i s r c. cc;
  accepts = refl;
  fetched = tt;
  loaded = λ k q. absurd (omega arith);
  running = tt;
  running_bytes = λ id n exec f k q. cc;
  ran_size = λ i c. absurd (omega (arith, c));
  ran_bytes = λ i c k q. refl;
}

Step-Inv : {fifo_size : ℕ} {w w' : World} → Step fifo_size w w' → Inv fifo_size w → Inv fifo_size w'
Step-Inv (client i v mv) inv = Move-Inv inv i v mv
Step-Inv (return i {s} {r} e) inv = return-Inv inv i s r e
Step-Inv (serve mv) inv = Serve-Inv inv mv
Step-Inv (execute {id} {n} {exec} r e) inv = execute-Inv inv id n exec r e

-- Every reachable state has the invariant.
pub Reach-Inv : {fifo_size : ℕ} {w : World} → Reach fifo_size w → Inv fifo_size w
Reach-Inv {fifo_size} start = Inv-init fifo_size
Reach-Inv (later r st) = Step-Inv st (Reach-Inv r)
