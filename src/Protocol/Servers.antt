-- ===== src/Protocol/Servers.antt =====
-- A step of the server, a run of the command loop and a client's return keep the invariant.
use sharedgl.Prelude.{ℕ, suc, ◌≤◌, ◌<◌, ◌≡◌, ◌⊎◌, refl, true, false, arith}
use sharedgl.Layout.{valid_client_id}
use sharedgl.Protocol.{
  Shared, ServerPc, checking_batch, lowering, executing, Serve, listen, wake, bad_id, too_large,
  refuse, load, loaded, lower, World,
}
use sharedgl.Protocol.Invariant.{
  stream_of, critical, staging, raised, progress, IsPlaced, serves, rejects, loaded_bytes, exec_of,
  IsFetched, IsRunning, IsPublished, Inv,
}

abbrev Guard :
    {fifo_size : ℕ} {m m' : Shared} {p p' : ServerPc} → Serve fifo_size m p m' p' → Type 0
Guard {m = m} (wake _) = m.submit ≡ true
Guard (bad_id {id} _) = valid_client_id id ≡ false
Guard {fifo_size} (too_large {id} {n} _ _) = fifo_size < n
Guard (load {id} {n} {k} _) = k < n
Guard (loaded {id} {n} {k} _) = n ≤ k
Guard _ = Unit

guard :
    {fifo_size : ℕ} {m m' : Shared} {p p' : ServerPc} (mv : Serve fifo_size m p m' p') → Guard mv
guard (wake g) = g
guard (bad_id g) = g
guard (too_large v g) = g
guard (load g) = g
guard (loaded g) = g
guard _ = tt

module _ {fifo_size : ℕ} {w : World} (inv : Inv fifo_size w) where
  open inv use {
    locked, lowered, placed, small, staged, published, published_bytes, awaited, settled, prior,
    accepts, fetched, running, running_bytes,
  }

  abbrev after : Shared → ServerPc → World
  after m' p' = record w { shared = m'; server = p' }

  IsFetched-at : (p : ServerPc) → w.server ≡ p → IsFetched w.shared p
  IsFetched-at p e = rw (← e) fetched

  Serve-locked :
      {p p' : ServerPc} {m' : Shared}
      → Serve fifo_size w.shared p m' p'
      → (j : ℕ) → critical (w.clients j) ≡ true
      → m'.lock ≡ true
  Serve-locked (listen g) j c = locked j c
  Serve-locked _ j c = locked j c

  Serve-held :
      {p p' : ServerPc} {m' : Shared}
      → Serve fifo_size w.shared p m' p'
      → m'.lock ≡ true
      → (j : ℕ) × (critical (w.clients j) ≡ true)
  Serve-held (listen g) c = inv.held c
  Serve-held _ c = inv.held c

  Serve-lowered :
      {p p' : ServerPc} {m' : Shared}
      → Serve fifo_size w.shared p m' p'
      → (j : ℕ) → staging (w.clients j) ≡ true
      → m'.submit ≡ false
  Serve-lowered (listen g) j c = lowered j c
  Serve-lowered _ j c = ground (arith, lowered j)

  Serve-IsPlaced :
      {p p' : ServerPc} {m' : Shared}
      → Serve fifo_size w.shared p m' p'
      → w.server ≡ p
      → (j : ℕ) → IsPlaced m' j (w.clients j)
  Serve-IsPlaced (listen g) e j = placed j
  Serve-IsPlaced mv e j = ground (arith, placed j, running, accepts)

  Serve-staged :
      {p p' : ServerPc} {m' : Shared}
      → Serve fifo_size w.shared p m' p'
      → (j k : ℕ) → k < progress (w.clients j)
      → m'.stage k ≡ (stream_of (w.clients j)).byte k
  Serve-staged (listen g) j k q = staged j k q
  Serve-staged _ j k q = staged j k q

  Serve-IsPublished :
      {p p' : ServerPc} {m' : Shared}
      → Serve fifo_size w.shared p m' p'
      → w.server ≡ p
      → m'.submit ≡ true
      → IsPublished fifo_size (after m' p') m'.stage_client_id
  Serve-IsPublished (listen g) e c = ground (arith, published c)
  Serve-IsPublished lower e c = cc
  Serve-IsPublished refuse e c = cc
  Serve-IsPublished mv e c = ground (arith, published c, accepts, running)

  Serve-published_bytes :
      {p p' : ServerPc} {m' : Shared}
      → Serve fifo_size w.shared p m' p'
      → m'.submit ≡ true
      → (k : ℕ) → k < m'.stage_size
      → m'.stage k ≡ (stream_of (w.clients m'.stage_client_id)).byte k
  Serve-published_bytes (listen g) c k q = published_bytes c k q
  Serve-published_bytes lower c k q = cc
  Serve-published_bytes refuse c k q = cc
  Serve-published_bytes _ c k q = published_bytes c k q

  Serve-awaited :
      {p p' : ServerPc} {m' : Shared}
      → Serve fifo_size w.shared p m' p'
      → w.server ≡ p
      → (j : ℕ) → raised (w.clients j) ≡ true
      → m'.flag j ≡ true
      → ((m'.submit ≡ true) × (m'.stage_client_id ≡ j)) ⊎ (serves p' j ≡ true)
  Serve-awaited (listen g) e j c f = ground (arith, awaited j)
  Serve-awaited mv e j c f = ground (arith, awaited j, fetched, accepts)

  Serve-settled :
      {p p' : ServerPc} {m' : Shared}
      → Serve fifo_size w.shared p m' p'
      → w.server ≡ p
      → (j : ℕ) → raised (w.clients j) ≡ true
      → m'.flag j ≡ false
      → (w.runs j ≡ suc (w.asked j)) × (m'.retval j ≡ (w.last j).result)
  Serve-settled (listen g) e j c f = ground (arith, settled j)
  Serve-settled mv e j c f = ground (arith, settled j, running, accepts)

  Serve-accepts :
      {p p' : ServerPc} {m' : Shared}
      → Serve fifo_size w.shared p m' p'
      → w.server ≡ p
      → rejects p' ≡ false
  Serve-accepts (listen g) e = refl
  Serve-accepts (bad_id {id} {n} g) e =
      let f = IsFetched-at (checking_batch id n) e in ground (arith, g, f, (published f.0).valid)
  Serve-accepts (too_large {id} {n} v g) e =
      let f = IsFetched-at (checking_batch id n) e in
      ground (arith, g, f, (published f.0).size, small w.shared.stage_client_id)
  Serve-accepts mv e = ground (arith, accepts)

  Serve-IsFetched :
      {p p' : ServerPc} {m' : Shared}
      → Serve fifo_size w.shared p m' p'
      → w.server ≡ p
      → IsFetched m' p'
  Serve-IsFetched (listen g) e = tt
  Serve-IsFetched mv e = ground (arith, guard mv, fetched)

  Serve-loaded :
      {p p' : ServerPc} {m' : Shared}
      → Serve fifo_size w.shared p m' p'
      → w.server ≡ p
      → (k : ℕ) → k < loaded_bytes p'
      → exec_of p' k ≡ m'.stage k
  Serve-loaded (listen g) e k q = absurd (omega arith)
  Serve-loaded mv e k q = ground (arith, guard mv, inv.loaded k)

  Serve-running :
      {p p' : ServerPc} {m' : Shared}
      → Serve fifo_size w.shared p m' p'
      → w.server ≡ p
      → IsRunning (after m' p') p'
  Serve-running (listen g) e = tt
  Serve-running (lower {id} {n} {exec}) e =
      let f = IsFetched-at (lowering id n exec) e in ground (arith, f, published f.0)
  Serve-running mv e = ground (arith, running)

  Serve-running_bytes :
      {p p' : ServerPc} {m' : Shared}
      → Serve fifo_size w.shared p m' p'
      → w.server ≡ p
      → (i m : ℕ) (x : ℕ → ℕ) → p' ≡ executing i m x
      → (k : ℕ) → k < m
      → x k ≡ (stream_of (w.clients i)).byte k
  Serve-running_bytes (listen g) e i m x f k q = cc
  Serve-running_bytes (lower {id} {n} {exec}) e i m x f k q =
      let g = IsFetched-at (lowering id n exec) e in
      ground (arith, g, f, published_bytes g.0 k, inv.loaded k)
  Serve-running_bytes mv e i m x f k q = cc

  pub Serve-Inv :
      {m' : Shared} {p' : ServerPc}
      → Serve fifo_size w.shared w.server m' p'
      → Inv fifo_size (after m' p')
  Serve-Inv mv = record {
    locked = Serve-locked mv;
    held = Serve-held mv;
    members = inv.members;
    alone = inv.alone;
    lowered = Serve-lowered mv;
    placed = Serve-IsPlaced mv refl;
    small = small;
    staged = Serve-staged mv;
    published = Serve-IsPublished mv refl;
    published_bytes = Serve-published_bytes mv;
    awaited = Serve-awaited mv refl;
    settled = Serve-settled mv refl;
    prior = prior;
    returned = inv.returned;
    accepts = Serve-accepts mv refl;
    fetched = Serve-IsFetched mv refl;
    loaded = Serve-loaded mv refl;
    running = Serve-running mv refl;
    running_bytes = Serve-running_bytes mv refl;
    ran_size = inv.ran_size;
    ran_bytes = inv.ran_bytes;
  }
