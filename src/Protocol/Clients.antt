-- ===== src/Protocol/Clients.antt =====
-- A client's step keeps each field of the invariant.
use sharedgl.Prelude.{ℕ, suc, ◌≤◌, ◌<◌, ◌≡◌, ◌⊎◌, refl, true, false, arith}
use sharedgl.Layout.{valid_client_id}
use sharedgl.Protocol.{
  Stream, Shared, Pc, answered, Move, begin, take, busy, unlock, retry, free, copy, copied, raise,
  release, oversize, see, ServerPc, listening, executing, replying, answering, World, update,
}
use sharedgl.Protocol.Invariant.{
  stream_of, critical, staging, raised, is_idle, is_answered, progress, IsPlaced, serves,
  loaded_bytes, exec_of, IsFetched, IsRunning, IsPublished, Inv,
}

-- The premise of a move.
abbrev Guard : {fifo_size i : ℕ} {m m' : Shared} {p p' : Pc} → Move fifo_size i m p m' p' → Type 0
Guard {fifo_size} (begin {s} _) = s.size ≤ fifo_size
Guard {m = m} (take _) = m.lock ≡ false
Guard {m = m} (busy _) = m.submit ≡ true
Guard {m = m} (retry _) = m.submit ≡ false
Guard {m = m} (free _) = m.submit ≡ false
Guard (copy {s} {k} _) = k < s.size
Guard (copied {s} {k} _) = s.size ≤ k
Guard {fifo_size} (oversize s _) = fifo_size < s.size
Guard {i = i} {m = m} (see _) = m.flag i ≡ false
Guard _ = Unit

guard : {fifo_size i : ℕ} {m m' : Shared} {p p' : Pc} (mv : Move fifo_size i m p m' p') → Guard mv
guard (begin g) = g
guard (take g) = g
guard (busy g) = g
guard (retry g) = g
guard (free g) = g
guard (copy g) = g
guard (copied g) = g
guard (oversize s g) = g
guard (see g) = g
guard _ = tt

-- The client that the server serves has raised SUBMIT.
pub serves-raised :
    (w : World) (i : ℕ) (sp : ServerPc)
    → IsRunning w sp
    → serves sp i ≡ true
    → raised (w.clients i) ≡ true
serves-raised w i listening r h = cc
serves-raised w i (executing id n exec) r h = ground (arith, r, h)
serves-raised w i (replying id v) r h = ground (arith, r, h)
serves-raised w i (answering id v) r h = ground (arith, r, h)
serves-raised w i _ r h = cc

module _ {fifo_size : ℕ} {w : World} (inv : Inv fifo_size w) (i : ℕ) where
  open inv use {
    locked, alone, lowered, placed, small, staged, published, published_bytes, awaited, settled,
    prior, returned, fetched, loaded, running, running_bytes, ran_size, ran_bytes,
  }

  Move-locked :
      {p p' : Pc} {m' : Shared}
      → Move fifo_size i w.shared p m' p'
      → w.clients i ≡ p
      → (j : ℕ) → critical (update w.clients i p' j) ≡ true
      → m'.lock ≡ true
  Move-locked (begin g) e j c = ground (arith, locked j)
  Move-locked mv e j c = ground (arith, guard mv, locked j, locked i, alone i j)

  Move-held :
      {p p' : Pc} {m' : Shared}
      → Move fifo_size i w.shared p m' p'
      → w.clients i ≡ p
      → m'.lock ≡ true
      → (j : ℕ) × (critical (update w.clients i p' j) ≡ true)
  Move-held (take g) e c = (i, ground arith)
  Move-held unlock e c = absurd (cc)
  Move-held release e c = absurd (cc)
  Move-held mv e c = let (j, h) = inv.held c in (j, ground (arith, guard mv, h, e))

  Move-members :
      {p p' : Pc} {m' : Shared}
      → Move fifo_size i w.shared p m' p'
      → valid_client_id i ≡ true
      → (j : ℕ) → is_idle (update w.clients i p' j) ≡ false
      → valid_client_id j ≡ true
  Move-members (begin g) v j c = ground (arith, v, inv.members j)
  Move-members _ v j c = ground (arith, v, inv.members j)

  Move-alone :
      {p p' : Pc} {m' : Shared}
      → Move fifo_size i w.shared p m' p'
      → w.clients i ≡ p
      → (a b : ℕ) → critical (update w.clients i p' a) ≡ true
      → critical (update w.clients i p' b) ≡ true
      → a ≡ b
  Move-alone (begin g) e a b c d = ground (arith, alone a b)
  Move-alone mv e a b c d = ground (arith, guard mv, alone a b, locked a, locked b)

  Move-lowered :
      {p p' : Pc} {m' : Shared}
      → Move fifo_size i w.shared p m' p'
      → w.clients i ≡ p
      → (j : ℕ) → staging (update w.clients i p' j) ≡ true
      → m'.submit ≡ false
  Move-lowered (begin g) e j c = ground (arith, lowered j)
  Move-lowered mv e j c = ground (arith, guard mv, lowered j, lowered i, alone i j)

  Move-IsPlaced :
      {p p' : Pc} {m' : Shared}
      → Move fifo_size i w.shared p m' p'
      → w.clients i ≡ p
      → (j : ℕ) → IsPlaced m' j (update w.clients i p' j)
  Move-IsPlaced (begin g) e j = ground (arith, placed j)
  Move-IsPlaced mv e j = ground (arith, guard mv, placed j, placed i, alone i j)

  Move-small :
      {p p' : Pc} {m' : Shared}
      → Move fifo_size i w.shared p m' p'
      → w.clients i ≡ p
      → (j : ℕ) → (stream_of (update w.clients i p' j)).size ≤ fifo_size
  Move-small (begin g) e j = ground (arith, small j)
  Move-small mv e j = ground (arith, guard mv, small j, small i)

  Move-staged :
      {p p' : Pc} {m' : Shared}
      → Move fifo_size i w.shared p m' p'
      → w.clients i ≡ p
      → (j k : ℕ) → k < progress (update w.clients i p' j)
      → m'.stage k ≡ (stream_of (update w.clients i p' j)).byte k
  Move-staged (begin g) e j k q = ground (arith, staged j k)
  Move-staged mv e j k q = ground (arith, guard mv, staged j k, staged i k, alone i j)

  abbrev after : Shared → Pc → World
  after m' p' = record w { shared = m'; clients = update w.clients i p' }

  Move-IsPublished :
      {p p' : Pc} {m' : Shared}
      → Move fifo_size i w.shared p m' p'
      → valid_client_id i ≡ true
      → w.clients i ≡ p
      → m'.submit ≡ true
      → IsPublished fifo_size (after m' p') m'.stage_client_id
  Move-IsPublished (raise {s}) v e c =
      ground (arith, v, placed i, prior i, serves-raised w i w.server running)
  Move-IsPublished mv v e c = ground (arith, guard mv, published c, lowered i, placed i)

  Move-published_bytes :
      {p p' : Pc} {m' : Shared}
      → Move fifo_size i w.shared p m' p'
      → w.clients i ≡ p
      → m'.submit ≡ true
      → (k : ℕ) → k < m'.stage_size
      → m'.stage k ≡ (stream_of (update w.clients i p' m'.stage_client_id)).byte k
  Move-published_bytes (raise {s}) e c k q = ground (arith, placed i, staged i k)
  Move-published_bytes mv e c k q =
      ground (arith, guard mv, published_bytes c k, published c, lowered i)

  Move-awaited :
      {p p' : Pc} {m' : Shared}
      → Move fifo_size i w.shared p m' p'
      → w.clients i ≡ p
      → (j : ℕ) → raised (update w.clients i p' j) ≡ true
      → m'.flag j ≡ true
      → ((m'.submit ≡ true) × (m'.stage_client_id ≡ j)) ⊎ (serves w.server j ≡ true)
  Move-awaited (begin g) e j c f = ground (arith, awaited j)
  Move-awaited mv e j c f = ground (arith, guard mv, awaited j, awaited i, placed i, lowered i)

  Move-settled :
      {p p' : Pc} {m' : Shared}
      → Move fifo_size i w.shared p m' p'
      → w.clients i ≡ p
      → (j : ℕ) → raised (update w.clients i p' j) ≡ true
      → m'.flag j ≡ false
      → (w.runs j ≡ suc (w.asked j)) × (m'.retval j ≡ (w.last j).result)
  Move-settled (begin g) e j c f = ground (arith, settled j)
  Move-settled mv e j c f = ground (arith, guard mv, settled j, settled i, placed i)

  Move-prior :
      {p p' : Pc} {m' : Shared}
      → Move fifo_size i w.shared p m' p'
      → w.clients i ≡ p
      → (j : ℕ) → raised (update w.clients i p' j) ≡ false
      → is_answered (update w.clients i p' j) ≡ false
      → w.runs j ≡ w.asked j
  Move-prior (begin g) e j c f = ground (arith, prior j)
  Move-prior mv e j c f = ground (arith, prior j, prior i)

  Move-returned :
      {p p' : Pc} {m' : Shared}
      → Move fifo_size i w.shared p m' p'
      → w.clients i ≡ p
      → (j : ℕ) (s : Stream) (r : ℕ) → update w.clients i p' j ≡ answered s r
      → (w.runs j ≡ suc (w.asked j)) × ((w.last j).result ≡ r)
  Move-returned (begin g) e j s r c = ground (arith, returned j s r)
  Move-returned mv e j s r c = ground (arith, guard mv, returned j s r, settled i, placed i)

  Move-IsFetched :
      {p p' : Pc} {m' : Shared}
      → Move fifo_size i w.shared p m' p'
      → w.clients i ≡ p
      → IsFetched m' w.server
  Move-IsFetched (begin g) e = fetched
  Move-IsFetched mv e = ground (arith, fetched, lowered i)

  Move-loaded :
      {p p' : Pc} {m' : Shared}
      → Move fifo_size i w.shared p m' p'
      → w.clients i ≡ p
      → (k : ℕ) → k < loaded_bytes w.server
      → exec_of w.server k ≡ m'.stage k
  Move-loaded (begin g) e k q = loaded k q
  Move-loaded mv e k q = ground (arith, loaded k, fetched, lowered i)

  Move-running :
      {p p' : Pc} {m' : Shared}
      → Move fifo_size i w.shared p m' p'
      → w.clients i ≡ p
      → IsRunning (after m' p') w.server
  Move-running (begin g) e = ground (arith, running)
  Move-running mv e = ground (arith, guard mv, running, placed i)

  Move-running_bytes :
      {p p' : Pc} {m' : Shared}
      → Move fifo_size i w.shared p m' p'
      → w.clients i ≡ p
      → (id n : ℕ) (exec : ℕ → ℕ) → w.server ≡ executing id n exec
      → (k : ℕ) → k < n
      → exec k ≡ (stream_of (update w.clients i p' id)).byte k
  Move-running_bytes (begin g) e id n exec f k q =
      ground (arith, running_bytes id n exec f k, running)
  Move-running_bytes mv e id n exec f k q = ground (arith, running_bytes id n exec f k, running)

  Move-ran_size :
      {p p' : Pc} {m' : Shared}
      → Move fifo_size i w.shared p m' p'
      → w.clients i ≡ p
      → (j : ℕ) → w.runs j ≡ suc (w.asked j)
      → (w.last j).size ≡ (stream_of (update w.clients i p' j)).size
  Move-ran_size (begin g) e j c = ground (arith, ran_size j, prior j)
  Move-ran_size mv e j c = ground (arith, ran_size j)

  Move-ran_bytes :
      {p p' : Pc} {m' : Shared}
      → Move fifo_size i w.shared p m' p'
      → w.clients i ≡ p
      → (j : ℕ) → w.runs j ≡ suc (w.asked j)
      → (k : ℕ) → k < (w.last j).size
      → (w.last j).byte k ≡ (stream_of (update w.clients i p' j)).byte k
  Move-ran_bytes (begin g) e j c k q = ground (arith, ran_bytes j c k, prior j)
  Move-ran_bytes mv e j c k q = ground (arith, ran_bytes j c k)

  pub Move-Inv :
      {m' : Shared} {p' : Pc}
      → valid_client_id i ≡ true
      → Move fifo_size i w.shared (w.clients i) m' p'
      → Inv fifo_size (after m' p')
  Move-Inv v mv = record {
    locked = Move-locked mv refl;
    held = Move-held mv refl;
    members = Move-members mv v;
    alone = Move-alone mv refl;
    lowered = Move-lowered mv refl;
    placed = Move-IsPlaced mv refl;
    small = Move-small mv refl;
    staged = Move-staged mv refl;
    published = Move-IsPublished mv v refl;
    published_bytes = Move-published_bytes mv refl;
    awaited = Move-awaited mv refl;
    settled = Move-settled mv refl;
    prior = Move-prior mv refl;
    returned = Move-returned mv refl;
    accepts = inv.accepts;
    fetched = Move-IsFetched mv refl;
    loaded = Move-loaded mv refl;
    running = Move-running mv refl;
    running_bytes = Move-running_bytes mv refl;
    ran_size = Move-ran_size mv refl;
    ran_bytes = Move-ran_bytes mv refl;
  }
