-- ===== src/Protocol/Progress.antt =====
-- No state is a deadlock: while a client has a submission under way, somebody can go on.
use native.Mathlib.Decide.{dec_lt}
use sharedgl.Prelude.{ℕ, ◌≡◌, ◌⊎◌, refl, Bool, true, false, Bool-cases, inl, inr, arith}
use sharedgl.Layout.{valid_client_id}
use sharedgl.Protocol.{
  Stream, Shared, Pc, idle, locking, checking, unlocking, polling, flagging, copying, naming,
  sizing, raising, releasing, waiting, fetching, dropping, answered, Move, spin, take, busy, unlock,
  poll, retry, free, set_flag, copy, copied, name, size, raise, release, wait, see, read, drop,
  ServerPc, listening, naming_client, sizing_batch, checking_batch, wiping, refusing, loading,
  lowering, executing, replying, answering, Serve, listen, wake, read_id, read_size, bad_id,
  too_large, wipe, refuse, accept, load, loaded, lower, reply, answer, World, Step, client, return,
  serve, execute, Reach,
}
use sharedgl.Protocol.Invariant.{critical, raised, is_idle, serves, Inv}
use sharedgl.Protocol.Rounds.{Reach-Inv}

-- The steps that are not a turn of a waiting loop.
abbrev is_move_useful :
    {fifo_size i : ℕ} {m m' : Shared} {p p' : Pc} → Move fifo_size i m p m' p' → Bool
is_move_useful (spin _) = false
is_move_useful (poll _) = false
is_move_useful (wait _) = false
is_move_useful _ = true

abbrev is_serve_useful :
    {fifo_size : ℕ} {m m' : Shared} {p p' : ServerPc} → Serve fifo_size m p m' p' → Bool
is_serve_useful (listen _) = false
is_serve_useful _ = true

abbrev pub is_useful : {fifo_size : ℕ} {w w' : World} → Step fifo_size w w' → Bool
is_useful (client i v mv) = is_move_useful mv
is_useful (return i e) = true
is_useful (serve mv) = is_serve_useful mv
is_useful (execute r e) = true

abbrev CanMove : ℕ → ℕ → Shared → Pc → Type 0
CanMove fifo_size i m p =
    (m' : Shared) × (p' : Pc) × (mv : Move fifo_size i m p m' p') × (is_move_useful mv ≡ true)

abbrev CanServe : ℕ → Shared → ServerPc → Type 0
CanServe fifo_size m p =
    (m' : Shared) × (p' : ServerPc) × (mv : Serve fifo_size m p m' p') × (is_serve_useful mv ≡ true)

abbrev IsExecuting : ServerPc → Type 0
IsExecuting p = (id : ℕ) × (n : ℕ) × (exec : ℕ → ℕ) × (p ≡ executing id n exec)

critical-CanMove :
    (fifo_size i : ℕ) (m : Shared) (p : Pc) → critical p ≡ true → CanMove fifo_size i m p
critical-CanMove fifo_size i m (checking s) c = elim (Bool-cases m.submit) [
  | inl h ↦ (_, _, busy h, refl)
  | inr h ↦ (_, _, free h, refl)
]
critical-CanMove fifo_size i m (unlocking s) c = (_, _, unlock, refl)
critical-CanMove fifo_size i m (flagging s) c = (_, _, set_flag, refl)
critical-CanMove fifo_size i m (copying s k) c = elim (dec_lt k s.size) [
  | yes h ↦ (_, _, copy h, refl)
  | no h ↦ (_, _, copied (omega arith), refl)
]
critical-CanMove fifo_size i m (naming s) c = (_, _, name, refl)
critical-CanMove fifo_size i m (sizing s) c = (_, _, size, refl)
critical-CanMove fifo_size i m (raising s) c = (_, _, raise, refl)
critical-CanMove fifo_size i m (releasing s) c = (_, _, release, refl)
critical-CanMove fifo_size i m _ c = absurd (cc)

-- What a client outside the lock can do, or waits for.
data Outside (fifo_size i : ℕ) (m : Shared) (p : Pc) : Type 0 where
  moves : CanMove fifo_size i m p → Outside fifo_size i m p
  returns : (s : Stream) (r : ℕ) → p ≡ answered s r → Outside fifo_size i m p
  needs_submit : m.submit ≡ true → Outside fifo_size i m p
  needs_flag : raised p ≡ true → m.flag i ≡ true → Outside fifo_size i m p

outside :
    (fifo_size i : ℕ) (m : Shared) (p : Pc)
    → m.lock ≡ false
    → critical p ≡ false
    → is_idle p ≡ false
    → Outside fifo_size i m p
outside fifo_size i m (locking s) l c d = moves (_, _, take l, refl)
outside fifo_size i m (polling s) l c d = elim (Bool-cases m.submit) [
  | inl h ↦ needs_submit h
  | inr h ↦ moves (_, _, retry h, refl)
]
outside fifo_size i m (waiting s) l c d = elim (Bool-cases (m.flag i)) [
  | inl h ↦ needs_flag refl h
  | inr h ↦ moves (_, _, see h, refl)
]
outside fifo_size i m (fetching s) l c d = moves (_, _, read, refl)
outside fifo_size i m dropping l c d = moves (_, _, drop, refl)
outside fifo_size i m (answered s r) l c d = returns s r refl
outside fifo_size i m idle l c d = absurd (cc)
outside fifo_size i m _ l c d = absurd (cc)

abbrev is_listening : ServerPc → Bool
is_listening listening = true
is_listening _ = false

server-CanServe :
    (fifo_size : ℕ) (m : Shared) (p : ServerPc)
    → (m.submit ≡ true) ⊎ (is_listening p ≡ false)
    → CanServe fifo_size m p ⊎ IsExecuting p
server-CanServe fifo_size m listening (inl h) = inl (_, _, wake h, refl)
server-CanServe fifo_size m listening (inr h) = absurd (cc)
server-CanServe fifo_size m naming_client h = inl (_, _, read_id, refl)
server-CanServe fifo_size m (sizing_batch id) h = inl (_, _, read_size, refl)
server-CanServe fifo_size m (checking_batch id n) h = elim (Bool-cases (valid_client_id id)) [
  | inr v ↦ inl (_, _, bad_id v, refl)
  | inl v ↦ elim (dec_lt fifo_size n) [
    | yes q ↦ inl (_, _, too_large v q, refl)
    | no q ↦ inl (_, _, accept v (omega arith), refl)
  ]
]
server-CanServe fifo_size m (wiping id) h = inl (_, _, wipe, refl)
server-CanServe fifo_size m refusing h = inl (_, _, refuse, refl)
server-CanServe fifo_size m (loading id n k exec) h = elim (dec_lt k n) [
  | yes q ↦ inl (_, _, load q, refl)
  | no q ↦ inl (_, _, loaded (omega arith), refl)
]
server-CanServe fifo_size m (lowering id n exec) h = inl (_, _, lower, refl)
server-CanServe fifo_size m (executing id n exec) h = inr (id, n, exec, refl)
server-CanServe fifo_size m (replying id r) h = inl (_, _, reply, refl)
server-CanServe fifo_size m (answering id r) h = inl (_, _, answer, refl)

serves-not_listening : (p : ServerPc) (i : ℕ) → serves p i ≡ true → is_listening p ≡ false
serves-not_listening listening i h = absurd (cc)
serves-not_listening _ i h = refl

abbrev pub CanStep : ℕ → World → Type 0
CanStep fifo_size w = (w' : World) × (st : Step fifo_size w w') × (is_useful st ≡ true)

module _ {fifo_size : ℕ} {w : World} (inv : Inv fifo_size w) where
  client-CanStep :
      (i : ℕ)
      → valid_client_id i ≡ true
      → CanMove fifo_size i w.shared (w.clients i)
      → CanStep fifo_size w
  client-CanStep i v (m', p', mv, u) = (_, client i v mv, u)

  server-CanStep : (w.shared.submit ≡ true) ⊎ (is_listening w.server ≡ false) → CanStep fifo_size w
  server-CanStep h = elim (server-CanServe fifo_size w.shared w.server h) [
    | inl (m', p', mv, u) ↦ (_, serve mv, u)
    | inr (id, n, exec, e) ↦ (_, execute 0 e, refl)
  ]

  flag-CanStep :
      (i : ℕ) → raised (w.clients i) ≡ true → w.shared.flag i ≡ true → CanStep fifo_size w
  flag-CanStep i c f = elim (inv.awaited i c f) [
    | inl (h, q) ↦ server-CanStep (inl h)
    | inr h ↦ server-CanStep (inr (serves-not_listening w.server i h))
  ]

  outside-CanStep :
      (i : ℕ)
      → is_idle (w.clients i) ≡ false
      → Outside fifo_size i w.shared (w.clients i)
      → CanStep fifo_size w
  outside-CanStep i d (moves c) = client-CanStep i (inv.members i d) c
  outside-CanStep i d (returns s r e) = (_, return i e, refl)
  outside-CanStep i d (needs_submit h) = server-CanStep (inl h)
  outside-CanStep i d (needs_flag c f) = flag-CanStep i c f

  not_critical : (i : ℕ) → w.shared.lock ≡ false → critical (w.clients i) ≡ false
  not_critical i l = ground (arith, inv.locked i)

  critical-not_idle : (p : Pc) → critical p ≡ true → is_idle p ≡ false
  critical-not_idle idle c = absurd (cc)
  critical-not_idle _ c = refl

  Inv-CanStep : (i : ℕ) → is_idle (w.clients i) ≡ false → CanStep fifo_size w
  Inv-CanStep i d = elim (Bool-cases w.shared.lock) [
    | inl l ↦
        let (j, c) = inv.held l in
        client-CanStep j (inv.members j (critical-not_idle (w.clients j) c))
          (critical-CanMove fifo_size j w.shared (w.clients j) c)
    | inr l ↦
        outside-CanStep i d (outside fifo_size i w.shared (w.clients i) l (not_critical i l) d)
  ]

-- No deadlock: in every reachable state in which some client is inside `submit_shm`, a client or
-- the server has a step that is not a turn of a waiting loop.
pub reach-CanStep :
    {fifo_size : ℕ} {w : World}
    → Reach fifo_size w
    → (i : ℕ) → is_idle (w.clients i) ≡ false
    → CanStep fifo_size w
reach-CanStep r i d = Inv-CanStep (Reach-Inv r) i d
