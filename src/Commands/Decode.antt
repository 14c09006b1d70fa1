-- ===== src/Commands/Decode.antt =====
-- Reading a command of the switch in src/server/processor.c off the stream.
use sharedgl.Prelude.{ℕ, ◌%◌, ◌^◌, List, [], ◌∷◌}

-- `call c ws` is a case that ran, with the words behind it; `off_stream` leaves the stream's words.
pub data Decoded {ℓ} (A : Type ℓ) : Type ℓ where
  call : A → List ℕ → Decoded A
  off_stream : Decoded A
  other : Decoded A

-- What `pb_push` keeps of a 64-bit argument.
abbrev pub low32 : ℕ → ℕ
low32 v = v % 2 ^ 32

-- `*pb++`, once for each argument
module _ {ℓ} {A : Type ℓ} where
  abbrev pub pop0 : A → List ℕ → Decoded A
  pop0 f ws = call f ws

  abbrev pub pop1 : (ℕ → A) → List ℕ → Decoded A
  pop1 f [] = off_stream
  pop1 f (a ∷ ws) = call (f a) ws

  abbrev pub pop2 : (ℕ → ℕ → A) → List ℕ → Decoded A
  pop2 f [] = off_stream
  pop2 f (a ∷ ws) = pop1 (f a) ws

  abbrev pub pop3 : (ℕ → ℕ → ℕ → A) → List ℕ → Decoded A
  pop3 f [] = off_stream
  pop3 f (a ∷ ws) = pop2 (f a) ws

  abbrev pub pop4 : (ℕ → ℕ → ℕ → ℕ → A) → List ℕ → Decoded A
  pop4 f [] = off_stream
  pop4 f (a ∷ ws) = pop3 (f a) ws

  abbrev pub pop5 : (ℕ → ℕ → ℕ → ℕ → ℕ → A) → List ℕ → Decoded A
  pop5 f [] = off_stream
  pop5 f (a ∷ ws) = pop4 (f a) ws

  abbrev pub pop6 : (ℕ → ℕ → ℕ → ℕ → ℕ → ℕ → A) → List ℕ → Decoded A
  pop6 f [] = off_stream
  pop6 f (a ∷ ws) = pop5 (f a) ws

  abbrev pub pop7 : (ℕ → ℕ → ℕ → ℕ → ℕ → ℕ → ℕ → A) → List ℕ → Decoded A
  pop7 f [] = off_stream
  pop7 f (a ∷ ws) = pop6 (f a) ws

  abbrev pub pop8 : (ℕ → ℕ → ℕ → ℕ → ℕ → ℕ → ℕ → ℕ → A) → List ℕ → Decoded A
  pop8 f [] = off_stream
  pop8 f (a ∷ ws) = pop7 (f a) ws

  abbrev pub pop9 : (ℕ → ℕ → ℕ → ℕ → ℕ → ℕ → ℕ → ℕ → ℕ → A) → List ℕ → Decoded A
  pop9 f [] = off_stream
  pop9 f (a ∷ ws) = pop8 (f a) ws

  abbrev pub pop10 : (ℕ → ℕ → ℕ → ℕ → ℕ → ℕ → ℕ → ℕ → ℕ → ℕ → A) → List ℕ → Decoded A
  pop10 f [] = off_stream
  pop10 f (a ∷ ws) = pop9 (f a) ws

  abbrev pub pop11 : (ℕ → ℕ → ℕ → ℕ → ℕ → ℕ → ℕ → ℕ → ℕ → ℕ → ℕ → A) → List ℕ → Decoded A
  pop11 f [] = off_stream
  pop11 f (a ∷ ws) = pop10 (f a) ws

  abbrev pub pop12 : (ℕ → ℕ → ℕ → ℕ → ℕ → ℕ → ℕ → ℕ → ℕ → ℕ → ℕ → ℕ → A) → List ℕ → Decoded A
  pop12 f [] = off_stream
  pop12 f (a ∷ ws) = pop11 (f a) ws

  abbrev pub pop13 : (ℕ → ℕ → ℕ → ℕ → ℕ → ℕ → ℕ → ℕ → ℕ → ℕ → ℕ → ℕ → ℕ → A) → List ℕ → Decoded A
  pop13 f [] = off_stream
  pop13 f (a ∷ ws) = pop12 (f a) ws

  abbrev pub pop14 :
      (ℕ → ℕ → ℕ → ℕ → ℕ → ℕ → ℕ → ℕ → ℕ → ℕ → ℕ → ℕ → ℕ → ℕ → A) → List ℕ → Decoded A
  pop14 f [] = off_stream
  pop14 f (a ∷ ws) = pop13 (f a) ws

  abbrev pub pop15 :
      (ℕ → ℕ → ℕ → ℕ → ℕ → ℕ → ℕ → ℕ → ℕ → ℕ → ℕ → ℕ → ℕ → ℕ → ℕ → A) → List ℕ → Decoded A
  pop15 f [] = off_stream
  pop15 f (a ∷ ws) = pop14 (f a) ws
