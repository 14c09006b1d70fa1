-- ===== src/Pb/Stream.antt =====
-- What the writers of src/client/pb.c leave in the push buffer, as words.
use sharedgl.Prelude.{
  ℕ, zero, suc, ◌+◌, ◌*◌, ◌^◌, ◌≤◌, ◌<◌, ◌≡◌, ◌⊎◌, refl, ap, ◌∙◌, true, inl, inr, List, [], ◌∷◌,
  length, if◌then◌else◌, arith, get_or, leb, ltb, ◌-◌, ◌*◌, ◌/◌, not, ◌&&◌,
}
use mathlib.Core.Path.{ap₂}
use sharedgl.Memory.{Memory, read_bytes, read32}
use sharedgl.Layout.{stage_offset}
use sharedgl.Pb.{
  PushBuffer, pb_can_write, pb_note_overflow, in_copy, in_advance, pb_push, pb_memcpy,
  pb_copy_to_shared,
}

-- The buffer behind `in_base`.
abbrev pub in_mem : PushBuffer → Memory
in_mem b i = if b.using_direct_access then b.shared (stage_offset + i) else b.private i

-- The `n` words from offset `o`, as an `int *` reads them.
abbrev pub words_at : Memory → ℕ → ℕ → List ℕ
words_at m o zero = []
words_at m o (suc n) = read32 m o ∷ words_at m (o + 4) n

abbrev pub AllWords : List ℕ → Type 0
AllWords [] = Unit
AllWords (w ∷ ws) = (w < 2 ^ 32) × AllWords ws

-- `pb_push` of one word after another
unfoldable pub push_all : List ℕ → PushBuffer → PushBuffer
push_all [] b = b
push_all (w ∷ ws) b = push_all ws (pb_push w b)

-- A write that fits and moves the cursor by `n`.
pub record Pushed (b b' : PushBuffer) (n : ℕ) : Type 0 where
  pub cursor : b'.in_cur ≡ b.in_cur + n
  pub capacity : b'.in_capacity ≡ b.in_capacity
  pub flag : b'.write_overflowed ≡ b.write_overflowed
  pub before : (i : ℕ) → i < b.in_cur → in_mem b' i ≡ in_mem b i

pub pb_push-Pushed :
    (b : PushBuffer) (w : ℕ)
    → b.in_capacity < 2 ^ 63
    → b.in_cur + 4 ≤ b.in_capacity
    → Pushed b (pb_push w b) 4
unfolding pb_push pb_can_write in_copy in_advance pb_note_overflow
pb_push-Pushed b w c h = record {
  cursor = ground arith;
  capacity = ground arith;
  flag = ground arith;
  before = λ i q. ground arith;
}

pb_push-cases :
    (b : PushBuffer) (w : ℕ)
    → b.in_cur ≤ b.in_capacity
    → b.in_capacity < 2 ^ 63
    → ((pb_push w b).in_cur ≤ b.in_capacity)
      × ((pb_push w b).in_capacity ≡ b.in_capacity)
      × (((pb_push w b).in_cur ≡ b.in_cur + 4)
            × ((pb_push w b).write_overflowed ≡ b.write_overflowed)
          ⊎ (b.in_capacity < b.in_cur + 4) × ((pb_push w b).write_overflowed ≡ true))
unfolding pb_push pb_can_write in_copy in_advance pb_note_overflow
pb_push-cases b w v c = ground arith

pub pb_push-word :
    (b : PushBuffer) (w : ℕ)
    → w < 2 ^ 32
    → b.in_capacity < 2 ^ 63
    → b.in_cur + 4 ≤ b.in_capacity
    → read32 (in_mem (pb_push w b)) b.in_cur ≡ w
unfolding pb_push pb_can_write in_copy in_advance pb_note_overflow read32
pb_push-word b w s c h = ground arith

-- What a run of pushes that fits leaves: the words, in order, and nothing before them changed.
pub record Streamed (b b' : PushBuffer) (ws : List ℕ) : Type 0 where
  pub words : words_at (in_mem b') b.in_cur (length ws) ≡ ws
  pub cursor : b'.in_cur ≡ b.in_cur + 4 * length ws
  pub flag : b'.write_overflowed ≡ b.write_overflowed
  pub before : (i : ℕ) → i < b.in_cur → in_mem b' i ≡ in_mem b i

pub read32-same :
    (m k : Memory) (o : ℕ) → ((i : ℕ) → i < o + 4 → m i ≡ k i) → read32 m o ≡ read32 k o
unfolding read32
read32-same m k o h = omega (
  arith,
  h o (omega arith),
  h (o + 1) (omega arith),
  h (o + 2) (omega arith),
  h (o + 3) (omega arith),
)

Streamed-cons :
    (w : ℕ) (ws : List ℕ) {b b' b'' : PushBuffer}
    → read32 (in_mem b') b.in_cur ≡ w
    → Pushed b b' 4
    → Streamed b' b'' ws
    → Streamed b b'' (w ∷ ws)
Streamed-cons w ws {b} {b'} {b''} e one rest = record {
  words = ap₂ ◌∷◌ (head ∙ e) (rw (← one.cursor) rest.words);
  cursor = omega (arith, rest.cursor, one.cursor);
  flag = rest.flag ∙ one.flag;
  before = λ i q. rest.before i (omega (arith, one.cursor)) ∙ one.before i q;
}
  where
    head : read32 (in_mem b'') b.in_cur ≡ read32 (in_mem b') b.in_cur
    head =
        read32-same (in_mem b'') (in_mem b') b.in_cur
          (λ i q. rest.before i (omega (arith, one.cursor)))

-- Words pushed where there is room are what the stream holds from the old cursor on, in order; the
-- cursor moves by four bytes for each; the overflow flag and the bytes before stay.
pub push_all-Streamed :
    (ws : List ℕ) (b : PushBuffer)
    → AllWords ws
    → b.in_capacity < 2 ^ 63
    → b.in_cur + 4 * length ws ≤ b.in_capacity
    → Streamed b (push_all ws b) ws
unfolding push_all
push_all-Streamed [] b s c h = record {
  words = refl;
  cursor = omega arith;
  flag = refl;
  before = λ i q. refl;
}
push_all-Streamed (w ∷ ws) b s c h =
    let one = pb_push-Pushed b w c (omega arith) in
    Streamed-cons w ws (pb_push-word b w s.0 c (omega arith)) one (
      push_all-Streamed ws (pb_push w b) s.1 (omega (arith, one.capacity))
        (omega (arith, one.capacity, one.cursor)))

-- Pushes that do not fit leave the buffer marked.
pub push_all-overflow :
    (ws : List ℕ) (b : PushBuffer)
    → b.in_cur ≤ b.in_capacity
    → b.in_capacity < 2 ^ 63
    → (b.in_capacity < b.in_cur + 4 * length ws) ⊎ (b.write_overflowed ≡ true)
    → (push_all ws b).write_overflowed ≡ true
unfolding push_all
push_all-overflow [] b v c (inl h) = absurd (omega arith)
push_all-overflow [] b v c (inr h) = h
push_all-overflow (w ∷ ws) b v c h =
    let s = pb_push-cases b w v c in
    push_all-overflow ws (pb_push w b) (omega (arith, s)) (omega (arith, s)) (ground (arith, s))

add_zero_left : (n : ℕ) → 0 + n ≡ n
add_zero_left n = omega arith

pub read_bytes-get : (m : Memory) (o n i : ℕ) → i < n → get_or (read_bytes m o n) i 0 ≡ m (o + i)
read_bytes-get m o zero i h = absurd (omega arith)
read_bytes-get m o (suc n) zero h = ap m (omega arith)
read_bytes-get m o (suc n) (suc i) h =
    read_bytes-get m (o + 1) n i (omega arith) ∙ ap m (omega arith)

pub length-read_bytes : (m : Memory) (o n : ℕ) → length (read_bytes m o n) ≡ n
length-read_bytes m o zero = refl
length-read_bytes m o (suc n) = ap suc (length-read_bytes m (o + 1) n)

-- What a call of `pb_copy_to_shared` shows at each offset of the shared mapping.
pub pb_copy_to_shared-get :
    (b : PushBuffer) (i : ℕ)
    → (pb_copy_to_shared b).shared i ≡ (
        if not b.using_direct_access && not b.write_overflowed
        then (if leb stage_offset i && ltb i (stage_offset + b.in_cur)
            then b.private (i - stage_offset)
            else b.shared i)
        else b.shared i)
unfolding pb_copy_to_shared
pb_copy_to_shared-get b i = ground (
  arith,
  length-read_bytes b.private 0 b.in_cur,
  read_bytes-get b.private 0 b.in_cur (i - stage_offset),
  add_zero_left (i - stage_offset),
)

-- A copy that fits.
pub pb_memcpy-Pushed :
    (src : List ℕ) (b : PushBuffer)
    → b.in_capacity < 2 ^ 32
    → b.in_cur + (length src + 3) / 4 * 4 ≤ b.in_capacity
    → Pushed b (pb_memcpy src b) ((length src + 3) / 4 * 4)
unfolding pb_memcpy pb_can_write in_copy in_advance pb_note_overflow
pb_memcpy-Pushed src b c h = record {
  cursor = ground arith;
  capacity = ground arith;
  flag = ground arith;
  before = λ i q. ground arith;
}

pub pb_memcpy-bytes :
    (src : List ℕ) (b : PushBuffer)
    → b.in_capacity < 2 ^ 32
    → b.in_cur + (length src + 3) / 4 * 4 ≤ b.in_capacity
    → (i : ℕ) → i < length src
    → in_mem (pb_memcpy src b) (b.in_cur + i) ≡ get_or src i 0
unfolding pb_memcpy pb_can_write in_copy in_advance pb_note_overflow
pb_memcpy-bytes src b c h i q = ground (arith, ap (λ k. get_or src k 0) (gap b.in_cur i))
  where
    gap : (o i : ℕ) → o + i - o ≡ i
    gap o i = omega arith
