-- ===== src/Strings/Counted.antt =====
-- `push_counted_string` of src/client/glimpl.c against `read_counted_strings` of
-- src/server/processor.c.
use sharedgl.Prelude.{
  ℕ, suc, ◌+◌, ◌-◌, ◌*◌, ◌/◌, ◌^◌, ◌≤◌, ◌<◌, ◌≡◌, refl, ap, ◌∙◌, List, [], ◌∷◌, sym, true, length,
  take, arith, get_or,
}
use sharedgl.Memory.{Memory, read_bytes, read32, read_bytes-shift, read_bytes-list}
use sharedgl.Pb.{PushBuffer, pb_push, pb_memcpy}
use sharedgl.Pb.Stream.{
  in_mem, Pushed, pb_push-Pushed, pb_push-word, read32-same, pb_memcpy-Pushed, pb_memcpy-bytes,
}
use sharedgl.Strings.{is_positive, advance, push_counted_string, read_counted_strings}

-- `push_counted_string` of one string after another, with `strlen` of each
unfoldable pub push_strings : List (List ℕ) → PushBuffer → PushBuffer
push_strings [] b = b
push_strings (s ∷ ss) b = push_strings ss (push_counted_string s (length s) b)

-- A string's length word and its padded bytes
abbrev pub counted_size : List ℕ → ℕ
counted_size s = 4 + (length s + 3) / 4 * 4

-- Lengths that `CEIL_DIV` rounds up inside an `int`
abbrev pub AllShort : List (List ℕ) → Type 0
AllShort [] = Unit
AllShort (s ∷ ss) = (length s < 2 ^ 31 - 3) × AllShort ss

abbrev pub counted_sizes : List (List ℕ) → ℕ
counted_sizes [] = 0
counted_sizes (s ∷ ss) = counted_size s + counted_sizes ss

-- What one call that fits leaves behind.
record Counted (s : List ℕ) (b b' : PushBuffer) : Type 0 where
  cursor : b'.in_cur ≡ b.in_cur + counted_size s
  capacity : b'.in_capacity ≡ b.in_capacity
  before : (i : ℕ) → i < b.in_cur → in_mem b' i ≡ in_mem b i
  size : read32 (in_mem b') b.in_cur ≡ length s
  bytes : (i : ℕ) → i < length s → in_mem b' (b.in_cur + 4 + i) ≡ get_or s i 0

push-memcpy-Counted :
    (s : List ℕ) (b : PushBuffer)
    → b.in_capacity < 2 ^ 32
    → b.in_cur + counted_size s ≤ b.in_capacity
    → Counted s b (pb_memcpy s (pb_push (length s) b))
push-memcpy-Counted s b c h = record {
  cursor = omega (arith, one.cursor, two.cursor);
  capacity = two.capacity ∙ one.capacity;
  before = λ i q. two.before i (omega (arith, one.cursor)) ∙ one.before i q;
  size =
      read32-same (in_mem (pb_memcpy s b1)) (in_mem b1) b.in_cur
        (λ i q. two.before i (omega (arith, one.cursor)))
      ∙ pb_push-word b (length s) (omega arith) (omega arith) (omega arith);
  bytes = λ i q.
      ap (λ k. in_mem (pb_memcpy s b1) (k + i)) (sym one.cursor)
      ∙ pb_memcpy-bytes s b1 (omega (arith, one.capacity)) room i q;
}
  where
    b1 : PushBuffer
    b1 = pb_push (length s) b

    one : Pushed b b1 4
    one = pb_push-Pushed b (length s) (omega arith) (omega arith)

    room : b1.in_cur + (length s + 3) / 4 * 4 ≤ b1.in_capacity
    room = omega (arith, one.cursor, one.capacity)

    two : Pushed b1 (pb_memcpy s b1) ((length s + 3) / 4 * 4)
    two = pb_memcpy-Pushed s b1 (omega (arith, one.capacity)) room

take-length : (s : List ℕ) → take (length s) s ≡ s
take-length [] = refl
take-length (x ∷ s) = ap (λ t. x ∷ t) (take-length s)

push_counted_string-Counted :
    (s : List ℕ) (b : PushBuffer)
    → b.in_capacity < 2 ^ 32
    → b.in_cur + counted_size s ≤ b.in_capacity
    → length s < 2 ^ 31 - 3
    → Counted s b (push_counted_string s (length s) b)
unfolding push_counted_string
push_counted_string-Counted [] b c h q =
    let one = pb_push-Pushed b 0 (omega arith) (omega arith) in
    record {
      cursor = omega (arith, one.cursor);
      capacity = one.capacity;
      before = one.before;
      size = pb_push-word b 0 (omega arith) (omega arith) (omega arith);
      bytes = λ i q. absurd (omega arith);
    }
push_counted_string-Counted (x ∷ s) b c h q =
    let t : is_positive (length (x ∷ s)) ≡ true = ground (arith, q) in
    rw (t, take-length (x ∷ s)) (push-memcpy-Counted (x ∷ s) b c h)

-- What a reader finds: at each of the places, a string.
abbrev pub Holds : Memory → List (ℕ × ℕ) → List (List ℕ) → Type 0
Holds m [] [] = Unit {0}
Holds m [] (s ∷ ss) = ⊥
Holds m (p ∷ ps) [] = ⊥
Holds m ((at, len) ∷ ps) (s ∷ ss) = (read_bytes m at len ≡ s) × Holds m ps ss

pub record Found (ss : List (List ℕ)) (m : Memory) (from to : ℕ) : Type 0 where
  pub strings : Holds m (read_counted_strings (length ss) m from).0 ss
  pub behind : (read_counted_strings (length ss) m from).1 ≡ to

-- `push_strings` moves the cursor by the sizes and changes nothing before it.
pub record Moved (b b' : PushBuffer) (n : ℕ) : Type 0 where
  pub cursor : b'.in_cur ≡ b.in_cur + n
  pub before : (i : ℕ) → i < b.in_cur → in_mem b' i ≡ in_mem b i

read_step :
    (n : ℕ) (m : Memory) (p len q : ℕ)
    → read32 m p ≡ len
    → len < 2 ^ 31
    → p + 4 + (len + 3) / 4 * 4 ≡ q
    → read_counted_strings (suc n) m p
      ≡ ((p + 4, len) ∷ (read_counted_strings n m q).0, (read_counted_strings n m q).1)
unfolding read_counted_strings
read_step n m p len q e h f =
    let t : advance (p + 4) len ≡ q = ground (arith, h, f) in rw (e, t) refl

cons-Found :
    (s : List ℕ) (ss : List (List ℕ)) (b b1 b' : PushBuffer)
    → length s < 2 ^ 31 - 3
    → Counted s b b1
    → Moved b1 b' (counted_sizes ss)
    → Found ss (in_mem b') b1.in_cur b'.in_cur
    → Found (s ∷ ss) (in_mem b') b.in_cur b'.in_cur
cons-Found s ss b b1 b' short one m f = record {
  strings = rw step (text, f.strings);
  behind = rw step f.behind;
}
  where
    size : read32 (in_mem b') b.in_cur ≡ length s
    size =
        read32-same (in_mem b') (in_mem b1) b.in_cur (λ i q. m.before i (omega (arith, one.cursor)))
        ∙ one.size

    next : b.in_cur + 4 + (length s + 3) / 4 * 4 ≡ b1.in_cur
    next = omega (arith, one.cursor)

    step : read_counted_strings (suc (length ss)) (in_mem b') b.in_cur ≡ (
      (b.in_cur + 4, length s) ∷ (read_counted_strings (length ss) (in_mem b') b1.in_cur).0,
      (read_counted_strings (length ss) (in_mem b') b1.in_cur).1,
    )
    step =
        read_step (length ss) (in_mem b') b.in_cur (length s) b1.in_cur size (omega (arith, short))
          next

    text : read_bytes (in_mem b') (b.in_cur + 4) (length s) ≡ s
    text =
        read_bytes-shift (in_mem b') (λ i. get_or s i 0) (b.in_cur + 4) 0 (length s)
          (λ i q.
            m.before (b.in_cur + 4 + i) (omega (arith, one.cursor))
            ∙ one.bytes i q
            ∙ ap (λ k. get_or s k 0) (omega arith))
        ∙ read_bytes-list s

push_strings-Moved :
    (ss : List (List ℕ)) (b : PushBuffer)
    → b.in_capacity < 2 ^ 32
    → b.in_cur + counted_sizes ss ≤ b.in_capacity
    → AllShort ss
    → Moved b (push_strings ss b) (counted_sizes ss)
unfolding push_strings
push_strings-Moved [] b c h q = record { cursor = omega arith; before = λ i q. refl }
push_strings-Moved (s ∷ ss) b c h q =
    let one = push_counted_string-Counted s b c (omega arith) q.0 in
    let m =
      push_strings-Moved ss (push_counted_string s (length s) b) (omega (arith, one.capacity))
        (omega (arith, one.capacity, one.cursor)) q.1 in
    record {
      cursor = omega (arith, one.cursor, m.cursor);
      before = λ i l. m.before i (omega (arith, one.cursor)) ∙ one.before i l;
    }

-- Strings pushed by `push_counted_string` where there is room, with any bytes in them, each shorter
-- than 2^31 - 3: the server's `read_counted_strings` from the same offset finds each with its length and bytes, and ends where
-- the client's cursor stands.
pub push_strings-Found :
    (ss : List (List ℕ)) (b : PushBuffer)
    → b.in_capacity < 2 ^ 32
    → b.in_cur + counted_sizes ss ≤ b.in_capacity
    → AllShort ss
    → Found ss (in_mem (push_strings ss b)) b.in_cur (push_strings ss b).in_cur
unfolding push_strings
push_strings-Found [] b c h q =
    unfold read_counted_strings in record { strings = tt; behind = refl }
push_strings-Found (s ∷ ss) b c h q =
    let one = push_counted_string-Counted s b c (omega arith) q.0 in
    let b1 = push_counted_string s (length s) b in
    let roomy : (push_counted_string s (length s) b).in_capacity < 2 ^ 32 =
      omega (arith, one.capacity) in
    let fits : (push_counted_string s (length s) b).in_cur + counted_sizes ss
        ≤ (push_counted_string s (length s) b).in_capacity =
      omega (arith, one.capacity, one.cursor) in
    cons-Found s ss b b1 (push_strings ss b1) q.0 one (push_strings-Moved ss b1 roomy fits q.1)
      (push_strings-Found ss b1 roomy fits q.1)
