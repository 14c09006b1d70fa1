-- ===== src/Draws/Gather.antt =====
-- The vertices of an upload are the client's, gathered without their gaps.
use sharedgl.Prelude.{
  List, ℕ, zero, suc, ◌+◌, ◌-◌, ◌*◌, ◌%◌, ◌^◌, ◌≤◌, ◌<◌, ◌≡◌, refl, ap, ◌∙◌, length, get_or, arith,
}
use native.Mathlib.Nat.{suc-mul, add-mul}
use sharedgl.Memory.{Memory, read_bytes}
use sharedgl.Layout.{size_mod}
use sharedgl.Pb.{
  PushBuffer, pb_memcpy_unaligned, pb_can_write, in_copy, in_advance, pb_note_overflow,
}
use sharedgl.Pb.Stream.{in_mem, Pushed, read_bytes-get, length-read_bytes}
use sharedgl.Draws.{push_elements}

memcpy_unaligned-Pushed :
    (src : List ℕ) (b : PushBuffer)
    → b.in_capacity < 2 ^ 63
    → b.in_cur + length src ≤ b.in_capacity
    → Pushed b (pb_memcpy_unaligned src b) (length src)
unfolding pb_memcpy_unaligned pb_can_write in_copy in_advance pb_note_overflow
memcpy_unaligned-Pushed src b c h = record {
  cursor = ground arith;
  capacity = ground arith;
  flag = ground arith;
  before = λ i q. ground arith;
}

memcpy_unaligned-bytes :
    (src : List ℕ) (b : PushBuffer)
    → b.in_capacity < 2 ^ 63
    → b.in_cur + length src ≤ b.in_capacity
    → (i : ℕ) → i < length src
    → in_mem (pb_memcpy_unaligned src b) (b.in_cur + i) ≡ get_or src i 0
unfolding pb_memcpy_unaligned pb_can_write in_copy in_advance pb_note_overflow
memcpy_unaligned-bytes src b c h i q = ground (arith, ap (λ k. get_or src k 0) (gap b.in_cur i))
  where
    gap : (o i : ℕ) → o + i - o ≡ i
    gap o i = omega arith

-- `n` elements gathered from the `i`th on: where the buffer's cursor was, one behind the other.
pub record Gathered (client : Memory) (base stride elem n i : ℕ) (b b' : PushBuffer) : Type 0 where
  pub pushed : Pushed b b' (n * elem)
  pub bytes :
      (k j : ℕ)
      → k < n
      → j < elem
      → in_mem b' (b.in_cur + (k * elem + j)) ≡ client (base + (i + k) * stride + j)

-- The `i`th element and what follows it.
Gathered-suc :
    (client : Memory) (base stride elem n i : ℕ) (b b'' : PushBuffer)
    → b.in_capacity < 2 ^ 63
    → b.in_cur + suc n * elem ≤ b.in_capacity
    → base + (i + suc n) * stride < size_mod
    → Gathered client base stride elem n
        (i + 1)
        (pb_memcpy_unaligned (read_bytes client ((base + i * stride) % size_mod) elem) b)
        b''
    → Gathered client base stride elem (suc n) i b b''
Gathered-suc client base stride elem n i b b'' c h w rest = record {
  pushed = record {
    cursor = omega (arith, rest.pushed.cursor, one.cursor, size, suc-mul n elem);
    capacity = rest.pushed.capacity ∙ one.capacity;
    flag = rest.pushed.flag ∙ one.flag;
    before = λ k q. rest.pushed.before k (omega (arith, one.cursor)) ∙ one.before k q;
  };
  bytes = bytes;
}
  where
    start : ℕ
    start = (base + i * stride) % size_mod

    src : List ℕ
    src = read_bytes client start elem

    size : length src ≡ elem
    size = length-read_bytes client start elem

    b1 : PushBuffer
    b1 = pb_memcpy_unaligned src b

    room : b.in_cur + length src ≤ b.in_capacity
    room = omega (arith, size, suc-mul n elem)

    one : Pushed b b1 (length src)
    one = memcpy_unaligned-Pushed src b c room

    first : start ≡ base + i * stride
    first = omega (arith, add-mul i (suc n) stride)

    bytes :
        (k j : ℕ)
        → k < suc n
        → j < elem
        → in_mem b'' (b.in_cur + (k * elem + j)) ≡ client (base + (i + k) * stride + j)
    bytes zero j p q =
        let at : b.in_cur + (0 * elem + j) ≡ b.in_cur + j = omega arith in
        let to : start + j ≡ base + (i + 0) * stride + j =
          omega (arith, first, add-mul i 0 stride) in
        ap (in_mem b'') at
        ∙ rest.pushed.before (b.in_cur + j) (omega (arith, one.cursor, size))
        ∙ memcpy_unaligned-bytes src b c room j (omega (arith, size))
        ∙ read_bytes-get client start elem j q
        ∙ ap client to
    bytes (suc k) j p q =
        let at : b.in_cur + (suc k * elem + j) ≡ b1.in_cur + (k * elem + j) =
          omega (arith, one.cursor, size, suc-mul k elem) in
        let to : base + (i + 1 + k) * stride + j ≡ base + (i + suc k) * stride + j =
          ap (λ (m : ℕ). base + m * stride + j) (omega arith) in
        ap (in_mem b'') at ∙ rest.bytes k j (omega arith) q ∙ ap client to

pub push_elements-Gathered :
    (client : Memory) (base stride elem n i : ℕ) (b : PushBuffer)
    → b.in_capacity < 2 ^ 63
    → b.in_cur + n * elem ≤ b.in_capacity
    → base + (i + n) * stride < size_mod
    → Gathered client base stride elem n i b (push_elements client base stride elem n i b)
unfolding push_elements
push_elements-Gathered client base stride elem zero i b c h w = record {
  pushed = record { cursor = omega arith; capacity = refl; flag = refl; before = λ i q. refl };
  bytes = λ k j p q. absurd (omega arith);
}
push_elements-Gathered client base stride elem (suc n) i b c h w =
    let src = read_bytes client ((base + i * stride) % size_mod) elem in
    let size = length-read_bytes client ((base + i * stride) % size_mod) elem in
    let one = memcpy_unaligned-Pushed src b c (omega (arith, size, suc-mul n elem)) in
    Gathered-suc client base stride elem n i b _ c h w (
      push_elements-Gathered client base stride elem n (i + 1) (pb_memcpy_unaligned src b)
        (omega (arith, one.capacity))
        (omega (arith, one.capacity, one.cursor, size, suc-mul n elem))
        (omega (
          arith,
          add-mul (i + 1) n stride,
          add-mul i 1 stride,
          add-mul i (suc n) stride,
          suc-mul n stride,
        )))
