-- ===== src/Draws/Upload.antt =====
-- A whole upload of an array.
use sharedgl.Prelude.{
  ℕ, suc, ◌+◌, ◌*◌, ◌%◌, ◌^◌, ◌≤◌, ◌<◌, ◌≡◌, ◌≢◌, sym, ap, ◌∙◌, true, inl, inr, Bool-cases, ◌==◌,
  if◌then◌else◌, arith,
}
use native.Mathlib.Nat.{mul_comm, suc-mul, add-mul, mul-le-mul, mul-le-mul_right, le_of_lt}
use sharedgl.Memory.{Memory, read_bytes}
use sharedgl.Layout.{size_mod, ceil_div}
use sharedgl.Pb.{PushBuffer, pb_realign, pb_note_overflow, pb_memcpy}
use sharedgl.Pb.Stream.{
  in_mem, Pushed, pb_push-Pushed, read_bytes-get, length-read_bytes, pb_memcpy-bytes,
}
use sharedgl.Commands.Cmd
use sharedgl.Pb.{pb_push}
use sharedgl.Pixels.{type_size}
use sharedgl.Pixels.Sizes.{type_size-le}
use sharedgl.Pixels.Span.{int_to_size-small}
use sharedgl.Draws.{push_elements, push_upload, push_client_pointer}
use sharedgl.Draws.Indices.{rounds_of-small}
use sharedgl.Draws.Gather.{push_elements-Gathered}

pb_realign-mem : (b : PushBuffer) (i : ℕ) → in_mem (pb_realign b) i ≡ in_mem b i
unfolding pb_realign pb_note_overflow
pb_realign-mem b i = ground arith

zero-add : (n : ℕ) → 0 + n ≡ n
zero-add n = omega arith

-- The place of a byte of an element lies below the elements' end.
below : (i j n elem : ℕ) → i < n → j < elem → i * elem + j < n * elem
below i j n elem p q = omega (arith, suc-mul i elem, mul-le-mul_right elem (suc-le i n p))
  where
    suc-le : (i n : ℕ) → i < n → suc i ≤ n
    suc-le i n h = omega arith

-- The bytes of an element, and from one element to the next
abbrev pub element : ℕ → ℕ → ℕ
element size type = size * type_size type

unfoldable pub step_of : ℕ → ℕ → ℕ
step_of stride elem = if stride == 0 then elem else stride

-- An array of ints that are not negative, which fits the client's push buffer with the upload's two
-- words and its padding.
pub record IsArray (first count size type stride : ℕ) (b : PushBuffer) : Type 0 where
  pub first_range : first < 2 ^ 31
  pub count_range : count < 2 ^ 31
  pub size_range : size < 2 ^ 31
  pub stride_range : stride < 2 ^ 31
  pub capacity : b.in_capacity < 2 ^ 32
  pub fits : b.in_cur + 8 + (count * element size type + 3) ≤ b.in_capacity
  pub memory : (first + count) * step_of stride (element size type) < size_mod

push_upload-Pushed :
    (n : ℕ) (b : PushBuffer)
    → b.in_capacity < 2 ^ 32
    → b.in_cur + 8 ≤ b.in_capacity
    → Pushed b (push_upload n b) 8
unfolding push_upload
push_upload-Pushed n b c h =
    let one = pb_push-Pushed b Cmd.vp_upload (omega arith) (omega arith) in
    let two =
      pb_push-Pushed (pb_push Cmd.vp_upload b) (ceil_div n 4 % 2 ^ 32) (omega (arith, one.capacity))
        (omega (arith, one.capacity, one.cursor)) in
    record {
      cursor = omega (arith, one.cursor, two.cursor);
      capacity = two.capacity ∙ one.capacity;
      flag = two.flag ∙ one.flag;
      before = λ i q. two.before i (omega (arith, one.cursor)) ∙ one.before i q;
    }

-- Byte `j` of vertex `i` of the upload, behind its two words, is that of the client's vertex
-- `first + i`.
pub record Uploaded (first count elem stride : ℕ) (client : Memory) (b b' : PushBuffer)
    : Type 0 where
  pub bytes :
      (i j : ℕ)
      → i < count
      → j < elem
      → in_mem b' (b.in_cur + 8 + (i * elem + j)) ≡ client ((first + i) * step_of stride elem + j)

module _ (first count size type stride : ℕ) (client : Memory) (b : PushBuffer)
    (a : IsArray first count size type stride b) where
  abbrev elem : ℕ
  elem = element size type

  elem-small : elem % size_mod ≡ elem
  elem-small = omega (arith, mul-le-mul (le_of_lt a.size_range) (type_size-le type))

  count-small : elem * count % size_mod ≡ count * elem
  count-small = omega (arith, a.fits, a.capacity, mul_comm elem count)

  abbrev uploading : PushBuffer
  uploading = push_upload (count * elem) b

  start : Pushed b uploading 8
  start = push_upload-Pushed (count * elem) b a.capacity (omega (arith, a.fits))

  strided : stride ≢ 0 → step_of stride elem ≡ stride
  unfolding step_of
  strided h = ground (arith, h)

  packed : stride ≡ 0 → step_of stride elem ≡ elem
  unfolding step_of
  packed h = ground (arith, h)

  gathered-Uploaded :
      stride ≢ 0
      → Uploaded first count elem stride client b
          (pb_realign (push_elements client (first * stride) stride elem count 0 uploading))
  gathered-Uploaded h = record {
    bytes = λ i j p q.
        let e = strided h in
        let m : (first + count) * stride < size_mod = rw (sym e) a.memory in
        let g =
          push_elements-Gathered client (first * stride) stride elem count 0 uploading
            (omega (arith, start.capacity, a.capacity))
            (omega (arith, start.capacity, start.cursor, a.fits))
            (omega (
              arith,
              m,
              add-mul first count stride,
              ap (λ (k : ℕ). k * stride) (zero-add count),
            )) in
        let at : b.in_cur + 8 + (i * elem + j) ≡ uploading.in_cur + (i * elem + j) =
          omega (arith, start.cursor) in
        let to : first * stride + (0 + i) * stride + j ≡ (first + i) * step_of stride elem + j =
          rw e (omega (arith, add-mul first i stride, ap (λ (k : ℕ). k * stride) (zero-add i))) in
        pb_realign-mem _ (b.in_cur + 8 + (i * elem + j))
        ∙ ap (in_mem (push_elements client (first * stride) stride elem count 0 uploading)) at
        ∙ g.bytes i j p q
        ∙ ap client to;
  }

  packed-Uploaded :
      stride ≡ 0
      → Uploaded first count elem stride client b
          (pb_memcpy (read_bytes client (first * elem % size_mod) (count * elem)) uploading)
  packed-Uploaded h = record {
    bytes = λ i j p q.
        let src = read_bytes client (first * elem % size_mod) (count * elem) in
        let size = length-read_bytes client (first * elem % size_mod) (count * elem) in
        let e : step_of stride elem ≡ elem = packed h in
        let m : (first + count) * elem < size_mod = rw (sym e) a.memory in
        let k : i * elem + j < count * elem = below i j count elem p q in
        let f : first * elem % size_mod ≡ first * elem =
          omega (arith, m, add-mul first count elem) in
        let at : b.in_cur + 8 + (i * elem + j) ≡ uploading.in_cur + (i * elem + j) =
          omega (arith, start.cursor) in
        let to : first * elem % size_mod + (i * elem + j) ≡ (first + i) * step_of stride elem + j =
          rw e (omega (arith, f, add-mul first i elem)) in
        ap (in_mem (pb_memcpy src uploading)) at
        ∙ pb_memcpy-bytes src uploading (omega (arith, start.capacity, a.capacity))
            (omega (arith, start.capacity, start.cursor, a.fits, size)) (i * elem + j)
            (omega (arith, k, size))
        ∙ read_bytes-get client (first * elem % size_mod) (count * elem) (i * elem + j) k
        ∙ ap client to;
  }

  -- An array of ints that are not negative, which fits: byte `j` of vertex `i` of the upload is that
  -- of the client's vertex `first + i`, whether the vertices are packed or lie `stride` bytes apart.
  pub push_client_pointer-Uploaded :
      Uploaded first count elem stride client b
        (push_client_pointer true first count size type stride client b).1
  unfolding push_client_pointer
  push_client_pointer-Uploaded = elim (Bool-cases (stride == 0)) [
    | inl e ↦
        rw
          (
            int_to_size-small size a.size_range,
            elem-small,
            int_to_size-small count a.count_range,
            count-small,
            int_to_size-small first a.first_range,
            e,
          )
          (packed-Uploaded (ground (arith, e)))
    | inr e ↦
        rw
          (
            int_to_size-small size a.size_range,
            elem-small,
            int_to_size-small count a.count_range,
            count-small,
            int_to_size-small first a.first_range,
            int_to_size-small stride a.stride_range,
            rounds_of-small count a.count_range,
            e,
          )
          (gathered-Uploaded (ground (arith, e)))
  ]
