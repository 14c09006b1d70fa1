-- ===== src/Draws.antt =====
-- The arrays of an indexed draw that the client keeps in its own memory: `glimpl_get_max_index` and
-- `glimpl_push_client_pointer` of src/client/glimpl.c. A pointer into the client's memory is an
-- offset.
pub mod Indices
pub mod Gather
pub mod Upload
mod Tests
use sharedgl.Prelude.{ℕ, zero, suc, ◌+◌, ◌*◌, ◌%◌, ◌^◌, Bool, true, false, max, ◌==◌, if◌then◌else◌}
use sharedgl.Memory.{Memory, read32, read_bytes}
use sharedgl.Layout.{size_mod, ceil_div, int_sign}
use sharedgl.Pb.{PushBuffer, int_to_size, pb_push, pb_memcpy, pb_memcpy_unaligned, pb_realign}
use sharedgl.Commands.Cmd
use sharedgl.Pixels.{type_size}
use sharedgl.Pixels.Enum.{gl_unsigned_byte, gl_unsigned_short, gl_unsigned_int}

-- `tindices[i]`, in the three widths
abbrev pub index8 : Memory → ℕ → ℕ
index8 indices i = indices i

abbrev pub index16 : Memory → ℕ → ℕ
index16 indices i = indices (2 * i) + 256 * indices (2 * i + 1)

abbrev pub index32 : Memory → ℕ → ℕ
index32 indices i = read32 indices (4 * i)

-- The loop, with `n` indices left from `i` on.
unfoldable pub max_from : (ℕ → ℕ) → ℕ → ℕ → ℕ → ℕ
max_from index zero i max_index = max_index
max_from index (suc n) i max_index = max_from index n (i + 1) (max max_index (index i))

-- The rounds of a loop up to an int
abbrev pub rounds_of : ℕ → ℕ
rounds_of count = if int_sign count then 0 else count

unfoldable pub get_max_index : ℕ → ℕ → Memory → ℕ
get_max_index type count indices =
    if type == gl_unsigned_byte
    then max_from (index8 indices) (rounds_of count) 0 0
    else if type == gl_unsigned_short
    then max_from (index16 indices) (rounds_of count) 0 0
    else if type == gl_unsigned_int
    then max_from (index32 indices) (rounds_of count) 0 0
    else 0

-- The loop over the elements, with `n` left from `i` on.
unfoldable pub push_elements : Memory → ℕ → ℕ → ℕ → ℕ → ℕ → PushBuffer → PushBuffer
push_elements client base stride elem_size zero i b = b
push_elements client base stride elem_size (suc n) i b =
    push_elements client base stride elem_size n (i + 1)
      (pb_memcpy_unaligned (read_bytes client ((base + i * stride) % size_mod) elem_size) b)

-- The upload's command and its count of words
unfoldable pub push_upload : ℕ → PushBuffer → PushBuffer
push_upload byte_count b = pb_push (ceil_div byte_count 4 % 2 ^ 32) (pb_push Cmd.vp_upload b)

-- `client` is the client's memory from `pointer` on.
unfoldable pub push_client_pointer :
    Bool → ℕ → ℕ → ℕ → ℕ → ℕ → Memory → PushBuffer → Bool × PushBuffer
push_client_pointer false first count size type stride client b = (false, b)
push_client_pointer true first count size type stride client b =
    let elem_size = int_to_size size * type_size type % size_mod in
    let byte_count = elem_size * int_to_size count % size_mod in
    let uploading = push_upload byte_count b in
    let step = int_to_size stride in
    if stride == 0
    then (
      true,
      pb_memcpy (read_bytes client (int_to_size first * elem_size % size_mod) byte_count) uploading,
    )
    else (
      true,
      pb_realign (
          push_elements client (int_to_size first * step) step elem_size (rounds_of count) 0
            uploading),
    )
