-- ===== src/Pb.antt =====
-- The push buffer of src/client/pb.c. A pointer into the buffer is its offset from `in_base`; the
-- writers return the new state. The variables `base` and `cur` are not kept: `base` is `ptr` plus
-- `SGL_STAGE_OFFSET` and `cur` is never read.
pub mod Bounds
pub mod Stream
pub mod Offsets
pub mod Tests
use sharedgl.Prelude.{
  ℕ, ◌+◌, ◌-◌, ◌*◌, ◌/◌, ◌%◌, ◌^◌, Bool, true, false, ◌&&◌, ◌||◌, not, Option, none, some, List,
  leb, ltb, ◌==◌, if◌then◌else◌, length,
}
use sharedgl.Memory.{Memory, overlay, read_bytes, bytes32, bytes64, read32, store32}
use sharedgl.Layout.{
  size_mod, stage_offset, client_slot_size, client_slot_offset, ceil_div, int_sign,
}
use sharedgl.Layout.Reg

-- `shared` is the mapping behind `ptr`, `private` the anonymous mapping behind `in_base`; with
-- direct access `in_base` is `base`, and the writers write the stage. `in_base` is the address.
pub record PushBuffer : Type 0 where
  pub shared : Memory
  pub private : Memory
  pub in_base : ℕ
  pub in_cur : ℕ
  pub in_capacity : ℕ
  pub slot_offset : ℕ
  pub has_client_slot : Bool
  pub write_overflowed : Bool
  pub using_direct_access : Bool

unfoldable pub pb_is_global_offset : ℕ → Bool
pb_is_global_offset offs =
    offs == Reg.ready_hint
    || (offs == Reg.lock
        || (offs == Reg.claim_id
            || (offs == Reg.connect
                || (offs == Reg.fbstart
                    || (offs == Reg.memsize
                        || (offs == Reg.swap_buffers_sync
                            || (offs == Reg.glmaj
                                || (offs == Reg.glmin
                                    || (offs == Reg.stage_client_id
                                        || (offs == Reg.stage_size
                                            || (offs == Reg.fifo_size
                                                || offs == Reg.max_clients)))))))))))

unfoldable pub pb_resolve_offset : PushBuffer → ℕ → ℕ
pb_resolve_offset b offs =
    if b.has_client_slot && (ltb offs client_slot_size && not (pb_is_global_offset offs))
    then b.slot_offset + offs
    else offs

-- `in_cur - in_base` and the addition are of `size_t`.
unfoldable pub pb_can_write : PushBuffer → ℕ → Bool
pb_can_write b len = leb ((b.in_cur + len) % size_mod) b.in_capacity

-- The log line is left out.
unfoldable pub pb_note_overflow : PushBuffer → PushBuffer
pb_note_overflow b = record b { write_overflowed = true }

-- `memcpy(in_cur, bs, length bs)`
unfoldable pub in_copy : PushBuffer → List ℕ → PushBuffer
in_copy b bs =
    if b.using_direct_access
    then record b { shared = overlay b.shared (stage_offset + b.in_cur) bs }
    else record b { private = overlay b.private b.in_cur bs }

-- The offset after `in_cur` moves `n` bytes on.
unfoldable pub in_advance : PushBuffer → ℕ → PushBuffer
in_advance b n = record b { in_cur = b.in_cur + n }

-- `(size_t)fifo_size` of an `int`
unfoldable pub int_to_size : ℕ → ℕ
int_to_size w = if int_sign w then size_mod - 2 ^ 32 + w else w

-- `mapped` is what `mmap` shows of the file, `addr` what the private `mmap` returns (the start of
-- the stage with direct access); an anonymous mapping reads as 0.
unfoldable pub pb_set : PushBuffer → Memory → ℕ → Bool → PushBuffer
pb_set b mapped addr direct_access = record b {
  shared = mapped;
  private = λ _. 0;
  in_base = addr;
  in_cur = 0;
  in_capacity = int_to_size (read32 mapped Reg.fifo_size);
  has_client_slot = false;
  write_overflowed = false;
  using_direct_access = direct_access;
}

unfoldable pub pb_set_net : PushBuffer → ℕ → ℕ → PushBuffer
pb_set_net b addr internal_alloc_size = record b {
  private = λ _. 0;
  in_base = addr;
  in_cur = 0;
  in_capacity = internal_alloc_size;
  has_client_slot = false;
  write_overflowed = false;
  using_direct_access = false;
}

unfoldable pub pb_reset : PushBuffer → PushBuffer
pb_reset b = record b { in_cur = 0; write_overflowed = false }

unfoldable pub pb_push : ℕ → PushBuffer → PushBuffer
pb_push c b = if pb_can_write b 4 then in_advance (in_copy b (bytes32 c)) 4 else pb_note_overflow b

unfoldable pub pb_push64 : ℕ → PushBuffer → PushBuffer
pb_push64 c b =
    let len = ceil_div 8 4 * 4 in
    if pb_can_write b len
    then in_advance (in_copy b (bytes64 c)) (ceil_div 8 4 * 4)
    else pb_note_overflow b

-- A float is its 32-bit pattern.
unfoldable pub pb_pushf : ℕ → PushBuffer → PushBuffer
pb_pushf c b = if pb_can_write b 4 then in_advance (in_copy b (bytes32 c)) 4 else pb_note_overflow b

unfoldable pub pb_memcpy : List ℕ → PushBuffer → PushBuffer
pb_memcpy src b =
    let padded = ceil_div (length src) 4 * 4 in
    if pb_can_write b padded
    then in_advance (in_copy b src) (ceil_div (length src) 4 * 4)
    else pb_note_overflow b

unfoldable pub pb_memcpy_unaligned : List ℕ → PushBuffer → PushBuffer
pb_memcpy_unaligned src b =
    if pb_can_write b (length src)
    then in_advance (in_copy b src) (length src)
    else pb_note_overflow b

unfoldable pub align_to_4 : ℕ → ℕ
align_to_4 ptr = (ptr + 3) % size_mod / 4 * 4

unfoldable pub pb_realign : PushBuffer → PushBuffer
pb_realign b =
    let aligned = align_to_4 (b.in_base + b.in_cur) in
    let len = aligned - (b.in_base + b.in_cur) in
    if pb_can_write b len then record b { in_cur = aligned - b.in_base } else pb_note_overflow b

-- `hook` is `net_hooks._pb_read`, if it is set.
unfoldable pub pb_read : Option (ℕ → ℕ) → PushBuffer → ℕ → ℕ
pb_read (some hook) b s = hook s
pb_read none b s = read32 b.shared (pb_resolve_offset b s)

-- `net_hooks._pb_write` is set by no caller.
unfoldable pub pb_write : PushBuffer → ℕ → ℕ → PushBuffer
pb_write b s c = record b { shared = store32 b.shared (pb_resolve_offset b s) c }

unfoldable pub pb_global_read : PushBuffer → ℕ → ℕ
pb_global_read b s = read32 b.shared s

unfoldable pub pb_global_write : PushBuffer → ℕ → ℕ → PushBuffer
pb_global_write b s c = record b { shared = store32 b.shared s c }

-- `client_id <= 0` of an `int`
unfoldable pub pb_set_client : ℕ → PushBuffer → PushBuffer
pb_set_client id b =
    if id == 0 || int_sign id
    then record b { has_client_slot = false; slot_offset = 0 }
    else record b { has_client_slot = true; slot_offset = client_slot_offset id }

unfoldable pub pb_size : PushBuffer → ℕ
pb_size b = b.in_cur

unfoldable pub pb_copy_to_shared : PushBuffer → PushBuffer
pb_copy_to_shared b =
    if not b.using_direct_access && not b.write_overflowed
    then record b { shared = overlay b.shared stage_offset (read_bytes b.private 0 b.in_cur) }
    else b
