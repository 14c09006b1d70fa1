-- ===== src/Pb/Tests.antt =====
-- Tests and instances for the push buffer.
use sharedgl.Layout.{valid_client_id}
use sharedgl.Pb.Offsets.{IsOwn, pb_resolve_offset-apart}
use sharedgl.Prelude.{◌≢◌, false, ◌+◌, ◌≡◌, refl, true, false, List, [], ◌∷◌, arith}
use sharedgl.Pb.{
  pb_set_client, pb_resolve_offset, pb_is_global_offset, PushBuffer, pb_push, pb_memcpy_unaligned,
  pb_realign, in_copy, in_advance, pb_can_write, pb_note_overflow, align_to_4,
}
use sharedgl.Pb.Bounds.{
  IsValid, Call, push, memcpy, memcpy_unaligned, realign, calls, Confined, calls-Confined,
}
use sharedgl.Pb.Stream.{in_mem, words_at, push_all, Streamed, push_all-Streamed}

-- Twenty bytes, none written.
abbrev pub fresh : PushBuffer
fresh = record {
  shared = λ _. 0;
  private = λ _. 0;
  in_base = 4096;
  in_cur = 0;
  in_capacity = 20;
  slot_offset = 0;
  has_client_slot = false;
  write_overflowed = false;
  using_direct_access = false;
}

fresh-IsValid : IsValid fresh
fresh-IsValid = omega arith

abbrev script : List Call
script =
    push 7
    ∷ memcpy (1 ∷ 2 ∷ 3 ∷ [])
    ∷ memcpy_unaligned (9 ∷ [])
    ∷ realign
    ∷ push 1
    ∷ push 2
    ∷ push 3
    ∷ []

calls-Confined_example : Confined fresh (calls script fresh)
calls-Confined_example = calls-Confined {b = fresh} fresh-IsValid script (omega arith)

push_all-Streamed_example :
    Streamed fresh (push_all (5 ∷ 6 ∷ 0x01020304 ∷ []) fresh) (5 ∷ 6 ∷ 0x01020304 ∷ [])
push_all-Streamed_example =
    push_all-Streamed (5 ∷ 6 ∷ 0x01020304 ∷ []) fresh (omega arith) (omega arith) (omega arith)

words_run : words_at (in_mem (push_all (5 ∷ 6 ∷ []) fresh)) 0 2 ≡ 5 ∷ 6 ∷ []
unfolding push_all pb_push in_copy in_advance pb_can_write
words_run = unfold sharedgl.Memory.read32 in refl

-- One stray byte, then the cursor is brought to the next word.
realign_run : (pb_realign (pb_memcpy_unaligned (9 ∷ []) fresh)).in_cur ≡ 4
unfolding pb_realign pb_memcpy_unaligned in_copy in_advance pb_can_write pb_note_overflow align_to_4
realign_run = refl

first-valid : valid_client_id 1 ≡ true
unfolding valid_client_id
first-valid = refl

last-valid : valid_client_id 16 ≡ true
unfolding valid_client_id
last-valid = refl

own-submit : pb_is_global_offset 0 ≡ false
unfolding pb_is_global_offset
own-submit = refl

-- Nine bytes wait in a private buffer, of which the call copies the first eight.
abbrev pending : PushBuffer
pending = record fresh { private = λ i. i + 1; in_cur = 8 }

-- The SUBMIT flags of slots 1 and 16
pb_resolve_offset-apart_example :
    IsOwn 1 (pb_set_client 1 fresh) 0
    × IsOwn 16 (pb_set_client 16 fresh) 0
    × (pb_resolve_offset (pb_set_client 1 fresh) 0 ≢ pb_resolve_offset (pb_set_client 16 fresh) 0)
pb_resolve_offset-apart_example =
    pb_resolve_offset-apart 1 16 0 0 fresh fresh first-valid last-valid (omega arith) (omega arith)
      (omega arith) own-submit own-submit
