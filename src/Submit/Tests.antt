-- ===== src/Submit/Tests.antt =====
-- Tests and instances for submissions.
use sharedgl.Prelude.{◌+◌, ◌*◌, ◌≡◌, ◌≤◌, refl, true, false, List, [], ◌∷◌, length, arith}
use sharedgl.Memory.{store32, read32}
use sharedgl.Layout.{valid_client_id}
use sharedgl.Layout.Reg
use sharedgl.Commands.Objects.{create_program, clear, object_words}
use sharedgl.Pb.{PushBuffer, int_to_size}
use sharedgl.Pb.Stream.{push_all, AllWords}
use sharedgl.Server.Client.{ClientCall, gl_object, client_words, stream_words, perform_all}
use sharedgl.Server.Tests.{idle, counting}
use sharedgl.Submit.{glimpl_submit, serve}
use sharedgl.Submit.Delivery.{IsReady, Delivered, glimpl_submit-Delivered}
use sharedgl.Submit.Dropped.{Dropped, glimpl_submit-Dropped, push_all-Dropped}
use sharedgl.Submit.Reply.{IsServed, started, serve-glimpl_submit}

-- A client in slot 3, with 64 bytes of stage.
abbrev member : PushBuffer
member = record {
  shared = store32 (λ _. 0) Reg.fifo_size 64;
  private = λ _. 0;
  in_base = 4096;
  in_cur = 0;
  in_capacity = 64;
  slot_offset = 12288;
  has_client_slot = true;
  write_overflowed = false;
  using_direct_access = false;
}

member-IsReady : IsReady 3 member
unfolding valid_client_id int_to_size read32 store32
member-IsReady = record {
  valid = refl;
  has_slot = refl;
  slot = refl;
  empty = refl;
  no_overflow = refl;
  capacity = refl;
  small = omega arith;
}

glimpl_submit-Delivered_example :
    Delivered member.shared (glimpl_submit 3 (push_all (7 ∷ 9 ∷ []) member)).shared 3 (7 ∷ 9 ∷ [])
glimpl_submit-Delivered_example =
    glimpl_submit-Delivered 3 (7 ∷ 9 ∷ []) member member-IsReady (omega arith, (omega arith, tt))
      (omega arith)

abbrev drawing : List ClientCall
drawing = gl_object (clear 16384) ∷ gl_object create_program ∷ []

drawing-words : AllWords (stream_words drawing)
unfolding stream_words client_words object_words
drawing-words = (omega arith, (omega arith, (omega arith, tt)))

drawing-size : 4 * (length (stream_words drawing) + 1) ≤ 64
unfolding stream_words client_words object_words
drawing-size = omega arith

drawing-kept : (perform_all counting 0 drawing (started idle)).release_client_slot ≡ 0
unfolding perform_all
drawing-kept = refl

serve-glimpl_submit_example :
    IsServed 3
      (glimpl_submit 3 (push_all (stream_words drawing) member)).shared
      (perform_all counting 0 drawing (started idle))
      (serve counting 64
        (glimpl_submit 3 (push_all (stream_words drawing) member)).shared
        (λ _. 0)
        idle)
serve-glimpl_submit_example =
    serve-glimpl_submit counting drawing 3 member (λ _. 0) idle member-IsReady (tt, (tt, tt))
      drawing-words drawing-size drawing-kept

-- The same client after a push that did not fit.
abbrev overfull : PushBuffer
overfull = record member { in_cur = 60; write_overflowed = true }

three-valid : valid_client_id 3 ≡ true
unfolding valid_client_id
three-valid = refl

glimpl_submit-Dropped_example : Dropped 3 overfull (glimpl_submit 3 overfull)
glimpl_submit-Dropped_example = glimpl_submit-Dropped 3 overfull three-valid refl refl refl

-- A buffer of eight bytes: two words fit, but not the closing 0.
abbrev short : PushBuffer
short = record member { in_capacity = 8 }

push_all-Dropped_example : Dropped 3 short (glimpl_submit 3 (push_all (7 ∷ 9 ∷ []) short))
push_all-Dropped_example =
    push_all-Dropped 3 (7 ∷ 9 ∷ []) short three-valid refl refl (omega arith) (omega arith)
      (omega arith)
