-- ===== src/Draws/Tests.antt =====
-- Tests and instances for the draws.
use sharedgl.Prelude.{true, refl, false, arith, ◌≡◌, ◌*◌}
use sharedgl.Pb.{PushBuffer}
use sharedgl.Pixels.{type_size}
use sharedgl.Pixels.Enum.{gl_float, gl_unsigned_byte, gl_unsigned_short, gl_unsigned_int}
use sharedgl.Draws.{get_max_index, push_client_pointer, max_from, index8, index16, index32}
use sharedgl.Draws.Indices.{IsMaximum, get_max_index-IsMaximum}
use sharedgl.Draws.Upload.{IsArray, Uploaded, element, step_of, push_client_pointer-Uploaded}

abbrev fresh : PushBuffer
fresh = record {
  shared = λ _. 0;
  private = λ _. 0;
  in_base = 4096;
  in_cur = 0;
  in_capacity = 1024;
  slot_offset = 0;
  has_client_slot = false;
  write_overflowed = false;
  using_direct_access = false;
}

-- Four vertices of three floats, 16 bytes apart, from the second on
four_vertices : IsArray 1 4 3 gl_float 16 fresh
unfolding type_size step_of
four_vertices = record {
  first_range = omega arith;
  count_range = omega arith;
  size_range = omega arith;
  stride_range = omega arith;
  capacity = omega arith;
  fits = omega arith;
  memory = omega arith;
}

push_client_pointer-Uploaded_example :
    Uploaded 1 4
      (element 3 gl_float)
      16
      (λ k. k)
      fresh
      (push_client_pointer true 1 4 3 gl_float 16 (λ k. k) fresh).1
push_client_pointer-Uploaded_example =
    push_client_pointer-Uploaded 1 4 3 gl_float 16 (λ k. k) fresh four_vertices

get_max_index-IsMaximum_example :
    IsMaximum (index8 (λ k. k * 3)) 5 0 0 (get_max_index gl_unsigned_byte 5 (λ k. k * 3))
    × IsMaximum (index16 (λ k. k * 3)) 5 0 0 (get_max_index gl_unsigned_short 5 (λ k. k * 3))
    × IsMaximum (index32 (λ k. k * 3)) 5 0 0 (get_max_index gl_unsigned_int 5 (λ k. k * 3))
get_max_index-IsMaximum_example = get_max_index-IsMaximum 5 (λ k. k * 3) (omega arith)

max_run : get_max_index gl_unsigned_byte 5 (λ k. k * 3) ≡ 12
unfolding get_max_index max_from
max_run = refl
