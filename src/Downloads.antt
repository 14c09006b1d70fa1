-- ===== src/Downloads.antt =====
-- Downloads of more than a slot holds: `glimpl_download_buffer` of src/client/glimpl.c and
-- `SGL_CMD_VP_DOWNLOAD` of src/server/processor.c. The request's submission is that of Submit; here
-- a round is the server's case and its answer, then the client's copy.
pub mod Rounds
mod Tests
use sharedgl.Prelude.{ℕ, zero, suc, ◌+◌, ◌-◌, ◌*◌, ◌%◌, ◌^◌, ltb, if◌then◌else◌}
use sharedgl.Memory.{Memory, overlay, read_bytes, store32}
use sharedgl.Layout.{size_mod, client_slot_offset, ceil_div, int_sign}
use sharedgl.Layout.Reg
use sharedgl.Pb.{int_to_size}
use sharedgl.Server.{Server}
use sharedgl.Submit.{answer}

abbrev pub block_size : ℕ
block_size = 3072

-- `length` bytes of `download_target`, from `download_offset` on, to the execution buffer `p`; and
-- the new offset. A negative length is not modelled: it would copy nearly 2^64 bytes.
unfoldable pub exec_download : ℕ → Memory → ℕ → Memory → Memory × ℕ
exec_download length target offset p =
    (overlay p Reg.retval_v (read_bytes target offset length), (offset + length) % size_mod)

-- The shared memory, `download_offset`, and what is behind the client's `dst`
pub record Download : Type 0 where
  pub shared : Memory
  pub offset : ℕ
  pub dst : Memory

unfoldable pub true_count : ℕ → ℕ
true_count count = if ltb count block_size then count else block_size

-- `int blocks`
unfoldable pub blocks : ℕ → ℕ
blocks size = let n = ceil_div size block_size % 2 ^ 32 in if int_sign n then 0 else n

module _ (id : ℕ) (s : Server) (target : Memory) (exec : Memory) where
  -- The server's part: the batch runs on the execution buffer `exec`, with RETVAL as `s` has it.
  unfoldable pub serve_download : ℕ → Memory → ℕ → Memory × ℕ
  serve_download length shared offset =
      let (p, offset') = exec_download length target offset exec in
      (
        answer (store32 shared Reg.submit 0) (store32 (store32 p Reg.retval s.retval) Reg.submit 0)
            id s,
        offset',
      )

  unfoldable pub round : ℕ → ℕ → Download → Download
  round i count d =
      let (shared', offset') = serve_download (true_count count) d.shared d.offset in
      record {
        shared = shared';
        offset = offset';
        dst =
            overlay d.dst (i * block_size)
              (read_bytes shared' (client_slot_offset id + Reg.retval_v) (true_count count));
      }

  -- The loop, with `n` rounds left from `i` on.
  unfoldable pub download_from : ℕ → ℕ → ℕ → Download → Download
  download_from zero i count d = d
  download_from (suc n) i count d =
      download_from n (i + 1) ((count + (size_mod - block_size)) % size_mod) (round i count d)

  unfoldable pub download_buffer : ℕ → Download → Download
  download_buffer size d = download_from (blocks size) 0 size d
