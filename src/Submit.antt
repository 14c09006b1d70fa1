-- ===== src/Submit.antt =====
-- A submission over shared memory: `glimpl_submit` and `submit_shm` of src/client/glimpl.c, and one
-- batch of `sgl_cmd_processor_start` of src/server/processor.c. Each side's waiting loops end when
-- the other side's part has run, so here each part is one step on the shared memory.
pub mod Delivery
pub mod Loop
pub mod Reply
pub mod Dropped
mod Tests
use sharedgl.Prelude.{
  ℕ, suc, ◌+◌, ◌-◌, ◌*◌, ◌/◌, ◌%◌, ◌^◌, Bool, ◌||◌, not, List, ltb, ◌==◌, if◌then◌else◌,
}
use sharedgl.Memory.{Memory, overlay, clear, read_bytes, read32, store32}
use sharedgl.Layout.{
  client_slot_size, client_slot_offset, command_start, stage_offset, valid_client_id,
}
use sharedgl.Layout.Reg
use sharedgl.Pb.{
  PushBuffer, int_to_size, pb_push, pb_reset, pb_write, pb_global_read, pb_global_write,
  pb_resolve_offset, pb_size, pb_copy_to_shared,
}
use sharedgl.Pb.Stream.{words_at}
use sharedgl.Slots.{sgl_spin_lock, sgl_spin_unlock, sgl_release_client_slot}
use sharedgl.Server.{Effect, Server, Outcome, run, finished, failed, out_of_fuel}

-- `pb_write(RETVAL, 0)` and the `memset` of the values behind it, then `pb_reset`.
unfoldable pub drop_submission : PushBuffer → PushBuffer
drop_submission b =
    let b1 = pb_write b Reg.retval 0 in
    pb_reset (record b1 {
      shared =
          clear b1.shared (pb_resolve_offset b1 Reg.retval_v) (client_slot_size - Reg.retval_v);
    })

abbrev on_shared : (Memory → Memory) → PushBuffer → PushBuffer
on_shared f b = record b { shared = f b.shared }

-- `submit_shm` up to its last loop, from a state in which the lock is free and SUBMIT is not 1.
unfoldable pub submit_shm : ℕ → PushBuffer → PushBuffer
submit_shm client_id b =
    let submit_size = pb_size b in
    let fifo_size = pb_global_read b Reg.fifo_size in
    if ltb (int_to_size fifo_size) submit_size
    then drop_submission b
    else (let locked = on_shared sgl_spin_lock b in
        let flagged = pb_write locked Reg.submit 1 in
        let copied = pb_copy_to_shared flagged in
        let named = pb_global_write copied Reg.stage_client_id client_id in
        let sized = pb_global_write named Reg.stage_size (submit_size % 2 ^ 32) in
        let submitted = pb_global_write sized Reg.submit 1 in on_shared sgl_spin_unlock submitted)

-- `glimpl_submit` up to the wait for the server, in shared-memory mode.
unfoldable pub glimpl_submit : ℕ → PushBuffer → PushBuffer
glimpl_submit client_id b =
    let ended = pb_push 0 b in
    if ended.write_overflowed
    then (if client_id == 0 then pb_reset ended else drop_submission ended)
    else submit_shm client_id ended

-- What the client's last loop polls and what it reads then.
abbrev pub slot_word : Memory → ℕ → ℕ → ℕ
slot_word shared id r = read32 shared (client_slot_offset id + r)

-- The end of one batch: `continue` before anything ran, an answer with the shared memory and the
-- execution buffer, or a loop that did not end.
pub data Batch : Type 0 where
  refused : Memory → Batch
  answered : Memory → Memory → Server → Batch
  unfinished : Batch

-- The copy of the stage into `shared_exec`.
unfoldable pub load : Memory → Memory → ℕ → Memory
load shared exec submit_size =
    overlay (clear exec 0 client_slot_size) command_start
      (read_bytes shared stage_offset submit_size)

-- The registers from RETVAL on, of the execution buffer's first page
unfoldable pub reply_bytes : Memory → List ℕ
reply_bytes exec = read_bytes exec Reg.retval (client_slot_size - Reg.retval)

-- What follows the command loop: the slot gets the registers from RETVAL on, then the answer flag.
unfoldable pub answer : Memory → Memory → ℕ → Server → Memory
answer shared exec client_id s =
    let slot = client_slot_offset client_id in
    let copied = overlay shared (slot + Reg.retval) (reply_bytes exec) in
    let flagged = store32 copied (slot + Reg.submit) 0 in
    if s.release_client_slot == 0
    then flagged
    else sgl_release_client_slot flagged s.release_client_slot

-- The command loop's RETVAL register is in the execution buffer, the modelled commands leave the
-- rest of its first page as it is.
abbrev pub finish : Memory → Memory → ℕ → Outcome → Batch
finish shared exec client_id (finished s ws) =
    let exec1 = store32 (store32 exec Reg.retval s.retval) Reg.submit 0 in
    answered (answer shared exec1 client_id s) exec1 s
finish shared exec client_id (failed e) = unfinished
finish shared exec client_id out_of_fuel = unfinished

module _ (driver : List Effect → ℕ) where
  -- One batch, from a SUBMIT register of 1, without making the client's context current. `exec` is
  -- `shared_exec`, of `command_start + fifo_size` bytes.
  unfoldable pub serve : ℕ → Memory → Memory → Server → Batch
  serve fifo_size shared exec s =
      let client_id = read32 shared Reg.stage_client_id in
      let submit_size = int_to_size (read32 shared Reg.stage_size) in
      if not (valid_client_id client_id)
      then refused (store32 shared Reg.submit 0)
      else (if ltb fifo_size submit_size
          then refused
              (store32 (clear shared (client_slot_offset client_id) client_slot_size) Reg.submit 0)
          else (let loaded = load shared exec submit_size in
              let n = fifo_size / 4 in
              finish (store32 shared Reg.submit 0) loaded client_id (
                run driver (suc n) n (record s { retval = 0; release_client_slot = 0 })
                  (words_at loaded command_start n))))
