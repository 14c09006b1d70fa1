-- ===== src/Downloads/Rounds.antt =====
-- The blocks put together are what the server has.
use sharedgl.Prelude.{
  ℕ, zero, suc, ◌+◌, ◌-◌, ◌*◌, ◌/◌, ◌%◌, ◌^◌, ◌≤◌, ◌<◌, ◌≡◌, ◌⊎◌, inr, refl, ap, ◌∙◌, leb, ltb, min,
  ◌&&◌, if◌then◌else◌, get_or, arith,
}
use sharedgl.Memory.{Memory, overlay, read_bytes, store32}
use sharedgl.Layout.{size_mod, client_slot_offset}
use sharedgl.Layout.Reg
use sharedgl.Pb.Stream.{read_bytes-get, length-read_bytes}
use sharedgl.Server.{Server}
use sharedgl.Submit.{answer, reply_bytes}
use sharedgl.Submit.Reply.{reply_bytes-get, length-reply_bytes}
use sharedgl.Downloads.{
  block_size, exec_download, Download, serve_download, true_count, round, download_from, blocks,
  download_buffer,
}

-- A byte of a block laid over a memory.
overlay-read_bytes :
    (m k : Memory) (o p n i : ℕ)
    → overlay m o (read_bytes k p n) i ≡ (if leb o i && ltb i (o + n) then k (p + (i - o)) else m i)
overlay-read_bytes m k o p n i =
    ground (arith, length-read_bytes k p n, read_bytes-get k p n (i - o))

store32-above : (m : Memory) (o w i : ℕ) → o + 4 ≤ i → store32 m o w i ≡ m i
unfolding store32
store32-above m o w i h = ground arith

add_sub : (j : ℕ) → Reg.retval + (Reg.retval_v - Reg.retval + j) - Reg.retval_v ≡ j
add_sub j = omega arith

true_count-le : (count : ℕ) → true_count count ≤ block_size
unfolding true_count
true_count-le count = ground arith

true_count-min : (count : ℕ) → true_count count ≡ min count block_size
unfolding true_count
true_count-min count = ground arith

-- The rounds are as many as blocks are needed.
blocks-eq : (size : ℕ) → size < 2 ^ 31 → blocks size ≡ (size + (block_size - 1)) / block_size
unfolding blocks
blocks-eq size h = ground arith

-- A byte after one round and the rounds behind it.
filled :
    (k size from to n offset : ℕ) (target : Memory) (a b c : ℕ)
    → offset ≡ from
    → from < size
    → from < to
    → from + n ≤ to
    → min to size ≡ from + n
    → b ≡ (if leb from k && ltb k (from + n) then target (offset + (k - from)) else c)
    → a ≡ (if leb to k && ltb k size then target k else b)
    → a ≡ (if leb from k && ltb k size then target k else c)
filled k size from to n offset target a b c o h g m e p q = ground (arith, inside)
  where
    inside : from ≤ k → target (offset + (k - from)) ≡ target k
    inside h = ap target (omega arith)

module _ (id : ℕ) (s : Server) (target exec : Memory) (kept : s.release_client_slot ≡ 0) where
  -- The execution buffer's first page, as it is answered
  abbrev replied : ℕ → ℕ → Memory
  replied count offset =
      store32
        (store32 (overlay exec Reg.retval_v (read_bytes target offset count)) Reg.retval s.retval)
        Reg.submit 0

  abbrev copied : Memory → ℕ → ℕ → Memory
  copied shared count offset =
      overlay (store32 shared Reg.submit 0) (client_slot_offset id + Reg.retval)
        (reply_bytes (replied count offset))

  replied-get :
      (count offset j : ℕ)
      → count ≤ block_size
      → j < count
      → replied count offset (Reg.retval + (Reg.retval_v - Reg.retval + j)) ≡ target (offset + j)
  replied-get count offset j h q =
      store32-above _ Reg.submit 0 _ (omega arith)
      ∙ store32-above _ Reg.retval s.retval _ (omega arith)
      ∙ overlay-read_bytes exec target Reg.retval_v offset count _
      ∙ ground (arith, ap (λ k. target (offset + k)) (add_sub j))

  serve_download-get :
      (count : ℕ) (shared : Memory) (offset j : ℕ)
      → count ≤ block_size
      → j < count
      → (serve_download id s target exec count shared offset).0
          (client_slot_offset id + Reg.retval_v + j)
        ≡ target (offset + j)
  unfolding serve_download exec_download answer
  serve_download-get count shared offset j h q =
      let e : client_slot_offset id + Reg.retval_v + j - (client_slot_offset id + Reg.retval)
          ≡ Reg.retval_v - Reg.retval + j =
        omega arith in
      rw kept (
        store32-above (copied shared count offset) (client_slot_offset id + Reg.submit) 0 _
          (omega arith)
        ∙ ground (
          arith,
          ap (λ k. get_or (reply_bytes (replied count offset)) k 0) e,
          length-reply_bytes (replied count offset),
          reply_bytes-get (replied count offset) (Reg.retval_v - Reg.retval + j) (omega arith),
          replied-get count offset j h q,
        ))

  -- A round copies its block from the target to the destination.
  record Copied (i count : ℕ) (d d' : Download) : Type 0 where
    offset : d'.offset ≡ (d.offset + true_count count) % size_mod
    dst :
        (k : ℕ)
        → d'.dst k ≡ (
            if leb (i * block_size) k && ltb k (i * block_size + true_count count)
            then target (d.offset + (k - i * block_size))
            else d.dst k)

  -- The bytes from `from` to below `size` come from the target, the others stay.
  pub record Filled (from size : ℕ) (d d' : Download) : Type 0 where
    pub offset : d'.offset ≡ size
    pub dst : (k : ℕ) → d'.dst k ≡ (if leb from k && ltb k size then target k else d.dst k)

  round-Copied : (i count : ℕ) (d : Download) → Copied i count d (round id s target exec i count d)
  unfolding round
  round-Copied i count d = record {
    offset = unfold serve_download exec_download in refl;
    dst = λ k.
        overlay-read_bytes d.dst
          (serve_download id s target exec (true_count count) d.shared d.offset).0 (i * block_size)
          (client_slot_offset id + Reg.retval_v) (true_count count) k
        ∙ ground (
          arith,
          serve_download-get (true_count count) d.shared d.offset (k - i * block_size)
              (true_count-le count),
        );
  }

  -- The rounds from `i` on, for a size that does not wrap.
  download_from-Filled :
      (n i size count : ℕ) (d : Download)
      → size < 2 ^ 32
      → i * block_size + n * block_size < size + block_size
      → size ≤ i * block_size + n * block_size
      → (n ≡ 0) ⊎ (count + i * block_size ≡ size)
      → d.offset ≡ min (i * block_size) size
      → Filled (i * block_size) size d (download_from id s target exec n i count d)
  unfolding download_from
  download_from-Filled zero i size count d b lo hi c o = record {
    offset = omega arith;
    dst = λ k. ground arith;
  }
  download_from-Filled (suc n) i size count d b lo hi c o =
      let one = round-Copied i count d in
      let t = true_count-min count in
      let here : i * block_size < size = omega arith in
      let now : count ≡ size - i * block_size = omega arith in
      let next = (count + (size_mod - block_size)) % size_mod in
      let o' : (round id s target exec i count d).offset ≡ min ((i + 1) * block_size) size =
        omega (arith, one.offset, t) in
      let c' : (n ≡ 0) ⊎ (next + (i + 1) * block_size ≡ size) = ground arith in
      let rest =
        download_from-Filled n (i + 1) size next (round id s target exec i count d) b (omega arith)
          (omega arith) c' o' in
      record {
        offset = rest.offset;
        dst = λ k.
            filled k size (i * block_size) ((i + 1) * block_size) (true_count count) d.offset target
              _ _ (d.dst k) (omega arith) (omega arith) (omega arith) (omega (arith, t))
              (omega (arith, t)) (one.dst k) (rest.dst k);
      }

  -- For a size below 2^31, with the server's offset at 0 and no slot to release, the client's buffer
  -- gets exactly the first `size` bytes of the server's, whatever the number of blocks, and the
  -- server's offset ends there.
  pub download_buffer-Filled :
      (size : ℕ) (d : Download)
      → size < 2 ^ 31
      → d.offset ≡ 0
      → Filled 0 size d (download_buffer id s target exec size d)
  unfolding download_buffer
  download_buffer-Filled size d h o = rw (blocks-eq size h) (
      download_from-Filled ((size + (block_size - 1)) / block_size) 0 size size d (omega arith)
        (omega arith) (omega arith) (inr (omega arith)) (omega arith))
