-- ===== src/Submit/Loop.antt =====
-- The command loop of src/server/processor.c on a stream that stands in memory.
use mathlib.Core.List.{append_assoc}
use sharedgl.Prelude.{
  ℕ, zero, suc, ◌+◌, ◌-◌, ◌*◌, ◌≤◌, ◌≡◌, refl, ap, ◌∙◌, List, [], ◌∷◌, ◌++◌, length, arith,
}
use sharedgl.Memory.{Memory, read32}
use sharedgl.Commands.Cmd
use sharedgl.Pb.Stream.{words_at}
use sharedgl.Server.{Effect, Server, run, finished}
use sharedgl.Server.Client.{ClientCall, stream_words, AllNarrow, perform_all}
use sharedgl.Server.Stream.{run-stream_words}

words_at-split :
    (n k : ℕ) (m : Memory) (o : ℕ)
    → words_at m o (n + k) ≡ words_at m o n ++ words_at m (o + 4 * n) k
words_at-split zero k m o =
    let e : 0 + k ≡ k = omega arith in let z : o + 4 * 0 ≡ o = omega arith in rw (e, z) refl
words_at-split (suc n) k m o =
    let e : suc n + k ≡ suc (n + k) = omega arith in
    let z : o + 4 + 4 * n ≡ o + 4 * suc n = omega arith in
    rw e (
      ap (λ ws. read32 m o ∷ ws)
        (words_at-split n k m (o + 4) ∙ ap (λ a. words_at m (o + 4) n ++ words_at m a k) z))

length-words_at : (n : ℕ) (m : Memory) (o : ℕ) → length (words_at m o n) ≡ n
length-words_at zero m o = refl
length-words_at (suc n) m o = ap suc (length-words_at n m (o + 4))

-- With the stream of `cs` and the closing 0 in front, the loop over the `n` words from offset `o` on
-- does what the calls ask for and stops behind the 0.
pub run-words_at :
    (driver : List Effect → ℕ) (cs : List ClientCall) (m : Memory) (o n : ℕ) (s : Server)
    → AllNarrow cs
    → length (stream_words cs) + 1 ≤ n
    → words_at m o (length (stream_words cs) + 1) ≡ stream_words cs ++ (0 ∷ [])
    → run driver (suc n) n s (words_at m o n)
      ≡ finished
          (perform_all driver 0 cs s)
          (words_at m (o + 4 * (length (stream_words cs) + 1)) (n - (length (stream_words cs) + 1)))
run-words_at driver cs m o n s narrow room words =
    let count = length (stream_words cs) + 1 in
    let behind = words_at m (o + 4 * count) (n - count) in
    let front : words_at m o n ≡ stream_words cs ++ (Cmd.invalid ∷ behind) =
      ap (words_at m o) (omega arith)
      ∙ words_at-split count (n - count) m o
      ∙ ap (λ ws. ws ++ behind) words
      ∙ append_assoc (stream_words cs) (0 ∷ []) behind in
    ap (run driver (suc n) n s) front
    ∙ ap (λ total. run driver (suc n) total s (stream_words cs ++ (Cmd.invalid ∷ behind)))
        (omega (arith, length-words_at (n - count) m (o + 4 * count)))
    ∙ run-stream_words driver cs (suc n) s behind narrow (omega arith)
