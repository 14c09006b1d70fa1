-- ===== src/Strings.antt =====
-- Strings on the wire: `push_string` and `push_counted_string` of src/client/glimpl.c, and what
-- src/server/processor.c reads them with. A C string is its bytes without the NUL.
pub mod Words
pub mod Counted
mod Tests
use Prim.Native.Nat.{bit_or}
use sharedgl.Prelude.{
  ℕ, zero, suc, ◌+◌, ◌-◌, ◌*◌, ◌/◌, ◌%◌, ◌^◌, Bool, ◌||◌, ◌&&◌, not, Option, none, some, List, [],
  ◌∷◌, ltb, ◌==◌, if◌then◌else◌, length, take,
}
use sharedgl.Memory.{Memory, read32}
use sharedgl.Layout.{int_sign}
use sharedgl.Pb.{PushBuffer, pb_push, pb_memcpy}
use sharedgl.Pb.Stream.{push_all}

-- Four bytes as an `int`, the first lowest.
abbrev pub word : ℕ → ℕ → ℕ → ℕ → ℕ
word a b c d = a + 256 * b + 65536 * c + 16777216 * d

-- One of the four bytes of the word is 0.
unfoldable pub has_zero : ℕ → Bool
has_zero w =
    w % 256 == 0 || (w / 256 % 256 == 0 || (w / 65536 % 256 == 0 || w / 16777216 % 256 == 0))

-- A `char` is signed: in an expression it is the `int` of the same value, here as its bit pattern.
abbrev pub char_int : ℕ → ℕ
char_int c = if ltb c 128 then c else 2 ^ 32 - 256 + c

-- `res |= s[len - rem] << shift` for the bytes that are left
unfoldable pub tail_word : List ℕ → ℕ → ℕ → ℕ
tail_word [] shift res = res
tail_word (c ∷ cs) shift res =
    tail_word cs (shift + 8) (bit_or res (char_int c * 2 ^ shift % 2 ^ 32))

-- The last push of `push_string`, given the word pushed before.
unfoldable pub terminator : ℕ → List ℕ
terminator last = if has_zero last then [] else 0 ∷ []

-- The words that `push_string` pushes, in order; `last` is its variable.
unfoldable pub string_from : ℕ → List ℕ → List ℕ
string_from last [] = terminator last
string_from last (a ∷ []) = let res = tail_word (a ∷ []) 0 0 in res ∷ terminator res
string_from last (a ∷ b ∷ []) = let res = tail_word (a ∷ b ∷ []) 0 0 in res ∷ terminator res
string_from last (a ∷ b ∷ c ∷ []) = let res = tail_word (a ∷ b ∷ c ∷ []) 0 0 in res ∷ terminator res
string_from last (a ∷ b ∷ c ∷ d ∷ s) = word a b c d ∷ string_from (word a b c d) s

unfoldable pub push_string : List ℕ → PushBuffer → PushBuffer
push_string s b = push_all (string_from 0 s) b

-- `len > 0`, of an `int`
abbrev pub is_positive : ℕ → Bool
is_positive len = ltb 0 len && not (int_sign len)

-- `len` is an `int`; `s` holds the bytes at the pointer, at least `len` where that is positive.
unfoldable pub push_counted_string : List ℕ → ℕ → PushBuffer → PushBuffer
push_counted_string s len b =
    if is_positive len then pb_memcpy (take len s) (pb_push len b) else pb_push len b

-- `ADVANCE_PAST_STRING`: the words that are left, or `none` where the scan leaves the stream.
unfoldable pub advance_past_string : List ℕ → Option (List ℕ)
advance_past_string [] = none
advance_past_string (w ∷ ws) =
    let rest = advance_past_string ws in if has_zero w then some ws else rest

-- The C string at `(char*)pb`: the bytes up to the first NUL.
unfoldable pub c_string : List ℕ → List ℕ
c_string [] = []
c_string (w ∷ ws) =
    let rest = c_string ws in
    if w % 256 == 0
    then []
    else w % 256
      ∷ (if w / 256 % 256 == 0
          then []
          else w / 256 % 256
            ∷ (if w / 65536 % 256 == 0
                then []
                else w / 65536 % 256
                  ∷ (if w / 16777216 % 256 == 0 then [] else w / 16777216 % 256 ∷ rest)))

-- `pb` moved by `CEIL_DIV(len, 4)` words, for an `int` that is below 2^31 - 3: a division of a negative
-- number goes towards 0.
abbrev pub advance : ℕ → ℕ → ℕ
advance pb len = if int_sign len then pb - (2 ^ 32 - len - 3) / 4 * 4 else pb + (len + 3) / 4 * 4

-- `read_counted_strings` from offset `pb`: each string's start and length, an `int`, and the offset
-- behind.
unfoldable pub read_counted_strings : ℕ → Memory → ℕ → List (ℕ × ℕ) × ℕ
read_counted_strings zero m pb = ([], pb)
read_counted_strings (suc count) m pb =
    let len = read32 m pb in
    let (rest, last) = read_counted_strings count m (advance (pb + 4) len) in
    ((pb + 4, len) ∷ rest, last)
