-- ===== src/Strings/Words.antt =====
-- `push_string` of src/client/glimpl.c against the server's scan of the string.
use sharedgl.Prelude.{ℕ, ◌≤◌, ◌<◌, ◌≡◌, some, List, [], ◌∷◌}
use sharedgl.Strings.{advance_past_string, c_string}

abbrev IsChar : ℕ → Type 0
IsChar c = (1 ≤ c) × (c < 256)

abbrev IsAscii : ℕ → Type 0
IsAscii c = (1 ≤ c) × (c < 128)

-- No NUL inside, and the bytes past the last whole word are ASCII.
abbrev pub IsText : List ℕ → Type 0
IsText [] = Unit
IsText (a ∷ []) = IsAscii a
IsText (a ∷ b ∷ []) = IsAscii a × IsAscii b
IsText (a ∷ b ∷ c ∷ []) = IsAscii a × IsAscii b × IsAscii c
IsText (a ∷ b ∷ c ∷ d ∷ s) = IsChar a × IsChar b × IsChar c × IsChar d × IsText s

-- The server's scan finds the string in front of `rest`, and stops there.
pub record Reads (s ws rest : List ℕ) : Type 0 where
  pub text : c_string ws ≡ s
  pub behind : advance_past_string ws ≡ some rest
