-- ===== src/Detection/Glob.antt =====
-- `_glob_to_re` and the `re.fullmatch` of what it returns, under `re.DOTALL`.
pub mod Language
use siem_lite.Prelude.{ℕ, Bool, true, false, ◌&&◌, ◌||◌, List, [], ◌∷◌, ◌==◌, if◌then◌else◌}
use siem_lite.Text.Chars.{Text}

-- The three pieces of regular expression: `.*`, `.` and an escaped character.
pub data Piece : Type 0 where
  any_run : Piece
  any_one : Piece
  literal : ℕ → Piece

pub glob_piece : ℕ → Piece
glob_piece ch = if ch == b'*' then any_run else if ch == b'?' then any_one else literal ch

pub glob_to_re : Text → List Piece
unfolding glob_piece
glob_to_re [] = []
glob_to_re (ch ∷ e) = glob_piece ch ∷ glob_to_re e

-- `re.fullmatch`, by backtracking. A run is tried at its longest first.
pub fullmatch : List Piece → Text → Bool
fullmatch [] [] = true
fullmatch [] (c ∷ s) = false
fullmatch (any_run ∷ p) [] = fullmatch p []
fullmatch (any_run ∷ p) (c ∷ s) = fullmatch (any_run ∷ p) s || fullmatch p (c ∷ s)
fullmatch (any_one ∷ p) [] = false
fullmatch (any_one ∷ p) (c ∷ s) = fullmatch p s
fullmatch (literal x ∷ p) [] = false
fullmatch (literal x ∷ p) (c ∷ s) = c == x && fullmatch p s

unfoldable pub glob_match : Text → Text → Bool
unfolding glob_to_re fullmatch
glob_match e s = fullmatch (glob_to_re e) s
