-- ===== src/KillChain/DisjointSet.antt =====
-- `_DisjointSet` of `app/killchain.py`. A method gives none for a KeyError, at an id that was never
-- added; so it does out of fuel, and the fuel is more than the number of ids.
pub mod Forest
pub mod Unions
pub mod Runs
use siem_lite.Prelude.{
  ℕ, zero, suc, ◌+◌, ◌==◌, ==_iff, Bool, true, false, List, [], ◌∷◌, Option, none, some, length,
  if◌then◌else◌,
}
use siem_lite.Prelude.Dict.{Eq, get, set, set_default}

abbrev pub number : Eq ℕ
number = record { same = λ a b. a == b; same_iff = ==_iff }

-- `_parent`
abbrev pub Parents : Type 0
Parents = List (ℕ × ℕ)

infixl 5 ◌>>=◌
abbrev pub ◌>>=◌ {ℓ κ} : {A : Type ℓ} {B : Type κ} → Option A → (A → Option B) → Option B
none >>= next = none
some a >>= next = next a

-- `add`
unfoldable pub add : ℕ → Parents → Parents
unfolding set_default get
add x p = set_default number x x p

-- The first loop of `find`.
unfoldable pub climb : ℕ → Parents → ℕ → Option ℕ
unfolding get
climb zero p x = none
climb (suc n) p x = elim (get number x p) [
  | none ↦ none
  | some y ↦ elim (y == x) [ true ↦ some x | false ↦ climb n p y ]
]

-- The second loop of `find`, the path compression.
unfoldable pub compress : ℕ → Parents → ℕ → ℕ → Option Parents
unfolding get set
compress zero p x root = none
compress (suc n) p x root = elim (get number x p) [
  | none ↦ none
  | some y ↦ elim (y == root) [ true ↦ some p | false ↦ compress n (set number x root p) y root ]
]

-- `find`, with the compressed table
unfoldable pub find : Parents → ℕ → Option (ℕ × Parents)
unfolding climb compress
find p x = do
  root ← climb (suc (length p)) p x
  p' ← compress (suc (length p)) p x root
  some (root, p')

-- The end of `union`, at two roots.
abbrev pub merge : ℕ → ℕ → Parents → Parents
merge ra rb p = if ra == rb then p else set number ra rb p

-- `union`
unfoldable pub union : Parents → ℕ → ℕ → Option Parents
unfolding find set
union p a b = do (ra, p₁) ← find p a; (rb, p₂) ← find p₁ b; some (merge ra rb p₂)

-- `add` for each of some ids.
unfoldable pub add_all : List ℕ → Parents → Parents
unfolding add
add_all [] p = p
add_all (x ∷ xs) p = add_all xs (add x p)

-- `union` for each of some pairs.
unfoldable pub unions : List (ℕ × ℕ) → Parents → Option Parents
unfolding union
unions [] p = some p
unions ((a, b) ∷ pairs) p = do p' ← union p a b; unions pairs p'
