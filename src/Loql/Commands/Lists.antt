-- ===== src/Loql/Commands/Lists.antt =====
-- The loops over commas of the commands in `app/loql/parser.py`: they end within their fuel.
use siem_lite.Prelude.{
  ℕ, zero, suc, ◌≤◌, ◌<◌, Bool, true, false, List, [], ◌∷◌, All, length, arith, if◌then◌else◌,
}
use siem_lite.Loql.Result.{Result, Returns, returned, Returns-then, Returns-branch}
use siem_lite.Loql.Lexer.{comma, Tok}
use siem_lite.Loql.Tokens.{is_kind, IsNamed}
use siem_lite.Loql.Commands.{list_tail, list_of}

-- As many tokens are left, or fewer, and what is read has the property.
abbrev pub Within {ℓ} : {A : Type ℓ} → (A → Type 0) → List Tok → A × List Tok → Type 0
Within P ts (a, rest) = P a × (length rest ≤ length ts) × All IsNamed rest

-- Fewer tokens are left.
abbrev pub Before {ℓ} : {A : Type ℓ} → (A → Type 0) → List Tok → A × List Tok → Type 0
Before P ts (a, rest) = P a × (length rest < length ts) × All IsNamed rest

abbrev pub Reads {ℓ} : {A : Type ℓ} → (A → Type 0) → (List Tok → Result (A × List Tok)) → Type ℓ
Reads P item = (ts : List Tok) → All IsNamed ts → Returns (Before P ts) (item ts)

list_tail-Returns {ℓ} :
    {A : Type ℓ} (P : A → Type 0) (n : ℕ) (item : List Tok → Result (A × List Tok)) (ts : List Tok)
    → Reads P item
    → All IsNamed ts
    → length ts < n
    → Returns (Within (All P) ts) (list_tail n item ts)
unfolding list_tail
list_tail-Returns P zero item ts reads w h = absurd (omega arith)
list_tail-Returns P (suc n) item [] reads w h = returned (tt, omega arith, w)
list_tail-Returns P (suc n) item (t ∷ ts) reads (v, w) h =
    Returns-branch (is_kind comma t)
      (λ _. Returns-then (reads ts w) λ (a, rest₁) (p, s₁, w₁).
        Returns-then (list_tail-Returns P n item rest₁ reads w₁ (omega arith))
          λ (more, rest) (ps, s₂, w₂). returned ((p, ps), omega arith, w₂))
      (λ _. returned (tt, omega arith, (v, w)))

pub list_of-Returns {ℓ} :
    {A : Type ℓ} (P : A → Type 0) (item : List Tok → Result (A × List Tok)) (ts : List Tok)
    → Reads P item
    → All IsNamed ts
    → Returns (Before (All P) ts) (list_of item ts)
unfolding list_of
list_of-Returns P item ts reads w = Returns-then (reads ts w) λ (a, rest₁) (p, s₁, w₁).
    Returns-then (list_tail-Returns P (suc (length rest₁)) item rest₁ reads w₁ (omega arith))
      λ (more, rest) (ps, s₂, w₂). returned ((p, ps), omega arith, w₂)

pub if-either {ℓ} :
    {A : Type ℓ} (P : A → Type 0) (b : Bool) (x y : A) → P x → P y → P (if b then x else y)
if-either P true x y p q = p
if-either P false x y p q = q
