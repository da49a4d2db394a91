-- ===== src/Loql/Result.antt =====
-- The outcome of a step of the LOQL parser, with the errors of `app/loql/parser.py`.
use siem_lite.Prelude.{ℕ, ◌≡◌, ◌≢◌, refl, Bool, true, false, Option, some}
use siem_lite.Text.Chars.{Text}

-- The messages of `LoqlError`, with what is put into them.
pub data Problem : Type 0 where
  unexpected_character : ℕ → Problem
  expected_token : Text → Text → Problem
  expected_name : Text → Problem
  expected_model : Text → Problem
  empty_model : Problem
  missing_colon : Problem
  source_not_first : Problem
  expected_command : Text → Problem
  misplaced_from : Problem
  unknown_command : Text → Problem
  unknown_aggregate : Text → Problem
  needs_field : Text → Problem
  span_without_unit : Text → Problem
  invalid_span : Text → Problem
  span_without_value : Problem
  not_whole : Text → Problem
  expected_value : Problem
  unknown_function : Text → Problem
  argument_count : Text → ℕ → ℕ → Problem
  unexpected_token : Text → Problem
  too_deep : Problem
  empty_query : Problem

pub record LoqlError : Type 0 where
  pub problem : Problem
  pub pos : Option ℕ

-- `value_error` is the ValueError of `int()` for a text with too many digits; `out_of_fuel` stands
-- for nothing in the program.
pub data Result {ℓ} (A : Type ℓ) : Type ℓ where
  ok : A → Result A
  failed : LoqlError → Result A
  value_error : Result A
  out_of_fuel : Result A

infixl 5 ◌>>=◌
abbrev pub ◌>>=◌ {ℓ κ} : {A : Type ℓ} {B : Type κ} → Result A → (A → Result B) → Result B
ok a >>= next = next a
failed e >>= next = failed e
value_error >>= next = value_error
out_of_fuel >>= next = out_of_fuel

-- `raise LoqlError(problem, pos)`
abbrev pub fail {ℓ} : {A : Type ℓ} → Problem → ℕ → Result A
fail problem pos = failed (record { problem = problem; pos = some pos })

-- The step stays within its fuel, and what it returns, if it returns, has the property.
pub data Returns {ℓ κ} {A : Type ℓ} (P : A → Type κ) : Result A → Type (ℓ ⊔ κ) where
  returned : {a : A} → P a → Returns P (ok a)
  refused : {e : LoqlError} → Returns P (failed e)
  overlong : Returns P value_error

-- One step after another.
pub Returns-then {ℓ κ ℓ' κ'} :
    {A : Type ℓ} {P : A → Type κ} {B : Type ℓ'} {Q : B → Type κ'} {r : Result A}
    {next : A → Result B}
    → Returns P r
    → ((a : A) → P a → Returns Q (next a))
    → Returns Q (r >>= next)
Returns-then (returned p) k = k _ p
Returns-then refused k = refused
Returns-then overlong k = overlong

-- A branch on a test.
pub Returns-branch {ℓ κ} :
    {A : Type ℓ} {P : A → Type κ} (b : Bool) {x y : Result A}
    → (b ≡ true → Returns P x)
    → (b ≡ false → Returns P y)
    → Returns P (elim b [ true ↦ x | false ↦ y ])
Returns-branch true h k = h refl
Returns-branch false h k = k refl

pub Returns-ok {ℓ κ} : {A : Type ℓ} {P : A → Type κ} {a : A} → Returns P (ok a) → P a
Returns-ok (returned p) = p

pub Returns-total {ℓ κ} :
    {A : Type ℓ} {P : A → Type κ} {r : Result A} → Returns P r → r ≢ out_of_fuel
Returns-total (returned p) = cc
Returns-total refused = cc
Returns-total overlong = cc

-- A property that is weaker.
pub Returns-weaken {ℓ κ κ'} :
    {A : Type ℓ} {P : A → Type κ} {Q : A → Type κ'} {r : Result A}
    → ((a : A) → P a → Q a)
    → Returns P r
    → Returns Q r
Returns-weaken f (returned p) = returned (f _ p)
Returns-weaken f refused = refused
Returns-weaken f overlong = overlong
