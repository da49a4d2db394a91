-- ===== src/Detection/Condition/Run.antt =====
-- How a run of the condition parser ends: with a value, with the ValueError of `int`, which names the
-- text, or out of fuel.
use siem_lite.Prelude.{Option, none, some}
use siem_lite.Text.Chars.{Text}

pub data Outcome {ℓ} (A : Type ℓ) : Type ℓ where
  done : A → Outcome A
  value_error : Text → Outcome A
  out_of_fuel : Outcome A

infixl 5 ◌>>=◌
abbrev pub ◌>>=◌ {ℓ κ} : {A : Type ℓ} {B : Type κ} → Outcome A → (A → Outcome B) → Outcome B
done a >>= f = f a
value_error t >>= f = value_error t
out_of_fuel >>= f = out_of_fuel

-- Any other end than a value is an exception to the caller.
abbrev pub or_exception {ℓ} : {A : Type ℓ} → Outcome A → Option A
or_exception (done a) = some a
or_exception (value_error t) = none
or_exception out_of_fuel = none
