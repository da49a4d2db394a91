-- ===== src/Prelude/Except.antt =====
-- A value, or the exception that was raised.

pub data Except {ℓ κ} (E : Type κ) (A : Type ℓ) : Type (ℓ ⊔ κ) where
  ok : A → Except E A
  raise : E → Except E A

infixl 5 ◌>>=◌
abbrev pub ◌>>=◌ {ℓ κ ι} :
    {E : Type κ} {A : Type ℓ} {B : Type ι} → Except E A → (A → Except E B) → Except E B
ok a >>= f = f a
raise e >>= f = raise e
