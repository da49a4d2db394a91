-- ===== src/ThreatIntel/Observables.antt =====
-- `_observables` and `_collect_scalars` of `app/threatintel/matcher.py`.
use siem_lite.Prelude.{ℕ, zero, suc, List, [], ◌∷◌, ◌++◌, Option, none, some}
use siem_lite.Text.Chars.{Text}
use siem_lite.Value.Defs.{
  Value, null, boolean, int, real, str, list, dict, Fields, end, field, Items, nil, cons,
}
use siem_lite.Value.Render.{show}
use siem_lite.Value.Event.{NormalizedEvent}

-- `_collect_scalars`, with the levels that are left
unfoldable mutual
  unfolding show

  pub collect_scalars : ℕ → Value → List Text
  collect_scalars zero v = []
  collect_scalars (suc n) (dict fs) = collect_fields n fs
  collect_scalars (suc n) (list vs) = collect_items n vs
  collect_scalars (suc n) null = []
  collect_scalars (suc n) (boolean b) = show (boolean b) ∷ []
  collect_scalars (suc n) (int i) = show (int i) ∷ []
  collect_scalars (suc n) (real t) = show (real t) ∷ []
  collect_scalars (suc n) (str s) = show (str s) ∷ []

  pub collect_fields : ℕ → Fields → List Text
  collect_fields n end = []
  collect_fields n (field k v fs) = collect_scalars n v ++ collect_fields n fs

  pub collect_items : ℕ → Items → List Text
  collect_items n nil = []
  collect_items n (cons v vs) = collect_scalars n v ++ collect_items n vs

-- `vals.append(str(f))`, if f is set
abbrev pub given : Option Text → List Text
given none = []
given (some []) = []
given (some (c ∷ s)) = (c ∷ s) ∷ []

-- `_observables`; the depths 0 to 16 are read
unfoldable pub observables : NormalizedEvent → List Text
unfolding collect_scalars
observables e =
    given e.src_ip
    ++ given e.dst_ip
    ++ given e.host_name
    ++ given e.app
    ++ given e.user_name
    ++ given e.rule_name
    ++ given e.message
    ++ collect_scalars 17 (dict e.raw)
