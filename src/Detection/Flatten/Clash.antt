-- ===== src/Detection/Flatten/Clash.antt =====
-- Normalized fields win over the raw record in `flatten_event`.
use siem_lite.Prelude.{
  ℕ, ◌+◌, ◌≡◌, List, [], ◌∷◌, ◌++◌, Option, none, some, inl, inr, Bool-cases, ltb,
}
use siem_lite.Prelude.Dict
use siem_lite.Text.Chars.{Text, codes, text, lower}
use siem_lite.Value.Defs.{Value, null, boolean, int, real, str, list, dict, Fields, end, field}
use siem_lite.Value.Event.{NormalizedEvent}
use siem_lite.Detection.Flatten.{Flat, normalized, flatten_fields, flatten_entry, flatten_event}

get-append {ℓ κ} :
    {K : Type ℓ} {V : Type κ} (e : Dict.Eq K) (k : K) (d f : List (K × V)) {v : V}
    → Dict.get e k d ≡ some v
    → Dict.get e k (d ++ f) ≡ some v
unfolding Dict.get
get-append e k [] f h = absurd (cc)
get-append e k ((j, w) ∷ d) f h = elim (Bool-cases (e.same j k)) [
  | inl a ↦ rw a (rw a at h)
  | inr a ↦ rw a (get-append e k d f (rw a at h))
]

get-set_default :
    (k j : Text) (v w : Value) (out : Flat)
    → Dict.get text k out ≡ some v
    → Dict.get text k (Dict.set_default text j w out) ≡ some v
unfolding Dict.set_default
get-set_default k j v w out h = go (Dict.get text j out)
  where
    go :
        (o : Option Value)
        → Dict.get text k (elim o [ none ↦ out ++ (j, w) ∷ [] | some x ↦ out ]) ≡ some v
    go none = get-append text k out ((j, w) ∷ []) h
    go (some x) = h

mutual
  unfolding flatten_fields flatten_entry

  get-flatten_fields :
      (fs : Fields) (prefix : Text) (depth : ℕ) (out : Flat) (k : Text) (v : Value)
      → Dict.get text k out ≡ some v
      → Dict.get text k (flatten_fields fs prefix depth out) ≡ some v
  get-flatten_fields end prefix depth out k v h = h
  get-flatten_fields (field j w fs) prefix depth out k v h =
      get-flatten_fields fs prefix depth (flatten_entry w (lower (prefix ++ j)) depth out) k v
        (get-flatten_entry w (lower (prefix ++ j)) depth out k v h)

  get-flatten_entry :
      (w : Value) (key : Text) (depth : ℕ) (out : Flat) (k : Text) (v : Value)
      → Dict.get text k out ≡ some v
      → Dict.get text k (flatten_entry w key depth out) ≡ some v
  get-flatten_entry (dict fs) key depth out k v h = elim (Bool-cases (ltb 16 (depth + 1))) [
    | inl e ↦ rw e h
    | inr e ↦ rw e (get-flatten_fields fs (key ++ codes ".") (depth + 1) out k v h)
  ]
  get-flatten_entry null key depth out k v h = get-set_default k key v null out h
  get-flatten_entry (boolean b) key depth out k v h = get-set_default k key v (boolean b) out h
  get-flatten_entry (int n) key depth out k v h = get-set_default k key v (int n) out h
  get-flatten_entry (real t) key depth out k v h = get-set_default k key v (real t) out h
  get-flatten_entry (str t) key depth out k v h = get-set_default k key v (str t) out h
  get-flatten_entry (list vs) key depth out k v h = get-set_default k key v (list vs) out h

-- A normalized field that an event has is what the flattened event holds under its name, whatever
-- the raw record holds, at any depth and in any spelling.
pub flatten_event-normalized :
    (e : NormalizedEvent) (k : Text) (v : Value)
    → Dict.get text k (normalized e) ≡ some v
    → Dict.get text k (flatten_event e) ≡ some v
unfolding flatten_event
flatten_event-normalized e k v h = get-flatten_fields e.raw [] 0 (normalized e) k v h
