-- ===== src/IngestActions/Raw.antt =====
-- `raw_get`, `raw_set` and `walk_strings` of `app/ingest_actions.py`. An operation in place gives the
-- object after it with what it returns, none where it raised.
use siem_lite.Prelude.{
  ℕ, suc, ltb, ◌≡◌, refl, ◌∙◌, some_eq, ap, ap₂, Bool, true, false, not, ◌||◌, List, [], ◌∷◌,
  Option, none, some,
}
use siem_lite.Prelude.Dict
use siem_lite.Text.Chars.{Text, text, text_eq, text_eq_iff}
use siem_lite.Value.Defs.{
  Value, null, boolean, int, real, str, list, dict, Fields, end, field, Items, nil, cons, entries,
  fields_of,
}

-- An object after an operation, and whether the operation changed it.
abbrev pub Outcome {ℓ} : Type ℓ → Type ℓ
Outcome A = A × Option Bool

-- Where the operation returns that it changed nothing, nothing is changed.
abbrev pub IsHonest {ℓ} : {A : Type ℓ} → A → Outcome A → Type ℓ
IsHonest a out = out.1 ≡ some false → out.0 ≡ a

abbrev pub or_changed : Bool → Option Bool → Option Bool
or_changed c none = none
or_changed c (some d) = some (d || c)

-- One operation after another.
abbrev pub and_then {ℓ} : {A : Type ℓ} → Outcome A → (A → Outcome A) → Outcome A
and_then (a, none) f = (a, none)
and_then (a, some c) f = let (b, r) = f a in (b, or_changed c r)

unfoldable pub for_each {ℓ κ} :
    {A : Type ℓ} {S : Type κ} → (S → A → Outcome A) → List S → A → Outcome A
for_each f [] a = (a, some false)
for_each f (s ∷ specs) a = and_then (f s a) (for_each f specs)

or_changed_same :
    (c : Bool) (r : Option Bool) → or_changed c r ≡ some false → (c ≡ false) × (r ≡ some false)
or_changed_same c none h = absurd (cc)
or_changed_same true (some true) h = absurd (cc)
or_changed_same true (some false) h = absurd (cc)
or_changed_same false (some true) h = absurd (cc)
or_changed_same false (some false) h = (refl, refl)

pub and_then-IsHonest {ℓ} :
    {A : Type ℓ} (a : A) (out : Outcome A) (f : A → Outcome A)
    → IsHonest a out
    → ((b : A) → IsHonest b (f b))
    → IsHonest a (and_then out f)
and_then-IsHonest a (b, none) f h k e = absurd (cc)
and_then-IsHonest a (b, some c) f h k e =
    let (p, q) = or_changed_same c (f b).1 e in k b q ∙ h (ap some p)

pub for_each-IsHonest {ℓ κ} :
    {A : Type ℓ} {S : Type κ} (f : S → A → Outcome A) (specs : List S) (a : A)
    → ((s : S) (b : A) → IsHonest b (f s b))
    → IsHonest a (for_each f specs a)
unfolding for_each
for_each-IsHonest f [] a h = λ e. refl
for_each-IsHonest f (s ∷ specs) a h =
    and_then-IsHonest a (f s a) (for_each f specs) (h s a) (λ b. for_each-IsHonest f specs b h)

-- `raw_get`
unfoldable pub raw_get : Value → List Text → Value
unfolding Dict.get text_eq entries
raw_get v [] = v
raw_get (dict fs) (k ∷ path) = elim (Dict.get text k (entries fs)) [
  | none ↦ null
  | some w ↦ raw_get w path
]
raw_get v (k ∷ path) = null

unfoldable pub put : Text → Value → Fields → Fields
unfolding Dict.set text_eq entries fields_of
put k v fs = fields_of (Dict.set text k v (entries fs))

-- `raw_set`; none is the answer False
unfoldable pub raw_set : Value → List Text → Value → Option Value
unfolding Dict.get text_eq entries put
raw_set v [] w = none
raw_set (dict fs) (k ∷ []) w = elim (Dict.get text k (entries fs)) [
  | none ↦ none
  | some old ↦ some (dict (put k w fs))
]
raw_set (dict fs) (k ∷ l ∷ path) w = elim (Dict.get text k (entries fs)) [
  | none ↦ none
  | some child ↦ elim (raw_set child (l ∷ path) w) [
    | none ↦ none
    | some child' ↦ some (dict (put k child' fs))
  ]
]
raw_set v (k ∷ path) w = none

-- `_MAX_SCRUB_DEPTH`
abbrev pub max_scrub_depth : ℕ
max_scrub_depth = 16

abbrev pub rewritten : Text → Option Text → Outcome Value
rewritten s none = (str s, none)
rewritten s (some t) = (str t, some (not (text_eq t s)))

abbrev pub then_field : Text → Outcome Value → (Unit {0} → Outcome Fields) → Fields → Outcome Fields
then_field k (v, none) later fs = (field k v fs, none)
then_field k (v, some c) later fs = let (fs', r) = later tt in (field k v fs', or_changed c r)

abbrev pub then_item : Outcome Value → (Unit {0} → Outcome Items) → Items → Outcome Items
then_item (v, none) later vs = (cons v vs, none)
then_item (v, some c) later vs = let (vs', r) = later tt in (cons v vs', or_changed c r)

-- `walk_strings`, at the depth of the object that holds the values; `f` may raise.
unfoldable mutual
  unfolding text_eq

  pub walk_value : (Text → Option Text) → ℕ → Value → Outcome Value
  walk_value f depth (str s) = rewritten s (f s)
  walk_value f depth (dict fs) = elim (ltb max_scrub_depth (suc depth)) [
    | true ↦ (dict fs, some false)
    | false ↦ let (fs', r) = walk_fields f (suc depth) fs in (dict fs', r)
  ]
  walk_value f depth (list vs) = elim (ltb max_scrub_depth (suc depth)) [
    | true ↦ (list vs, some false)
    | false ↦ let (vs', r) = walk_items f (suc depth) vs in (list vs', r)
  ]
  walk_value f depth null = (null, some false)
  walk_value f depth (boolean b) = (boolean b, some false)
  walk_value f depth (int n) = (int n, some false)
  walk_value f depth (real t) = (real t, some false)

  pub walk_fields : (Text → Option Text) → ℕ → Fields → Outcome Fields
  walk_fields f depth end = (end, some false)
  walk_fields f depth (field k v fs) =
      then_field k (walk_value f depth v) (λ _. walk_fields f depth fs) fs

  pub walk_items : (Text → Option Text) → ℕ → Items → Outcome Items
  walk_items f depth nil = (nil, some false)
  walk_items f depth (cons v vs) = then_item (walk_value f depth v) (λ _. walk_items f depth vs) vs

pub rewritten-IsHonest : (s : Text) (o : Option Text) → IsHonest (str s) (rewritten s o)
rewritten-IsHonest s none e = refl
rewritten-IsHonest s (some t) e = ap str ((text_eq_iff t s).0 (not_false (text_eq t s) (some_eq e)))
  where
    not_false : (b : Bool) → not b ≡ false → b ≡ true
    not_false true h = refl
    not_false false h = absurd (cc)

then_field-IsHonest :
    (k : Text) (v : Value) (fs : Fields) (out : Outcome Value) (later : Unit {0} → Outcome Fields)
    → IsHonest v out
    → IsHonest fs (later tt)
    → IsHonest (field k v fs) (then_field k out later fs)
then_field-IsHonest k v fs (w, none) later h g e = absurd (cc)
then_field-IsHonest k v fs (w, some c) later h g e =
    let (p, q) = or_changed_same c (later tt).1 e in ap₂ (field k) (h (ap some p)) (g q)

then_item-IsHonest :
    (v : Value) (vs : Items) (out : Outcome Value) (later : Unit {0} → Outcome Items)
    → IsHonest v out
    → IsHonest vs (later tt)
    → IsHonest (cons v vs) (then_item out later vs)
then_item-IsHonest v vs (w, none) later h g e = absurd (cc)
then_item-IsHonest v vs (w, some c) later h g e =
    let (p, q) = or_changed_same c (later tt).1 e in ap₂ cons (h (ap some p)) (g q)

pub branch-IsHonest {ℓ} :
    {A : Type ℓ} (a : A) (b : Bool) (x y : Outcome A)
    → IsHonest a x
    → IsHonest a y
    → IsHonest a (elim b [ true ↦ x | false ↦ y ])
branch-IsHonest a true x y h k = h
branch-IsHonest a false x y h k = k

-- A walk that reports no change made none.
mutual
  unfolding walk_value text_eq

  pub walk_value-IsHonest :
      (f : Text → Option Text) (depth : ℕ) (v : Value) → IsHonest v (walk_value f depth v)
  walk_value-IsHonest f depth (str s) = rewritten-IsHonest s (f s)
  walk_value-IsHonest f depth (dict fs) =
      branch-IsHonest (dict fs) (ltb max_scrub_depth (suc depth)) _ _ (λ e. refl)
        (λ e. ap dict (walk_fields-IsHonest f (suc depth) fs e))
  walk_value-IsHonest f depth (list vs) =
      branch-IsHonest (list vs) (ltb max_scrub_depth (suc depth)) _ _ (λ e. refl)
        (λ e. ap list (walk_items-IsHonest f (suc depth) vs e))
  walk_value-IsHonest f depth null = λ e. refl
  walk_value-IsHonest f depth (boolean b) = λ e. refl
  walk_value-IsHonest f depth (int n) = λ e. refl
  walk_value-IsHonest f depth (real t) = λ e. refl

  pub walk_fields-IsHonest :
      (f : Text → Option Text) (depth : ℕ) (fs : Fields) → IsHonest fs (walk_fields f depth fs)
  walk_fields-IsHonest f depth end = λ e. refl
  walk_fields-IsHonest f depth (field k v fs) =
      then_field-IsHonest k v fs (walk_value f depth v) (λ _. walk_fields f depth fs)
        (walk_value-IsHonest f depth v) (walk_fields-IsHonest f depth fs)

  walk_items-IsHonest :
      (f : Text → Option Text) (depth : ℕ) (vs : Items) → IsHonest vs (walk_items f depth vs)
  walk_items-IsHonest f depth nil = λ e. refl
  walk_items-IsHonest f depth (cons v vs) =
      then_item-IsHonest v vs (walk_value f depth v) (λ _. walk_items f depth vs)
        (walk_value-IsHonest f depth v) (walk_items-IsHonest f depth vs)
