-- ===== src/Value/Defs.antt =====
-- Python values, Python's truth test, `isinstance` and `in`.
use siem_lite.Prelude.{
  ℕ, zero, Bool, true, false, not, List, [], ◌∷◌, Option, none, some, is_empty, any_of,
}
use siem_lite.Prelude.Dict
use siem_lite.Text.Chars.{Text, codes, text, text_eq, member}
use siem_lite.Text.Search.{contains}

-- `negsuc n` is -(n + 1).
pub data ℤ : Type 0 where
  pos : ℕ → ℤ
  negsuc : ℕ → ℤ

mutual
  pub data Value : Type 0 where
    null : Value
    boolean : Bool → Value
    int : ℤ → Value
    real : Text → Value
    str : Text → Value
    list : Items → Value
    dict : Fields → Value

  pub data Fields : Type 0 where
    end : Fields
    field : Text → Value → Fields → Fields

  pub data Items : Type 0 where
    nil : Items
    cons : Value → Items → Items

unfoldable pub elements : Items → List Value
elements nil = []
elements (cons v vs) = v ∷ elements vs

unfoldable pub entries : Fields → List (Text × Value)
entries end = []
entries (field k v fs) = (k, v) ∷ entries fs

unfoldable pub items_of : List Value → Items
items_of [] = nil
items_of (v ∷ vs) = cons v (items_of vs)

unfoldable pub fields_of : List (Text × Value) → Fields
fields_of [] = end
fields_of ((k, v) ∷ fs) = field k v (fields_of fs)

-- `bool(v)`
unfoldable pub truthy : Value → Bool
unfolding text_eq member
truthy null = false
truthy (boolean b) = b
truthy (int (pos zero)) = false
truthy (int _) = true
truthy (real t) = not (member t (codes "0.0" ∷ codes "-0.0" ∷ []))
truthy (str t) = not (is_empty t)
truthy (list nil) = false
truthy (list (cons _ _)) = true
truthy (dict end) = false
truthy (dict (field _ _ _)) = true

-- `v or w`
unfoldable pub or_else : Value → Value → Value
unfolding truthy
or_else v w = elim (truthy v) [ true ↦ v | false ↦ w ]

-- `d.get(k)` of a `dict`, with `None` for a missing key
unfoldable pub field_or_null : Text → Fields → Value
unfolding Dict.get text_eq entries
field_or_null k fs = elim (Dict.get text k (entries fs)) [ none ↦ null | some v ↦ v ]

-- `[v]` unless `v` is a list already
unfoldable pub as_list : Value → List Value
unfolding elements
as_list (list vs) = elements vs
as_list v = v ∷ []

is_text : Text → Value → Bool
is_text k (str t) = text_eq t k
is_text k _ = false

-- `k in v` for a text `k`; `none` is the TypeError of a value that holds nothing
unfoldable pub holds_key : Text → Value → Option Bool
unfolding is_text text_eq elements entries Dict.get contains
holds_key k (str t) = some (contains k t)
holds_key k (list vs) = some (any_of (is_text k) (elements vs))
holds_key k (dict fs) = some (elim (Dict.get text k (entries fs)) [ none ↦ false | some _ ↦ true ])
holds_key k _ = none

-- `v[k]` for a text `k`; `none` is the exception
unfoldable pub item_at : Text → Value → Option Value
unfolding text_eq entries Dict.get
item_at k (dict fs) = Dict.get text k (entries fs)
item_at k _ = none
