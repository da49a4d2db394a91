-- ===== src/Detection/Gate/Binding.antt =====
-- What a binding to data models means, name by name: the loop of `_gate` and the test of
-- `datamodels_match` with no gate in between.
use siem_lite.Prelude.{
  ◌≡◌, refl, ap, sym, ◌∙◌, Bool, false, ◌&&◌, ◌||◌, List, [], ◌∷◌, Option, none, some, inl, inr,
  Bool-cases, is_some, is_empty, any_of, all_of,
}
use siem_lite.Text.Chars.{Text, member}
use siem_lite.Cim.Spec.{CimModel, CimRegistry, by_name}
use siem_lite.Detection.Gate.{sort_name, resolve_names, gate_of, admits}

abbrev pub is_known : CimRegistry → Text → Bool
is_known reg name = is_some (by_name reg name)

abbrev tag_in : Option CimModel → List Text → Bool
tag_in none tags = false
tag_in (some model) tags = member model.tag tags

-- The name is a model's, and the event is in that model.
abbrev pub names_one_of : CimRegistry → List Text → Text → Bool
names_one_of reg tags name = tag_in (by_name reg name) tags

-- Every name is known, and some name is of a model that the event is in.
abbrev pub is_bound : CimRegistry → List Text → List Text → Bool
is_bound reg names tags = all_of (is_known reg) names && any_of (names_one_of reg tags) names

sort_name-known :
    (name : Text) (m : Option CimModel) (r : List Text × List Text)
    → is_empty (sort_name name m r).1 ≡ (is_some m && is_empty r.1)
sort_name-known name none (resolved, unknown) = refl
sort_name-known name (some model) (resolved, unknown) = refl

sort_name-tags :
    (tags : List Text) (name : Text) (m : Option CimModel) (r : List Text × List Text)
    → any_of (λ t. member t tags) (sort_name name m r).0
      ≡ (tag_in m tags || any_of (λ t. member t tags) r.0)
sort_name-tags tags name none (resolved, unknown) = refl
sort_name-tags tags name (some model) (resolved, unknown) = refl

pub resolve_names-known :
    (reg : CimRegistry) (names : List Text)
    → is_empty (resolve_names reg names).1 ≡ all_of (is_known reg) names
unfolding resolve_names
resolve_names-known reg [] = refl
resolve_names-known reg (name ∷ names) =
    sort_name-known name (by_name reg name) (resolve_names reg names)
    ∙ ap (λ b. is_known reg name && b) (resolve_names-known reg names)

resolve_names-tags :
    (reg : CimRegistry) (tags names : List Text)
    → any_of (λ t. member t tags) (resolve_names reg names).0 ≡ any_of (names_one_of reg tags) names
unfolding resolve_names
resolve_names-tags reg tags [] = refl
resolve_names-tags reg tags (name ∷ names) =
    sort_name-tags tags name (by_name reg name) (resolve_names reg names)
    ∙ ap (λ b. names_one_of reg tags name || b) (resolve_names-tags reg tags names)

-- The gate of a binding admits an event exactly as the names say.
pub admits-gate_of :
    (reg : CimRegistry) (names tags : List Text)
    → admits (gate_of reg names) tags ≡ is_bound reg names tags
unfolding admits gate_of
admits-gate_of reg names tags = elim (Bool-cases (is_empty (resolve_names reg names).1)) [
  | inl e ↦
      let k = sym e ∙ resolve_names-known reg names in
      rw (e, sym k) (resolve_names-tags reg tags names)
  | inr e ↦ let k = sym e ∙ resolve_names-known reg names in rw (e, sym k) refl
]
