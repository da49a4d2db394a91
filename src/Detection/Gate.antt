-- ===== src/Detection/Gate.antt =====
-- The data-model gate: `_log_once`, `_cim`, `reset_cim_cache`, `cim_tags`, `_gate` and
-- `datamodels_match`, over the module's globals as one record.
--
-- The clock counts milliseconds. The lazy import and `get_registry` enter as the outcome of the
-- attempt: the registry, or `none` where they raise. The plan cache of `app/cim/match.py` is not
-- part of this state: Cim.Cache is about it.
pub mod Binding
pub mod Facts
pub mod Keeps
pub mod Steps
pub mod Threads
use siem_lite.Prelude.{
  ℕ, ◌+◌, Bool, true, false, not, ◌&&◌, List, [], ◌∷◌, Option, none, some, is_some, if◌then◌else◌,
  ltb, leb, ◌==◌, length, is_empty, keep, any_of,
}
use siem_lite.Prelude.Except.{Except, ok, raise, ◌>>=◌}
use siem_lite.Text.Chars.{Text, text_eq, member}
use siem_lite.Cim.Spec.{CimError, CimModel, CimRegistry, by_name}
use siem_lite.Cim.Match.{EventLike}
use siem_lite.Cim.Plan.{compile, tags_of_plan}
use siem_lite.Detection.Rule.{Rule}

-- `(rule.id, tuple(rule.datamodels))`
pub record Key : Type 0 where
  pub rule_id : Text
  pub names : List Text

abbrev pub texts_eq : List Text → List Text → Bool
texts_eq [] [] = true
texts_eq (s ∷ ss) (t ∷ ts) = text_eq s t && texts_eq ss ts
texts_eq _ _ = false

abbrev pub key_eq : Key → Key → Bool
key_eq a b = text_eq a.rule_id b.rule_id && texts_eq a.names b.names

pub record Gate : Type 0 where
  pub tags : List Text
  pub dead : Bool

-- The keys of `_log_once`.
pub data LogKey : Type 0 where
  cim_unavailable : LogKey
  cim_eval_failed : LogKey
  unknown_datamodel : Key → LogKey

abbrev pub log_key_eq : LogKey → LogKey → Bool
log_key_eq cim_unavailable cim_unavailable = true
log_key_eq cim_eval_failed cim_eval_failed = true
log_key_eq (unknown_datamodel a) (unknown_datamodel b) = key_eq a b
log_key_eq _ _ = false

-- The module's globals; `errors` is what `log.error` has printed, the newest first.
pub record CimState : Type 0 where
  pub resolved : Bool
  pub registry : Option CimRegistry
  pub retry_at : Option ℕ
  pub generation : ℕ
  pub gate_cache : List (Key × Gate)
  pub logged : List LogKey
  pub errors : List LogKey

abbrev pub initial : CimState
initial = record {
  resolved = false;
  registry = none;
  retry_at = none;
  generation = 0;
  gate_cache = [];
  logged = [];
  errors = [];
}

abbrev pub gate_cache_max : ℕ
gate_cache_max = 512

abbrev pub log_keys_max : ℕ
log_keys_max = 512

abbrev pub cim_retry_milliseconds : ℕ
cim_retry_milliseconds = 30000

unfoldable pub log_once : LogKey → CimState → CimState
unfolding text_eq
log_once key st = if any_of (log_key_eq key) st.logged then st else record st {
  logged = key ∷ (if leb log_keys_max (length st.logged) then [] else st.logged);
  errors = key ∷ st.errors;
}

-- `_logged.discard(key)`
abbrev pub discard : LogKey → List LogKey → List LogKey
discard key ks = keep (λ k. not (log_key_eq key k)) ks

abbrev pub inside_wall : Option ℕ → ℕ → Bool
inside_wall none now = false
inside_wall (some deadline) now = ltb now deadline

abbrev pub cim_failed : ℕ → CimState → CimState
cim_failed now st =
    log_once cim_unavailable
      (record st { registry = none; retry_at = some (now + cim_retry_milliseconds) })

abbrev pub cim_succeeded : CimRegistry → CimState → CimState
cim_succeeded reg st = record st {
  resolved = true;
  registry = some reg;
  retry_at = none;
  logged = if is_some st.retry_at then discard cim_unavailable st.logged else st.logged;
}

-- The `try` of `_cim`, and what follows it.
abbrev pub cim_outcome : ℕ → CimState → Option CimRegistry → Option CimRegistry × CimState
cim_outcome now st none = (none, cim_failed now st)
cim_outcome now st (some reg) = (some reg, cim_succeeded reg st)

-- `_cim`
unfoldable pub cim : Option CimRegistry → ℕ → CimState → Option CimRegistry × CimState
unfolding log_once text_eq
cim attempt now st =
    if st.resolved
    then (st.registry, st)
    else if inside_wall st.retry_at now
    then (none, st)
    else cim_outcome now st attempt

unfoldable pub reset_cim_cache : CimState → CimState
reset_cim_cache st = record st {
  resolved = false;
  registry = none;
  retry_at = none;
  generation = st.generation + 1;
  gate_cache = [];
  logged = [];
}

-- `tags_for(evt, reg)`, without its plan cache
unfoldable pub membership : CimRegistry → EventLike → Except CimError (List Text)
unfolding compile tags_of_plan
membership reg evt = do plan ← compile reg; ok (tags_of_plan plan evt)

abbrev pub tags_or_log : Except CimError (List Text) → CimState → List Text × CimState
tags_or_log (ok tags) st = (tags, st)
tags_or_log (raise e) st = ([], log_once cim_eval_failed st)

abbrev pub cim_tags_with : EventLike → Option CimRegistry × CimState → List Text × CimState
cim_tags_with evt (none, st) = ([], st)
cim_tags_with evt (some reg, st) = tags_or_log (membership reg evt) st

-- `cim_tags`
unfoldable pub cim_tags : Option CimRegistry → ℕ → EventLike → CimState → List Text × CimState
unfolding cim log_once membership
cim_tags attempt now evt st = cim_tags_with evt (cim attempt now st)

-- One name in the loop of `_gate`: its model's tag, or the name itself, joins its list.
abbrev pub sort_name : Text → Option CimModel → List Text × List Text → List Text × List Text
sort_name name none (resolved, unknown) = (resolved, name ∷ unknown)
sort_name name (some model) (resolved, unknown) = (model.tag ∷ resolved, unknown)

-- The loop of `_gate`: the tags of the names that resolve, and the names that do not.
unfoldable pub resolve_names : CimRegistry → List Text → List Text × List Text
unfolding by_name
resolve_names reg [] = ([], [])
resolve_names reg (name ∷ names) = sort_name name (by_name reg name) (resolve_names reg names)

abbrev pub dead_gate : Gate
dead_gate = record { tags = []; dead = true }

-- The gate that `_gate` computes from a registry.
unfoldable pub gate_of : CimRegistry → List Text → Gate
unfolding resolve_names
gate_of reg names =
    let (resolved, unknown) = resolve_names reg names in
    if is_empty unknown then record { tags = resolved; dead = false } else dead_gate

abbrev pub key_of : Rule → Key
key_of rule = record { rule_id = rule.id; names = rule.datamodels }

abbrev pub cached : Key → List (Key × Gate) → Option Gate
cached key [] = none
cached key ((k, g) ∷ cache) = if key_eq k key then some g else cached key cache

abbrev pub store_gate : Key → Gate → List (Key × Gate) → List (Key × Gate)
store_gate key g [] = (key, g) ∷ []
store_gate key g ((k, h) ∷ cache) =
    if key_eq k key then (k, g) ∷ cache else (k, h) ∷ store_gate key g cache

-- The last critical section of `_gate`.
unfoldable pub gate_commit : ℕ → Key → Gate → CimState → CimState
unfolding text_eq
gate_commit generation key g st =
    if generation == st.generation
    then record st {
      gate_cache =
          store_gate key g
            (if leb gate_cache_max (length st.gate_cache) then [] else st.gate_cache);
    }
    else st

-- The unlocked middle of `_gate`, given the registry.
unfoldable pub gate_log_unknown : CimRegistry → Key → CimState → CimState
unfolding resolve_names log_once
gate_log_unknown reg key st =
    if is_empty (resolve_names reg key.names).1 then st else log_once (unknown_datamodel key) st

abbrev pub gate_with : ℕ → Key → Option CimRegistry × CimState → Gate × CimState
gate_with generation key (none, st) = (dead_gate, st)
gate_with generation key (some reg, st) = (
  gate_of reg key.names,
  gate_commit generation key (gate_of reg key.names) (gate_log_unknown reg key st),
)

-- After the first critical section of `_gate`: a hit, or the way on.
abbrev pub gate_after_lookup :
    Option CimRegistry → ℕ → Key → CimState → Option Gate → Gate × CimState
gate_after_lookup attempt now key st (some hit) = (hit, st)
gate_after_lookup attempt now key st none = gate_with st.generation key (cim attempt now st)

-- `_gate`, run with no other thread in between
unfoldable pub gate : Option CimRegistry → ℕ → Rule → CimState → Gate × CimState
unfolding cim gate_of gate_commit gate_log_unknown text_eq
gate attempt now rule st =
    gate_after_lookup attempt now (key_of rule) st (cached (key_of rule) st.gate_cache)

-- `not gate.dead and not gate.tags.isdisjoint(tags)`
unfoldable pub admits : Gate → List Text → Bool
unfolding member text_eq
admits g tags = not g.dead && any_of (λ t. member t tags) g.tags

unfoldable pub datamodels_match :
    Option CimRegistry → ℕ → Rule → List Text → CimState → Bool × CimState
unfolding gate admits
datamodels_match attempt now rule tags st =
    if is_empty rule.datamodels
    then (true, st)
    else (let (g, st') = gate attempt now rule st in (admits g tags, st'))
