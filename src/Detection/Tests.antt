-- ===== src/Detection/Tests.antt =====
-- Tests of the detection engine.
use siem_lite.Prelude.{◌≤◌, ◌≡◌, refl, true, [], ◌∷◌, none, some, length, is_empty}
use siem_lite.Text.Chars.{codes, text_eq, lower}
use siem_lite.Text.Number.{digits_only, show_number}
use siem_lite.Text.Digits.{isdigit}
use siem_lite.Cim.Spec.{CimRegistry}
use siem_lite.Cim.Match.{event}
use siem_lite.Detection.Flatten.{flatten_event}
use siem_lite.Detection.Condition.{Sel, parse, tokenize, eval_condition}
use siem_lite.Detection.Condition.Run.{done, value_error}
use siem_lite.Detection.Condition.Total.{Ends, eval_condition-Ends}
use siem_lite.Detection.Condition.Print.{
  Cond, name, at_least, neg, conj, disj, or_level, print, meaning, HasNames, parse-print,
}
use siem_lite.Detection.Gate.{
  CimState, initial, cim, Key, cached, gate_of, gate_cache_max, gate_commit, gate_log_unknown,
  admits,
}
use siem_lite.Detection.Gate.Binding.{is_bound, admits-gate_of}
use siem_lite.Detection.Gate.Steps.{Reach, begin, next, start, resolve, finish}
use siem_lite.Detection.Gate.Threads.{Reach-cached, Reach-bounded}
use siem_lite.Prelude.{◌↔◌}
use siem_lite.Prelude.Dict
use siem_lite.Text.Chars.{text}
use siem_lite.Value.Defs.{str}
use siem_lite.Detection.Flatten.{normalized}
use siem_lite.Detection.Flatten.Clash.{flatten_event-normalized}
use siem_lite.Detection.Glob.{glob_match}
use siem_lite.Detection.Glob.Language.{Globs, glob_match-Globs}
use siem_lite.Detection.Encode.{base64offset}
use siem_lite.Detection.Engine.{evaluate_event}
use siem_lite.Detection.Engine.Rounds.{firing}
use siem_lite.Detection.Engine.Spec.{Ready, admitted, tags_in, evaluate_event-firing}
use siem_lite.Detection.Engine.Outage.{Unavailable, evaluate_event-unbound}
use siem_lite.Samples.{python, registry, failed_logon, rules, bound_rule, windows_rule}

fires_example :
    (evaluate_event python (some registry) 5 rules failed_logon none initial).0
    ≡ bound_rule ∷ windows_rule ∷ []
unfolding evaluate_event digits_only
fires_example = refl

outage_example :
    (evaluate_event python none 5 rules failed_logon none initial).0 ≡ windows_rule ∷ []
unfolding evaluate_event digits_only
outage_example = refl

-- `sel_a and not sel_b or 1 of sel_*`
abbrev cond_example : Cond
cond_example = disj (conj (name (codes "a")) (neg (name (codes "b")))) (at_least 1 (codes "s*"))

abbrev sel_example : Sel
sel_example = (codes "a", true) ∷ (codes "b", true) ∷ (codes "s1", true) ∷ []

names_example : HasNames cond_example
unfolding text_eq lower isdigit show_number
names_example = (((refl, refl, refl), (refl, refl, refl)), refl)

parse-print_example :
    parse sel_example (print or_level cond_example) ≡ done (meaning sel_example cond_example)
parse-print_example = parse-print sel_example cond_example names_example

condition_example : eval_condition (codes "(a and not b) or all of them") sel_example ≡ done true
unfolding eval_condition
condition_example = refl

-- `² of them`, where `int` raises, since `isdigit` holds of the superscript.
superscript_condition : eval_condition (178 ∷ codes " of them") sel_example ≡ value_error (178 ∷ [])
unfolding eval_condition
superscript_condition = refl

eval_condition-Ends_example :
    Ends
      (tokenize (178 ∷ codes " of them or ((b and"))
      (eval_condition (178 ∷ codes " of them or ((b and") sel_example)
eval_condition-Ends_example = eval_condition-Ends (178 ∷ codes " of them or ((b and") sel_example

Ready-initial : Ready python (some registry) 5 registry initial
unfolding cim
Ready-initial = (refl, tt)

evaluate_event-firing_example :
    ((evaluate_event python (some registry) 5 rules failed_logon none initial).0
      ≡ firing python
          (λ rule. admitted registry rule (tags_in registry (event failed_logon)))
          (flatten_event failed_logon)
          rules)
    × Ready python
        (some registry)
        5
        registry
        (evaluate_event python (some registry) 5 rules failed_logon none initial).1
evaluate_event-firing_example =
    evaluate_event-firing python (some registry) 5 registry rules failed_logon initial Ready-initial

Unavailable-initial : Unavailable python none 5 initial
unfolding cim
Unavailable-initial = refl

evaluate_event-unbound_example :
    ((evaluate_event python none 5 rules failed_logon none initial).0
      ≡ firing python (λ rule. is_empty rule.datamodels) (flatten_event failed_logon) rules)
    × Unavailable python none 5 (evaluate_event python none 5 rules failed_logon none initial).1
evaluate_event-unbound_example =
    evaluate_event-unbound python none 5 rules failed_logon initial Unavailable-initial

-- One thread misses, resolves the registry and stores its gate.
abbrev logon_key : Key
logon_key = record { names = codes "auth" ∷ []; rule_id = codes "r1" }

abbrev resolved_state : CimState
resolved_state = (cim (some registry) 5 initial).1

abbrev cached_state : CimState
cached_state =
    gate_commit 0 logon_key (gate_of registry logon_key.names)
      (gate_log_unknown registry logon_key resolved_state)

miss : cached logon_key initial.gate_cache ≡ none
miss = refl

resolves : (cim (some registry) 5 initial).0 ≡ some registry
unfolding cim
resolves = refl

abbrev stored : Reach (record { shared = cached_state; flights = [] })
stored =
    next
      (next (next begin (start initial [] logon_key miss))
        (resolve initial [] [] 0 logon_key (some registry) 5 registry resolves))
      (finish resolved_state [] [] 0 logon_key registry)

hit : cached logon_key cached_state.gate_cache ≡ some (gate_of registry logon_key.names)
unfolding cim gate_commit gate_log_unknown
hit = refl

Reach-cached_example :
    (reg : CimRegistry) × (cached_state.resolved ≡ true)
    × (cached_state.registry ≡ some reg)
    × (gate_of registry logon_key.names ≡ gate_of reg logon_key.names)
Reach-cached_example = Reach-cached logon_key (gate_of registry logon_key.names) stored hit

Reach-bounded_example : length cached_state.gate_cache ≤ gate_cache_max
Reach-bounded_example = Reach-bounded stored

admits-gate_of_example :
    admits (gate_of registry (codes "auth" ∷ codes "athentication" ∷ [])) (codes "auth" ∷ [])
    ≡ is_bound registry (codes "auth" ∷ codes "athentication" ∷ []) (codes "auth" ∷ [])
admits-gate_of_example =
    admits-gate_of registry (codes "auth" ∷ codes "athentication" ∷ []) (codes "auth" ∷ [])

glob_match-Globs_example :
    (glob_match (codes "fail*log?n") (codes "failed-logon") ≡ true)
    ↔ Globs (codes "fail*log?n") (codes "failed-logon")
glob_match-Globs_example = glob_match-Globs (codes "fail*log?n") (codes "failed-logon")

action_field :
    Dict.get text (codes "action") (normalized failed_logon) ≡ some (str (codes "failed-logon"))
unfolding Dict.get normalized text_eq
action_field = refl

flatten_event-normalized_example :
    Dict.get text (codes "action") (flatten_event failed_logon) ≡ some (str (codes "failed-logon"))
flatten_event-normalized_example =
    flatten_event-normalized failed_logon (codes "action") (str (codes "failed-logon")) action_field

-- The candidates of a one-character value: two are empty, and every text contains them.
base64offset_example : base64offset (codes "a") ≡ codes "YQ==" ∷ [] ∷ [] ∷ []
unfolding base64offset
base64offset_example = refl
