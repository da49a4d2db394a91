-- ===== src/Response.antt =====
-- `app/response`: playbooks that act on alerts, and the reverts of time-boxed actions. The POST to
-- the automation endpoint enters as its outcome, the table `response_actions` as a list of rows.
pub mod Accounts
pub mod Reverts
mod Tests
use siem_lite.Prelude.{
  ℕ, zero, suc, ◌+◌, ◌==◌, Bool, true, false, not, ◌&&◌, ◌||◌, List, [], ◌∷◌, ◌++◌, Option, none,
  some, if◌then◌else◌, is_empty, leb, any_of, keep, map, take, is_some,
}
use siem_lite.Prelude.Dict
use siem_lite.Prelude.Sort.{sorted}
use siem_lite.Text.Chars.{Text, codes, text, text_eq, lower, member}
use siem_lite.Value.Defs.{Value, null, Fields, field_or_null}
use siem_lite.Value.Render.{show}

-- `_LEVELS` of `app/notify/channels.py`
abbrev pub levels : List Text
levels = codes "informational" ∷ codes "low" ∷ codes "medium" ∷ codes "high" ∷ codes "critical" ∷ []

abbrev pub text_or_empty : Option Text → Text
text_or_empty none = []
text_or_empty (some s) = s

abbrev pub index_or : ℕ → ℕ → Text → List Text → ℕ
index_or default i t [] = default
index_or default i t (u ∷ us) = if text_eq t u then i else index_or default (suc i) t us

unfoldable pub level_rank : Option Text → ℕ
unfolding lower text_eq
level_rank level = index_or 0 0 (lower (text_or_empty level)) levels

unfoldable pub meets_min : Option Text → Option Text → Bool
unfolding level_rank
meets_min level minimum = leb (level_rank minimum) (level_rank level)

-- The columns of an alert that a playbook reads by name, and all of them.
pub record Alert : Type 0 where
  pub id : ℕ
  pub rule_id : Option Text
  pub level : Option Text
  pub techniques : List Text
  pub columns : Fields

pub record Playbook : Type 0 where
  pub id : Text
  pub rule_ids : List Text
  pub min_level : Text
  pub techniques : List Text
  pub action_type : Text
  pub target_field : Option Text
  pub revert_after : Option ℕ
  pub enabled : Bool

abbrev pub has_rule : List Text → Option Text → Bool
has_rule rules none = false
has_rule rules (some r) = member r rules

-- `matches`
unfoldable pub matches : Playbook → Alert → Bool
unfolding member text_eq meets_min
matches pb alert =
    if not pb.enabled
    then false
    else if not (is_empty pb.rule_ids) && not (has_rule pb.rule_ids alert.rule_id)
    then false
    else if not (meets_min alert.level (some pb.min_level))
    then false
    else not (
        not (is_empty pb.techniques) && not (any_of (λ t. member t alert.techniques) pb.techniques))

pub data Status : Type 0 where
  skipped : Status
  success : Status
  failed : Status

-- The audit record of an action.
pub record Action : Type 0 where
  pub alert_id : ℕ
  pub playbook_id : Text
  pub action_type : Text
  pub target : Option Text
  pub status : Status
  pub detail : Option Text
  pub revert_at : Option ℕ

abbrev pub target_of : Option Text → Fields → Option Text
target_of none columns = none
target_of (some []) columns = none
target_of (some (c ∷ f)) columns = elim (field_or_null (c ∷ f) columns) [
  | null ↦ none
  | v ↦ some (show v)
]

-- `now + timedelta(seconds=int(pb.revert_after))` where that is set and not 0
abbrev pub revert_time : ℕ → Option ℕ → Option ℕ
revert_time now none = none
revert_time now (some zero) = none
revert_time now (some (suc n)) = some (now + suc n)

-- The status and the detail: a `log` action is only recorded, no URL is a skip, and a POST answers
-- `none` or raises.
unfoldable pub result_of : Text → Option Text → Option Text → Text → Text → Status × Option Text
unfolding text_eq
result_of action_type url error recorded posted =
    if text_eq action_type (codes "log")
    then (success, some recorded)
    else if is_empty (text_or_empty url)
    then (skipped, some (codes "no RESPONSE_WEBHOOK_URL configured"))
    else elim error [ none ↦ (success, some posted) | some e ↦ (failed, some (take 300 e)) ]

-- `execute`
unfoldable pub execute : Option Text → ℕ → Option Text → Playbook → Alert → Action
unfolding result_of field_or_null show
execute url now error pb alert =
    let (status, detail) =
      result_of pb.action_type url error (codes "recorded")
        (codes "posted to automation endpoint") in
    record {
      alert_id = alert.id;
      playbook_id = pb.id;
      action_type = pb.action_type;
      target = target_of pb.target_field alert.columns;
      status = status;
      detail = detail;
      revert_at = revert_time now pb.revert_after;
    }

-- The counters of `ResponseEngine`, and what `insert_response_action` has stored.
pub record Counters : Type 0 where
  pub executed : ℕ
  pub failures : ℕ
  pub actions : List Action

abbrev pub is_failed : Status → Bool
is_failed failed = true
is_failed _ = false

-- The `try` of `_run` for one playbook; `stored` is whether the insert succeeds.
abbrev pub account : Bool → Action → Counters → Counters
account true rec c = record {
  executed = c.executed + 1;
  failures = if is_failed rec.status then c.failures + 1 else c.failures;
  actions = c.actions ++ rec ∷ [];
}
account false rec c = record c { failures = c.failures + 1 }

pub record World : Type 0 where
  pub url : Option Text
  pub now : ℕ
  pub error : Playbook → Option Text
  pub stored : Playbook → Bool

abbrev pub action_of : World → Alert → Playbook → Action
action_of w alert pb = execute w.url w.now (w.error pb) pb alert

-- The body of the loop of `_run` for one alert.
unfoldable pub run_alert : World → List Playbook → Alert → Counters → Counters
unfolding matches execute
run_alert w [] alert c = c
run_alert w (pb ∷ pbs) alert c =
    run_alert w pbs alert
      (if matches pb alert then account (w.stored pb) (action_of w alert pb) c else c)

-- `_REVERT_MAP` and `revert_action_type`
abbrev pub revert_map : List (Text × Text)
revert_map =
    (codes "block_ip", codes "unblock_ip")
    ∷ (codes "disable_user", codes "enable_user")
    ∷ (codes "isolate_host", codes "unisolate_host")
    ∷ (codes "quarantine_file", codes "release_file")
    ∷ (codes "revoke_session", codes "restore_session")
    ∷ (codes "log", codes "log")
    ∷ []

abbrev pub generic_revert : Text → Text
generic_revert [] = codes "revert"
generic_revert (c ∷ s) = codes "revert_" ++ (c ∷ s)

unfoldable pub revert_action_type : Text → Text
unfolding lower Dict.get text_eq
revert_action_type action_type = elim (Dict.get text (lower action_type) revert_map) [
  | none ↦ generic_revert (lower action_type)
  | some t ↦ t
]

-- A row of `response_actions`.
pub record Row : Type 0 where
  pub id : ℕ
  pub action : Action
  pub reverted_at : Option ℕ

-- `execute_revert`
unfoldable pub execute_revert : Option Text → Option Text → Row → Action
unfolding result_of revert_action_type lower
execute_revert url error row =
    let (status, detail) =
      result_of (lower row.action.action_type) url error (codes "reverted (log)")
        (codes "revert posted to automation endpoint") in
    record row.action {
      action_type = revert_action_type row.action.action_type;
      status = status;
      detail = detail;
      revert_at = none;
    }

abbrev pub is_success : Status → Bool
is_success success = true
is_success _ = false

abbrev pub has_passed : ℕ → Option ℕ → Bool
has_passed now none = false
has_passed now (some t) = leb t now

-- The WHERE of `db.due_reverts`.
abbrev pub is_due : ℕ → Row → Bool
is_due now r =
    not (is_some r.reverted_at) && (has_passed now r.action.revert_at && is_success r.action.status)

abbrev pub time_or_zero : Option ℕ → ℕ
time_or_zero none = 0
time_or_zero (some t) = t

unfoldable pub due_reverts : ℕ → ℕ → List Row → List Row
unfolding sorted
due_reverts now limit table = take limit (
    sorted (λ (a b : Row). leb (time_or_zero a.action.revert_at) (time_or_zero b.action.revert_at))
      (keep (is_due now) table))

-- `db.mark_reverted`
unfoldable pub mark_reverted : ℕ → ℕ → List Row → List Row
mark_reverted id now table =
    map (λ (r : Row). if r.id == id then record r { reverted_at = some now } else r) table

-- The body of the loop of `process_due_reverts`: the revert's own record is stored unless the insert
-- raises, and the row is marked in any case. `fresh` is the id that the table gives a new row.
abbrev pub store_record : Bool → ℕ → Action → List Row → List Row
store_record true fresh rec table =
    table ++ record { id = fresh; action = rec; reverted_at = none } ∷ []
store_record false fresh rec table = table

pub record RevertWorld : Type 0 where
  pub url : Option Text
  pub error : Row → Option Text
  pub stored : Row → Bool
  pub fresh : Row → ℕ

unfoldable pub revert_all : RevertWorld → ℕ → List Row → List Row → List Row
unfolding execute_revert mark_reverted
revert_all w now [] table = table
revert_all w now (r ∷ due) table = revert_all w now due (
    mark_reverted r.id now
      (store_record (w.stored r) (w.fresh r) (execute_revert w.url (w.error r) r) table))

-- `process_due_reverts`
unfoldable pub process_due_reverts : RevertWorld → ℕ → ℕ → List Row → List Row
unfolding revert_all due_reverts
process_due_reverts w now limit table = revert_all w now (due_reverts now limit table) table
