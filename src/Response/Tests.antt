-- ===== src/Response/Tests.antt =====
-- Tests of the responses.
use siem_lite.Prelude.{◌≡◌, refl, true, false, List, [], ◌∷◌, none, some, any_of, arith}
use siem_lite.Text.Chars.{codes}
use siem_lite.Value.Defs.{str, end, field}
use siem_lite.Response.{
  Alert, Playbook, Action, success, Counters, World, Row, RevertWorld, matches, run_alert,
  revert_action_type, is_due, process_due_reverts,
}
use siem_lite.Response.Accounts.{Accounts, run_alert-Accounts}
use siem_lite.Response.Reverts.{process_due_reverts-none}

abbrev block : Playbook
block = record {
  id = codes "pb-block";
  rule_ids = [];
  min_level = codes "high";
  techniques = codes "T1110" ∷ [];
  action_type = codes "block_ip";
  target_field = some (codes "src_ip");
  revert_after = some 600;
  enabled = true;
}

abbrev brute : Alert
brute = record {
  id = 5;
  rule_id = some (codes "r1");
  level = some (codes "Critical");
  techniques = codes "T1110" ∷ [];
  columns = field (codes "src_ip") (str (codes "10.0.0.7")) end;
}

-- The endpoint is down.
abbrev outage : World
outage = record {
  url = some (codes "http://soar");
  now = 1000;
  error = λ pb. some (codes "timed out");
  stored = λ pb. true;
}

abbrev zero_counters : Counters
zero_counters = record { executed = 0; failures = 0; actions = [] }

matches_example : matches block brute ≡ true
unfolding matches
matches_example = refl

failures_example : (run_alert outage (block ∷ []) brute zero_counters).failures ≡ 1
unfolding run_alert
failures_example = refl

unblock_example : revert_action_type (codes "Block_IP") ≡ codes "unblock_ip"
unfolding revert_action_type
unblock_example = refl

run_alert-Accounts_example :
    Accounts outage
      (block ∷ [])
      brute
      zero_counters
      (run_alert outage (block ∷ []) brute zero_counters)
run_alert-Accounts_example = run_alert-Accounts outage (block ∷ []) brute zero_counters

abbrev blocked : Action
blocked = record {
  alert_id = 5;
  playbook_id = codes "pb-block";
  action_type = codes "block_ip";
  target = some (codes "10.0.0.7");
  status = success;
  detail = none;
  revert_at = some 1600;
}

abbrev table : List Row
table =
    record { id = 1; action = blocked; reverted_at = none }
    ∷ record { id = 2; action = record blocked { revert_at = some 9000 }; reverted_at = none }
    ∷ []

abbrev revert_outage : RevertWorld
revert_outage = record {
  url = some (codes "http://soar");
  error = λ r. some (codes "timed out");
  stored = λ r. true;
  fresh = λ r. 3;
}

process_due_reverts-none_example :
    any_of (is_due 2000) (process_due_reverts revert_outage 2000 200 table) ≡ false
process_due_reverts-none_example =
    process_due_reverts-none revert_outage 2000 200 table (omega arith)
