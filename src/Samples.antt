-- ===== src/Samples.antt =====
-- Concrete inputs that the modules of tests share: a registry, an event, rules and a stand-in for
-- what the engine takes from Python.
use siem_lite.Prelude.{ℕ, true, false, List, [], ◌∷◌, none, some, if◌then◌else◌, ltb, leb}
use siem_lite.Text.Chars.{codes, text_eq}
use siem_lite.Text.Number.{digits_only, read_number}
use siem_lite.Text.Search.{contains}
use siem_lite.Value.Defs.{Value, str, int, pos, dict, end, field}
use siem_lite.Value.Event.{NormalizedEvent}
use siem_lite.Cim.Spec.{CimSource, CimTerm, CimModel, CimRegistry}
use siem_lite.Detection.Scalar.{Python}
use siem_lite.Detection.Rule.{Rule}

-- Numbers are the texts of digits, a pattern is searched as it stands, and a network holds itself.
abbrev pub python : Python
python = record {
  Float = ℕ;
  to_float = λ s. if digits_only s then some (read_number s) else none;
  lt_float = ltb;
  le_float = leb;
  re_search = λ pattern s flags. some (contains pattern s);
  in_network = λ x network. some (text_eq x network);
}

abbrev pub action_source : CimSource
action_source = record { kind = codes "column"; name = codes "action"; paths = [] }

abbrev pub logon_term : CimTerm
logon_term = record {
  source = action_source;
  values = codes "failed-logon" ∷ codes "logon" ∷ [];
  label = codes "action";
}

abbrev pub raw_source : CimSource
raw_source = record { kind = codes "raw"; name = []; paths = (codes "EventID", []) ∷ [] }

abbrev pub event_id_term : CimTerm
event_id_term = record {
  source = raw_source;
  values = codes "4625" ∷ [];
  label = codes "raw:EventID";
}

abbrev pub authentication : CimModel
authentication = record {
  name = codes "Authentication";
  tag = codes "auth";
  version = 1;
  description = [];
  clauses = (logon_term ∷ []) ∷ (event_id_term ∷ []) ∷ [];
  fields = [];
}

abbrev pub registry : CimRegistry
registry = record { version = 1; models = authentication ∷ [] }

-- A failed Windows logon.
abbrev pub failed_logon : NormalizedEvent
failed_logon = record {
  event_time = some 1000;
  vendor = codes "Microsoft";
  product = some (codes "Windows");
  log_type = some (codes "security");
  severity = none;
  action = some (codes "failed-logon");
  src_ip = some (codes "10.0.0.7");
  dst_ip = none;
  src_port = some 50123;
  dst_port = none;
  protocol = none;
  app = none;
  user_name = some (codes "alice");
  host_name = none;
  rule_name = none;
  bytes_total = none;
  message = some (codes "An account failed to log on");
  raw = field (codes "EventID") (int (pos 4625)) end;
}

abbrev pub detection_block : Value
detection_block = dict (
    field (codes "selection") (dict (field (codes "action|startswith") (str (codes "FAILED")) end))
      (field (codes "condition") (str (codes "selection")) end))

-- A rule bound to a data model.
abbrev pub bound_rule : Rule
bound_rule = record {
  id = codes "r1";
  title = codes "Failed logon";
  level = codes "high";
  description = [];
  logsource = dict end;
  detection = detection_block;
  datamodels = codes "authentication" ∷ [];
  tactics = [];
  techniques = [];
  atlas_techniques = [];
  fidelity = codes "medium";
  data_source = [];
  references = [];
  source = codes "r1.yml";
  enabled = true;
}

-- The same rule for a log source, with no binding.
abbrev pub windows_rule : Rule
windows_rule = record bound_rule {
  id = codes "r2";
  logsource = dict (field (codes "product") (str (codes "windows")) end);
  datamodels = [];
}

abbrev pub disabled_rule : Rule
disabled_rule = record windows_rule { id = codes "r3"; enabled = false }

abbrev pub rules : List Rule
rules = bound_rule ∷ windows_rule ∷ disabled_rule ∷ []
