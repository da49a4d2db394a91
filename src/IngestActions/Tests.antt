-- ===== src/IngestActions/Tests.antt =====
-- The ingest actions of `app/ingest_actions.py` on samples.
use siem_lite.Prelude.{ℕ, ◌+◌, ◌≡◌, refl, Bool, true, false, List, [], ◌∷◌, Option, none, some}
use siem_lite.Samples.{failed_logon, bound_rule}
use siem_lite.Text.Chars.{Text, codes}
use siem_lite.Value.Event.{NormalizedEvent}
use siem_lite.Detection.Flatten.{Flat}
use siem_lite.Detection.Rule.{Rule}
use siem_lite.IngestActions.{Action, drop, sample, mask, text, IngestAction, MaskSpec, user_name}
use siem_lite.IngestActions.Scrub.{
  literal_scrubber, IsSharedAddress, pseudo_ip, pseudo_ip-IsSharedAddress,
}
use siem_lite.IngestActions.Decide.{decide}
use siem_lite.IngestActions.Decide.Fresh.{decide_fresh, decide-decide_fresh}
use siem_lite.IngestActions.Decide.Drops.{DropsBy, decide-DropsBy}
use siem_lite.IngestActions.Index.{ActionIndex, new_index, apply}
use siem_lite.IngestActions.Index.Counts.{Counted, apply-Counted}

-- A pattern is a function on texts that may raise, a hash the text itself, and each rule matches
-- and is counted in the state.
abbrev sub : (Text → Option Text) → Text → Text → Option Text
sub f replacement s = f s

abbrev sha256 : Text → Text
sha256 s = s

abbrev identity : NormalizedEvent → ℕ
identity e = 7

abbrev matches : Rule → Flat → NormalizedEvent → ℕ → Option Bool × ℕ
matches rule flat e st = (some true, st + 1)

abbrev hide_user : MaskSpec (Text → Option Text)
hide_user = record {
  fields = text user_name ∷ [];
  raw_keys = [];
  patterns = [];
  replacement = codes "***";
  hashes = false;
  salt = [];
  scrub = true;
  inet_replacement = none;
  int_replacement = none;
}

abbrev rule : Text → Action (Text → Option Text) → IngestAction (Text → Option Text)
rule id action = record {
  id = id;
  action = action;
  rule = bound_rule;
  order = 100;
  enabled = true;
  source = codes "local.yml";
  stamp = true;
}

-- One rule hides the user, one keeps a third of the events, and one drops what is left.
abbrev rules : List (IngestAction (Text → Option Text))
rules =
    rule (codes "hide") (mask hide_user)
    ∷ rule (codes "third") (sample (record { modulus = 3; numerator = 2; key = [] }))
    ∷ rule (codes "noise") drop
    ∷ []

-- The rules run in order, and the last one drops the event.
dropped_last :
    (decide sub sha256 identity matches rules failed_logon 0).0.applied
    ≡ codes "hide" ∷ codes "third" ∷ codes "noise" ∷ []
unfolding decide
dropped_last = refl

-- A literal is replaced where it is a whole token.
scrubbed :
    literal_scrubber ((codes "alice", codes "***") ∷ []) (codes "alice, malice and alice")
    ≡ codes "***, malice and ***"
unfolding literal_scrubber
scrubbed = refl

decide-decide_fresh_example :
    decide sub sha256 identity matches rules failed_logon 0
    ≡ decide_fresh sub sha256 identity matches rules failed_logon [] [] 0
decide-decide_fresh_example = decide-decide_fresh sub sha256 identity matches rules failed_logon 0

decide-DropsBy_example :
    let r = decide sub sha256 identity matches rules failed_logon 0 in
    DropsBy sub sha256 identity matches rules r.1 r.0.rule_id r.0.action
unfolding decide
decide-DropsBy_example = decide-DropsBy sub sha256 identity matches rules failed_logon 0 refl

abbrev index : ActionIndex (Text → Option Text)
index = new_index rules []

apply-Counted_example :
    let r = apply sub sha256 identity matches index failed_logon 0 in
    Counted (codes "hide") r.0 index.counts r.3.counts
apply-Counted_example =
    apply-Counted sub sha256 identity matches index failed_logon 0 (codes "hide")

pseudo_ip-IsSharedAddress_example :
    IsSharedAddress (pseudo_ip sha256 (codes "10.0.0.7") (codes "salt"))
pseudo_ip-IsSharedAddress_example =
    pseudo_ip-IsSharedAddress sha256 (codes "10.0.0.7") (codes "salt")
