-- ===== src/KillChain/Tactics.antt =====
-- The tactics of an alert in `app/killchain.py`, in the order of the kill chain.
use siem_lite.Prelude.{ℕ, suc, ◌==◌, leb, Bool, ◌||◌, List, [], ◌∷◌, if◌then◌else◌}
use siem_lite.Prelude.Sort.{sorted}
use siem_lite.Text.Chars.{Text, codes, text_eq, member, lower, strip, after_first}
use siem_lite.Text.Search.{starts_with}

-- `KILL_CHAIN_TACTICS`
abbrev pub kill_chain_tactics : List Text
kill_chain_tactics =
    codes "reconnaissance"
    ∷ codes "resource-development"
    ∷ codes "initial-access"
    ∷ codes "execution"
    ∷ codes "persistence"
    ∷ codes "privilege-escalation"
    ∷ codes "defense-evasion"
    ∷ codes "evasion"
    ∷ codes "credential-access"
    ∷ codes "discovery"
    ∷ codes "lateral-movement"
    ∷ codes "collection"
    ∷ codes "command-and-control"
    ∷ codes "exfiltration"
    ∷ codes "inhibit-response-function"
    ∷ codes "impair-process-control"
    ∷ codes "impact"
    ∷ []

-- The place of a text in a list, the length of the list if it is not there.
unfoldable pub place : Text → List Text → ℕ
unfolding text_eq
place t [] = 0
place t (s ∷ ss) = if text_eq t s then 0 else suc (place t ss)

-- `s.replace("_", "-").replace(" ", "-")`
unfoldable pub hyphens : Text → Text
hyphens [] = []
hyphens (c ∷ s) = (if c == b'_' || c == b' ' then b'-' else c) ∷ hyphens s

-- `normalize_tactic`, of the label's text
unfoldable pub normalize_tactic : Text → Text
unfolding hyphens strip lower after_first starts_with
normalize_tactic tactic =
    let s = lower (strip tactic) in
    hyphens (if starts_with (codes "attack.") s then after_first b'.' s else s)

-- `tactic_rank`, of a label that is normalized
abbrev pub rank_of : Text → ℕ
rank_of t = place t kill_chain_tactics

-- `tactic_rank`
unfoldable pub tactic_rank : Text → ℕ
unfolding normalize_tactic place
tactic_rank tactic = rank_of (normalize_tactic tactic)

-- The elements of a set, each once.
unfoldable pub distinct : List Text → List Text
unfolding member
distinct [] = []
distinct (t ∷ ts) = let rest = distinct ts in if member t rest then rest else t ∷ rest

known_tactics : List Text → List Text
unfolding member
known_tactics [] = []
known_tactics (t ∷ ts) =
    let rest = known_tactics ts in if member t kill_chain_tactics then t ∷ rest else rest

normalize_all : List Text → List Text
unfolding normalize_tactic
normalize_all [] = []
normalize_all (t ∷ ts) = normalize_tactic t ∷ normalize_all ts

abbrev pub by_rank : Text → Text → Bool
by_rank a b = leb (tactic_rank a) (tactic_rank b)

-- `alert_tactics`, of the alert's tactics
unfoldable pub alert_tactics : List Text → List Text
unfolding distinct known_tactics normalize_all sorted tactic_rank
alert_tactics tactics = sorted by_rank (known_tactics (distinct (normalize_all tactics)))
