-- ===== src/IngestActions.antt =====
-- `app/ingest_actions.py`: the specs of the rules that drop, mask, route and sample events before they
-- are stored. The columns of a mask are split by type, as `_TEXT_FIELDS`, `_INET_FIELDS` and
-- `_INT_FIELDS`.
pub mod Columns
pub mod Raw
pub mod Scrub
pub mod Mask
pub mod Decide
pub mod Index
mod Tests
use siem_lite.Prelude.{ℕ, Bool, List, Option}
use siem_lite.Text.Chars.{Text}
use siem_lite.Detection.Rule.{Rule}

pub data TextColumn : Type 0 where
  product : TextColumn
  log_type : TextColumn
  severity : TextColumn
  action : TextColumn
  protocol : TextColumn
  app : TextColumn
  user_name : TextColumn
  host_name : TextColumn
  rule_name : TextColumn
  message : TextColumn

pub data InetColumn : Type 0 where
  src_ip : InetColumn
  dst_ip : InetColumn

pub data IntColumn : Type 0 where
  src_port : IntColumn
  dst_port : IntColumn
  bytes_total : IntColumn

pub data Column : Type 0 where
  text : TextColumn → Column
  inet : InetColumn → Column
  number : IntColumn → Column

-- A column of `sample.key`.
pub data KeyColumn : Type 0 where
  vendor : KeyColumn
  column : Column → KeyColumn

-- `Regex` is a compiled pattern.
pub record PatternSpec (Regex : Type 0) : Type 0 where
  pub regex : Regex
  pub replacement : Text
  pub field_name : Option TextColumn
  pub raw_path : List Text

pub record MaskSpec (Regex : Type 0) : Type 0 where
  pub fields : List Column
  pub raw_keys : List (List Text)
  pub patterns : List (PatternSpec Regex)
  pub replacement : Text
  pub hashes : Bool
  pub salt : Text
  pub scrub : Bool
  pub inet_replacement : Option Text
  pub int_replacement : Option ℕ

pub record RouteSpec : Type 0 where
  pub vendor : Option Text
  pub product : Option Text
  pub log_type : Option Text
  pub index : Option Text

pub record SampleSpec : Type 0 where
  pub modulus : ℕ
  pub numerator : ℕ
  pub key : List KeyColumn

-- The action of a rule with its spec, which the loader puts there.
pub data Action (Regex : Type 0) : Type 0 where
  drop : Action Regex
  sample : SampleSpec → Action Regex
  mask : MaskSpec Regex → Action Regex
  route : RouteSpec → Action Regex

pub record IngestAction (Regex : Type 0) : Type 0 where
  pub id : Text
  pub action : Action Regex
  pub rule : Rule
  pub order : ℕ
  pub enabled : Bool
  pub source : Text
  pub stamp : Bool
