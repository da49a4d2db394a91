-- ===== src/ThreatIntel.antt =====
-- `app/threatintel/matcher.py`: indicators of compromise and the index that finds them in events.
-- ipaddress enters as the record Addresses. A set of tokens is the list of them: a repeat adds no hit.
pub mod Observables
pub mod Tokens
pub mod Index
pub mod Keys
pub mod Found
pub mod Tables
pub mod Listed
mod Tests
use siem_lite.Prelude.{ℕ, Bool, List, Option}
use siem_lite.Text.Chars.{Text}

-- The types whose indicators are looked up as they are.
pub data ExactType : Type 0 where
  ip : ExactType
  domain : ExactType
  hash : ExactType
  url : ExactType

-- `VALID_TYPES`
pub data IocType : Type 0 where
  exact : ExactType → IocType
  cidr : IocType

pub record Ioc : Type 0 where
  pub indicator : Text
  pub ioc_type : IocType
  pub source : Text
  pub severity : Text
  pub description : Text

pub record IocHit : Type 0 where
  pub indicator : Text
  pub ioc_type : IocType
  pub source : Text
  pub severity : Text
  pub observed : Text

-- `ip_network(s, strict=False)`, `ip_address(s)` and `addr in net`
pub record Addresses : Type 1 where
  pub Network : Type 0
  pub Address : Type 0
  pub ip_network : Text → Option Network
  pub ip_address : Text → Option Address
  pub holds : Network → Address → Bool
