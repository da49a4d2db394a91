-- ===== src/Value/Event.antt =====
-- `app/models.py`: the normalized event. A time is held in seconds.
use siem_lite.Prelude.{ℕ, Option}
use siem_lite.Text.Chars.{Text}
use siem_lite.Value.Defs.{Fields}

pub record NormalizedEvent : Type 0 where
  pub event_time : Option ℕ
  pub vendor : Text
  pub product : Option Text
  pub log_type : Option Text
  pub severity : Option Text
  pub action : Option Text
  pub src_ip : Option Text
  pub dst_ip : Option Text
  pub src_port : Option ℕ
  pub dst_port : Option ℕ
  pub protocol : Option Text
  pub app : Option Text
  pub user_name : Option Text
  pub host_name : Option Text
  pub rule_name : Option Text
  pub bytes_total : Option ℕ
  pub message : Option Text
  pub raw : Fields
