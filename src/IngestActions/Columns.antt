-- ===== src/IngestActions/Columns.antt =====
-- `getattr` and `setattr` of the columns of an event, for `app/ingest_actions.py`.
use siem_lite.Prelude.{ℕ, ◌≡◌, refl, List, [], ◌∷◌, Option}
use siem_lite.Text.Chars.{Text}
use siem_lite.Value.Event.{NormalizedEvent}
use siem_lite.IngestActions.{
  TextColumn, product, log_type, severity, action, protocol, app, user_name, host_name, rule_name,
  message, InetColumn, src_ip, dst_ip, IntColumn, src_port, dst_port, bytes_total,
}

-- `_TEXT_FIELDS`
abbrev pub text_columns : List TextColumn
text_columns =
    product ∷ log_type ∷ severity ∷ action ∷ protocol ∷ app ∷ user_name ∷ host_name ∷ rule_name
    ∷ message ∷ []

abbrev pub text_of : TextColumn → NormalizedEvent → Option Text
text_of product e = e.product
text_of log_type e = e.log_type
text_of severity e = e.severity
text_of action e = e.action
text_of protocol e = e.protocol
text_of app e = e.app
text_of user_name e = e.user_name
text_of host_name e = e.host_name
text_of rule_name e = e.rule_name
text_of message e = e.message

abbrev pub set_text : TextColumn → Option Text → NormalizedEvent → NormalizedEvent
set_text product v e = record e { product = v }
set_text log_type v e = record e { log_type = v }
set_text severity v e = record e { severity = v }
set_text action v e = record e { action = v }
set_text protocol v e = record e { protocol = v }
set_text app v e = record e { app = v }
set_text user_name v e = record e { user_name = v }
set_text host_name v e = record e { host_name = v }
set_text rule_name v e = record e { rule_name = v }
set_text message v e = record e { message = v }

-- Setting what is there changes nothing.
pub set_text-same : (c : TextColumn) (e : NormalizedEvent) → set_text c (text_of c e) e ≡ e
set_text-same product e = refl
set_text-same log_type e = refl
set_text-same severity e = refl
set_text-same action e = refl
set_text-same protocol e = refl
set_text-same app e = refl
set_text-same user_name e = refl
set_text-same host_name e = refl
set_text-same rule_name e = refl
set_text-same message e = refl

abbrev pub inet_of : InetColumn → NormalizedEvent → Option Text
inet_of src_ip e = e.src_ip
inet_of dst_ip e = e.dst_ip

abbrev pub set_inet : InetColumn → Option Text → NormalizedEvent → NormalizedEvent
set_inet src_ip v e = record e { src_ip = v }
set_inet dst_ip v e = record e { dst_ip = v }

-- Setting what is there changes nothing.
pub set_inet-same : (c : InetColumn) (e : NormalizedEvent) → set_inet c (inet_of c e) e ≡ e
set_inet-same src_ip e = refl
set_inet-same dst_ip e = refl

abbrev pub number_of : IntColumn → NormalizedEvent → Option ℕ
number_of src_port e = e.src_port
number_of dst_port e = e.dst_port
number_of bytes_total e = e.bytes_total

abbrev pub set_number : IntColumn → Option ℕ → NormalizedEvent → NormalizedEvent
set_number src_port v e = record e { src_port = v }
set_number dst_port v e = record e { dst_port = v }
set_number bytes_total v e = record e { bytes_total = v }

-- Setting what is there changes nothing.
pub set_number-same : (c : IntColumn) (e : NormalizedEvent) → set_number c (number_of c e) e ≡ e
set_number-same src_port e = refl
set_number-same dst_port e = refl
set_number-same bytes_total e = refl
