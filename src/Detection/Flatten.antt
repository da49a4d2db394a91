-- ===== src/Detection/Flatten.antt =====
-- `flatten_event`, `_flatten_raw` and `_lookup`: one flat dictionary for each event.
pub mod Clash
use siem_lite.Prelude.{ℕ, ◌+◌, List, [], ◌∷◌, ◌++◌, Option, none, some, if◌then◌else◌, ltb}
use siem_lite.Prelude.Dict
use siem_lite.Text.Chars.{Text, codes, text, text_eq, lower}
use siem_lite.Value.Defs.{Value, dict, str, int, pos, Fields, end, field}
use siem_lite.Value.Event.{NormalizedEvent}

abbrev pub Flat : Type 0
Flat = List (Text × Value)

abbrev pub field_aliases : List (Text × Text)
field_aliases =
    (codes "sourceip", codes "src_ip")
    ∷ (codes "srcip", codes "src_ip")
    ∷ (codes "source_ip", codes "src_ip")
    ∷ (codes "src", codes "src_ip")
    ∷ (codes "destinationip", codes "dst_ip")
    ∷ (codes "dstip", codes "dst_ip")
    ∷ (codes "destination_ip", codes "dst_ip")
    ∷ (codes "dst", codes "dst_ip")
    ∷ (codes "sourceport", codes "src_port")
    ∷ (codes "srcport", codes "src_port")
    ∷ (codes "destinationport", codes "dst_port")
    ∷ (codes "dstport", codes "dst_port")
    ∷ (codes "user", codes "user_name")
    ∷ (codes "username", codes "user_name")
    ∷ (codes "account", codes "user_name")
    ∷ (codes "computername", codes "host_name")
    ∷ (codes "hostname", codes "host_name")
    ∷ (codes "host", codes "host_name")
    ∷ (codes "msg", codes "message")
    ∷ (codes "eventid", codes "event_id")
    ∷ (codes "event id", codes "event_id")
    ∷ (codes "event_code", codes "event_id")
    ∷ (codes "eventcode", codes "event_id")
    ∷ []

-- `flat[k] = v` unless `v` is None; the sixteen keys differ, so a new one goes last.
abbrev put_text : Text → Option Text → Flat → Flat
put_text k none rest = rest
put_text k (some t) rest = (k, str t) ∷ rest

abbrev put_number : Text → Option ℕ → Flat → Flat
put_number k none rest = rest
put_number k (some n) rest = (k, int (pos n)) ∷ rest

-- The loop over `_NORMALIZED_FIELDS`.
unfoldable pub normalized : NormalizedEvent → Flat
normalized e = put_text (codes "vendor") (some e.vendor) (
    put_text (codes "product") e.product (
      put_text (codes "log_type") e.log_type (
        put_text (codes "severity") e.severity (
          put_text (codes "action") e.action (
            put_text (codes "src_ip") e.src_ip (
              put_text (codes "dst_ip") e.dst_ip (
                put_number (codes "src_port") e.src_port (
                  put_number (codes "dst_port") e.dst_port (
                    put_text (codes "protocol") e.protocol (
                      put_text (codes "app") e.app (
                        put_text (codes "user_name") e.user_name (
                          put_text (codes "host_name") e.host_name (
                            put_text (codes "rule_name") e.rule_name (
                              put_number (codes "bytes_total") e.bytes_total
                                (put_text (codes "message") e.message [])))))))))))))))

mutual
  unfolding Dict.set_default lower text_eq

  -- The loop of `_flatten_raw` over the entries of one `dict`.
  pub flatten_fields : Fields → Text → ℕ → Flat → Flat
  flatten_fields end prefix depth out = out
  flatten_fields (field k v fs) prefix depth out =
      flatten_fields fs prefix depth (flatten_entry v (lower (prefix ++ k)) depth out)

  -- Its body for one entry, with the recursive call on a `dict` and that call's depth guard.
  pub flatten_entry : Value → Text → ℕ → Flat → Flat
  flatten_entry (dict fs) key depth out =
      if ltb 16 (depth + 1) then out else flatten_fields fs (key ++ codes ".") (depth + 1) out
  flatten_entry v key depth out = Dict.set_default text key v out

unfoldable pub flatten_event : NormalizedEvent → Flat
unfolding normalized flatten_fields
flatten_event e = flatten_fields e.raw [] 0 (normalized e)

-- `_lookup`, with `None` for a missing field. `flat` may hold None itself.
unfoldable pub lookup : Flat → Text → Value
unfolding lower Dict.get text_eq
lookup flat name =
    let n = lower name in
    elim (Dict.get text n flat) [
      | some v ↦ v
      | none ↦ elim (Dict.get text n field_aliases) [
        | none ↦ Value.null
        | some alias ↦ elim (Dict.get text alias flat) [ none ↦ Value.null | some v ↦ v ]
      ]
    ]
