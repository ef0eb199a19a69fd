-- ===== src/Event.antt =====
-- event.go: events, and the errors that the interpreter reports as events.
pub mod Details
use statecharts.Base.{ℕ, Bool, true, false, Option, none, some, if◌then◌else◌}
use statecharts.Base.Bytes.{Bytes, codes, bytes_eq}
use statecharts.Identifier.{Identifier}
use statecharts.Value.{
  Value, null, field, end, as_tagged, as_map, get_field, as_string, string_or_null, map_value,
}
use statecharts.Value.Wire.{tagged_value}

pub data EventType : Type 0 where
  external internal platform : EventType

pub record Event : Type 0 where
  pub name : Identifier
  pub type : EventType
  pub payload : Value
  pub send_id : Identifier
  pub origin : Identifier
  pub origin_type : Identifier
  pub invoke_id : Identifier
  pub delivery_id : Bytes

-- A Go error: what it says, and the two marks that the interpreter asks for by `errors.As`.
pub record Error : Type 0 where
  pub message : Bytes
  pub is_send_execution : Bool
  pub is_handler_unavailable : Bool

abbrev pub plain_error : Bytes → Error
plain_error m = record { message = m; is_send_execution = false; is_handler_unavailable = false }

abbrev pub send_execution_error : Bytes → Error
send_execution_error m = record {
  message = m;
  is_send_execution = true;
  is_handler_unavailable = false;
}

abbrev pub err_event_execution : Identifier
err_event_execution = codes "error.execution"

abbrev pub err_event_communication : Identifier
err_event_communication = codes "error.communication"

abbrev pub platform_error_value_tag : Bytes
platform_error_value_tag = codes "statecharts.error/v1"

-- A value whose error is dropped: the zero `Value` is null.
abbrev value_or_null : Option Value → Value
value_or_null none = null
value_or_null (some v) = v

-- `PlatformErrorValue`, with `utf8.ValidString` and `strings.ToValidUTF8` as parameters.
unfoldable pub platform_error_value : (Bytes → Bool) → (Bytes → Bytes) → Identifier → Error → Value
unfolding string_or_null map_value tagged_value
platform_error_value valid_utf8 to_valid_utf8 classification err =
    let classification_value = string_or_null valid_utf8 (to_valid_utf8 classification) in
    let message_value = string_or_null valid_utf8 (to_valid_utf8 err.message) in
    let payload = value_or_null (
      map_value valid_utf8 (
        field (codes "classification") classification_value
          (field (codes "message") message_value end))) in
    value_or_null (tagged_value valid_utf8 platform_error_value_tag payload)

abbrev both : Option Bytes → Option Bytes → Option (Bytes × Bytes)
both (some a) (some b) = some (a, b)
both (some a) none = none
both none b = none

-- `PlatformErrorDetails`: the classification and the message of a platform error.
unfoldable pub platform_error_details : Value → Option (Identifier × Bytes)
unfolding as_tagged as_map get_field as_string
platform_error_details value = elim (as_tagged value) [
  | none ↦ none
  | some (tag, payload) ↦
      if bytes_eq tag platform_error_value_tag
      then elim (as_map payload) [
        | none ↦ none
        | some fields ↦
            both (as_string (get_field (codes "classification") fields))
              (as_string (get_field (codes "message") fields))
      ]
      else none
]

-- An event with a name, a type and a payload; every other field is empty.
abbrev pub event_of : Identifier → EventType → Value → Event
event_of name type payload = record {
  name = name;
  type = type;
  payload = payload;
  send_id = codes "";
  origin = codes "";
  origin_type = codes "";
  invoke_id = codes "";
  delivery_id = codes "";
}
