-- ===== src/Sms/Contracts.antt =====
-- services/sms/contracts.py, with the values of its enumerations. A latitude or longitude is a
-- `Coordinate`.
use ai_powered_respiratory_h.Base.{
  ℕ, String, Bool, List, Option, some, none, ◌==◌, string_eq, if◌then◌else◌,
}
use ai_powered_respiratory_h.Incidents.Records.{Coordinate}

pub data SmsEventType : Type 0 where
  flood road bridge medical shelter rescue : SmsEventType

pub data SmsStatus : Type 0 where
  open_status blocked_status restricted_status full damaged critical_status : SmsStatus

pub data SmsSeverity : Type 0 where
  low_severity medium_severity high_severity critical_severity : SmsSeverity

pub data SmsSource : Type 0 where
  sms_source simulated_sms_demo : SmsSource

-- `SMSEventType(text)`: a text that is no member's value is a ValueError.
abbrev pub parse_event_type : String → Option SmsEventType
parse_event_type text =
    if text == "FLOOD"
    then some flood
    else if text == "ROAD"
    then some road
    else if text == "BRIDGE"
    then some bridge
    else if text == "MEDICAL"
    then some medical
    else if text == "SHELTER"
    then some shelter
    else if text == "RESCUE"
    then some rescue
    else none

abbrev pub parse_sms_status : String → Option SmsStatus
parse_sms_status text =
    if text == "OPEN"
    then some open_status
    else if text == "BLOCKED"
    then some blocked_status
    else if text == "RESTRICTED"
    then some restricted_status
    else if text == "FULL"
    then some full
    else if text == "DAMAGED"
    then some damaged
    else if text == "CRITICAL"
    then some critical_status
    else none

abbrev pub parse_severity : String → Option SmsSeverity
parse_severity text =
    if text == "LOW"
    then some low_severity
    else if text == "MEDIUM"
    then some medium_severity
    else if text == "HIGH"
    then some high_severity
    else if text == "CRITICAL"
    then some critical_severity
    else none

abbrev pub sms_status_value : SmsStatus → String
sms_status_value open_status = "OPEN"
sms_status_value blocked_status = "BLOCKED"
sms_status_value restricted_status = "RESTRICTED"
sms_status_value full = "FULL"
sms_status_value damaged = "DAMAGED"
sms_status_value critical_status = "CRITICAL"

abbrev pub sms_source_value : SmsSource → String
sms_source_value sms_source = "sms"
sms_source_value simulated_sms_demo = "simulated_sms_demo"

pub record SmsMessage : Type 0 where
  pub message_id : String
  pub received_at : ℕ
  pub sender_reference : String
  pub raw_message : String
  pub event_type : SmsEventType
  pub entity_id : String
  pub status : SmsStatus
  pub severity : SmsSeverity
  pub longitude : Coordinate
  pub latitude : Coordinate
  pub source : SmsSource

-- Of the errors of the fields, the fields.
pub record SmsParseResult : Type 0 where
  pub is_valid : Bool
  pub raw_message : String
  pub parsed_message : Option SmsMessage
  pub error_message : Option String
  pub field_errors : List String
