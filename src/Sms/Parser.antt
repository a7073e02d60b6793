-- ===== src/Sms/Parser.antt =====
-- services/sms/parser.py. `str.upper` and `float` are parameters.
use Prim.Native.String.{◌++◌ as concat}
use ai_powered_respiratory_h.Base.{
  ℕ, String, Bool, true, false, List, [], ◌∷◌, ◌++◌, Option, none, some, decimal, leb, ltb,
  is_empty, strip, split, char_count, length, if◌then◌else◌,
}
use ai_powered_respiratory_h.Incidents.Records.{Coordinate}
use ai_powered_respiratory_h.Sms.Contracts.{
  SmsEventType, SmsStatus, SmsSeverity, SmsSource, parse_event_type, parse_sms_status,
  parse_severity, SmsParseResult,
}

-- What `float(text)` returns: a number of degrees, or one of the values that no bound admits. A text
-- that is no number is a ValueError, `none`.
pub data Float : Type 0 where
  finite : Coordinate → Float
  infinite : Float
  not_a_number : Float

pub record TextLibrary : Type 0 where
  pub upper : String → String
  pub parse_float : String → Option Float

-- A refusal of the whole text.
abbrev pub invalid : String → String → SmsParseResult
invalid text message = record {
  is_valid = false;
  raw_message = text;
  parsed_message = none;
  error_message = some message;
  field_errors = [];
}

-- A number of degrees up to a limit on both sides.
abbrev pub within : ℕ → Option Float → Option Coordinate
within limit (some (finite c)) = if leb c.magnitude limit then some c else none
within limit _ = none

-- The key of a field that was refused.
abbrev pub refused_field {ℓ} : {A : Type ℓ} → String → Option A → List String
refused_field key none = key ∷ []
refused_field key (some _) = []

-- What a message carries besides its fields.
pub record Envelope : Type 0 where
  pub message_id : String
  pub received_at : ℕ
  pub sender_reference : String
  pub source : SmsSource

-- A message if all five fields were read, and otherwise the fields that were not.
unfoldable pub from_fields :
    Envelope
    → (text entity_id : String) → Option SmsEventType
    → Option SmsStatus
    → Option SmsSeverity
    → (latitude longitude : Option Coordinate) → SmsParseResult
from_fields v text entity_id (some event) (some status) (some severity) (some lat) (some lon) =
    record {
      is_valid = true;
      raw_message = text;
      parsed_message = some (record {
        message_id = v.message_id;
        received_at = v.received_at;
        sender_reference = v.sender_reference;
        raw_message = text;
        event_type = event;
        entity_id = entity_id;
        status = status;
        severity = severity;
        longitude = lon;
        latitude = lat;
        source = v.source;
      });
      error_message = none;
      field_errors = [];
    }
from_fields v text entity_id event status severity lat lon = record {
  is_valid = false;
  raw_message = text;
  parsed_message = none;
  error_message = some "SMS validation failed on one or more fields.";
  field_errors =
      refused_field "event_type" event
      ++ refused_field "status" status
      ++ refused_field "severity" severity
      ++ refused_field "latitude" lat
      ++ refused_field "longitude" lon;
}

module _ (lib : TextLibrary) where
  unfoldable pub parse_tokens : Envelope → String → List String → SmsParseResult
  parse_tokens v text (event ∷ entity ∷ status ∷ severity ∷ lat ∷ lon ∷ rest) =
      from_fields v text entity (parse_event_type (lib.upper event))
        (parse_sms_status (lib.upper status)) (parse_severity (lib.upper severity))
        (within 90000000 (lib.parse_float lat)) (within 180000000 (lib.parse_float lon))
  parse_tokens v text tokens = invalid text (
      concat "Insufficient SMS tokens. Expected 6 tokens, got "
        (concat (decimal (length tokens)) "."))

  -- The two guards on the trimmed text.
  unfoldable pub parse_trimmed :
      Envelope → (raw trimmed : String) → (blank long : Bool) → SmsParseResult
  parse_trimmed v raw trimmed true long = invalid raw "SMS payload cannot be empty."
  parse_trimmed v raw trimmed false true =
      invalid trimmed "SMS length exceeds standard 160 character boundary."
  parse_trimmed v raw trimmed false false = parse_tokens v trimmed (split trimmed)

  -- `SMSParser.parse`
  unfoldable pub parse : Envelope → String → SmsParseResult
  parse v raw =
      let trimmed = strip raw in
      parse_trimmed v raw trimmed (is_empty trimmed) (ltb 160 (char_count trimmed))
