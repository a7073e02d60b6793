-- ===== src/Tests/Messages.antt =====
-- A flooded road reported by SMS.
use ai_powered_respiratory_h.Base.{
  ◌≤◌, String, true, false, ◌≡◌, refl, [], ◌∷◌, none, some, ◌==◌, string_eq, strip, split, List,
  lookup, char_count, if◌then◌else◌,
}
use ai_powered_respiratory_h.Tests.Incidents.{nothing}
use ai_powered_respiratory_h.Sms.Contracts.{
  flood, blocked_status, critical_severity, sms_source, SmsMessage,
}
use ai_powered_respiratory_h.Sms.Parser.{
  finite, TextLibrary, Envelope, parse, parse_trimmed, parse_tokens, from_fields,
}
use ai_powered_respiratory_h.Sms.Validity.{Says, parse-Says}
use ai_powered_respiratory_h.Sms.Ingestion.{
  duplicate_rejected, SmsStore, Gateway, Delivery, ArchiveEntry, archived, ingest_sms,
}
use ai_powered_respiratory_h.Sms.Replay.{ingest_all, ingest_sms_repeated}
use ai_powered_respiratory_h.Sms.Intake.{IsTaken, ingest_sms-IsTaken}

abbrev library : TextLibrary
library = record {
  upper = λ s. s;
  parse_float = λ s.
      if s == "24.0"
      then some (finite (record { negative = false; magnitude = 24000000 }))
      else if s == "90.0"
      then some (finite (record { negative = false; magnitude = 90000000 }))
      else none;
}

abbrev gateway : Gateway
gateway = record {
  library = library;
  sha256 = λ s. s;
  describe = λ e. "refused";
  point = λ lon lat. "{}";
}

abbrev delivery : Delivery
delivery = record {
  now = 1000;
  archive_digits = "a1";
  message_digits = "B2";
  incident_digits = "C3";
  sender_reference = "ANON";
  source = sms_source;
}

abbrev text : String
text = "FLOOD R-7 BLOCKED CRITICAL 24.0 90.0"

abbrev envelope : Envelope
envelope = record {
  message_id = "SMS-B2";
  received_at = 1000;
  sender_reference = "ANON";
  source = sms_source;
}

abbrev message : SmsMessage
message = record {
  message_id = "SMS-B2";
  received_at = 1000;
  sender_reference = "ANON";
  raw_message = text;
  event_type = flood;
  entity_id = "R-7";
  status = blocked_status;
  severity = critical_severity;
  longitude = record { negative = false; magnitude = 90000000 };
  latitude = record { negative = false; magnitude = 24000000 };
  source = sms_source;
}

abbrev intake : SmsStore
intake = record { incident_service = nothing; raw_inbound_archive = []; seen_message_hashes = [] }

parse-Says_example :
    (char_count message.raw_message ≤ 160) × Says library (strip text) (split (strip text)) message
unfolding parse parse_trimmed parse_tokens from_fields strip split char_count
parse-Says_example = parse-Says library envelope text message refl

ingest_sms_repeated_example :
    let between : List (Delivery × String) =
      (delivery, "MEDICAL R-9 BLOCKED LOW 24.0 90.0") ∷ (delivery, "HELLO") ∷ [] in
    let t = ingest_all gateway between (ingest_sms gateway delivery text intake).1 in
    let (result, u) = ingest_sms gateway delivery "FLOOD R-7 BLOCKED CRITICAL 24.0 90.0 " t in
    (result.status ≡ duplicate_rejected)
    × (result.success ≡ true)
    × (result.message_id ≡ message.message_id)
    × (u ≡ archived delivery "FLOOD R-7 BLOCKED CRITICAL 24.0 90.0 " t)
unfolding parse parse_trimmed parse_tokens from_fields strip split char_count lookup
ingest_sms_repeated_example =
    ingest_sms_repeated gateway delivery delivery text "FLOOD R-7 BLOCKED CRITICAL 24.0 90.0 "
      message ((delivery, "MEDICAL R-9 BLOCKED LOW 24.0 90.0") ∷ (delivery, "HELLO") ∷ []) intake
      refl refl refl

ingest_sms-IsTaken_example :
    ((e : ArchiveEntry) × (e.raw_text ≡ text)
      × ((ingest_sms gateway delivery text intake).1.raw_inbound_archive ≡ e ∷ []))
    × IsTaken gateway delivery intake (ingest_sms gateway delivery text intake)
ingest_sms-IsTaken_example = ingest_sms-IsTaken gateway delivery text intake
