-- ===== src/Sms/Validity.antt =====
-- What the parser of SMS messages lets through.
use ai_powered_respiratory_h.Base.{
  ℕ, ◌≤◌, String, Bool, true, false, ◌≡◌, inl, inr, refl, sym, ap, subst, arith, List, ◌∷◌, Option,
  none, some, leb, ltb, is_empty, strip, split, char_count, Bool-cases,
}
use ai_powered_respiratory_h.Incidents.Records.{Coordinate}
use ai_powered_respiratory_h.Sms.Contracts.{
  SmsEventType, SmsStatus, SmsSeverity, parse_event_type, parse_sms_status, parse_severity,
  SmsMessage,
}
use ai_powered_respiratory_h.Sms.Parser.{
  Float, finite, infinite, not_a_number, TextLibrary, within, Envelope, from_fields, parse_tokens,
  parse_trimmed, parse,
}

-- A message that a text says, word by word, within the bounds of the contract.
pub record Says (lib : TextLibrary) (text : String) (words : List String) (m : SmsMessage)
    : Type 0 where
  pub event : String
  pub status : String
  pub severity : String
  pub latitude : String
  pub longitude : String
  pub rest : List String
  pub spelled : words ≡ event ∷ m.entity_id ∷ status ∷ severity ∷ latitude ∷ longitude ∷ rest
  pub an_event : parse_event_type (lib.upper event) ≡ some m.event_type
  pub a_status : parse_sms_status (lib.upper status) ≡ some m.status
  pub a_severity : parse_severity (lib.upper severity) ≡ some m.severity
  pub a_latitude : lib.parse_float latitude ≡ some (finite m.latitude)
  pub a_longitude : lib.parse_float longitude ≡ some (finite m.longitude)
  pub latitude_bound : m.latitude.magnitude ≤ 90000000
  pub longitude_bound : m.longitude.magnitude ≤ 180000000
  pub kept : m.raw_message ≡ text

some_same : {A : Type 0} {a b : A} → some a ≡ some b → a ≡ b
some_same h = cc

within-inside :
    (limit : ℕ) (o : Option Float) (c : Coordinate)
    → within limit o ≡ some c
    → (o ≡ some (finite c)) × (c.magnitude ≤ limit)
within-inside limit none c h = cc
within-inside limit (some infinite) c h = cc
within-inside limit (some not_a_number) c h = cc
within-inside limit (some (finite d)) c h = elim (Bool-cases (leb d.magnitude limit)) [
  | inl inside ↦
      let same : d ≡ c = cc (rw inside at h) in
      (ap (λ x. some (finite x)) same, subst (λ x. x.magnitude ≤ limit) same (ground arith))
  | inr outside ↦ cc (rw outside at h)
]

-- The five fields of a message that was read.
from_fields-read :
    (v : Envelope) (text entity : String) (event : Option SmsEventType) (status : Option SmsStatus)
    (severity : Option SmsSeverity) (lat lon : Option Coordinate) (m : SmsMessage)
    → (from_fields v text entity event status severity lat lon).parsed_message ≡ some m
    → (event ≡ some m.event_type)
      × (entity ≡ m.entity_id)
      × (status ≡ some m.status)
      × (severity ≡ some m.severity)
      × (lat ≡ some m.latitude)
      × (lon ≡ some m.longitude)
      × (m.raw_message ≡ text)
unfolding from_fields
from_fields-read v text entity none status severity lat lon m h = cc
from_fields-read v text entity (some e) none severity lat lon m h = cc
from_fields-read v text entity (some e) (some s) none lat lon m h = cc
from_fields-read v text entity (some e) (some s) (some w) none lon m h = cc
from_fields-read v text entity (some e) (some s) (some w) (some a) none m h = cc
from_fields-read v text entity (some e) (some s) (some w) (some a) (some o) m h =
    let same = some_same h in
    (
      ap (λ x. some x.event_type) same,
      ap (λ x. x.entity_id) same,
      ap (λ x. some x.status) same,
      ap (λ x. some x.severity) same,
      ap (λ x. some x.latitude) same,
      ap (λ x. some x.longitude) same,
      sym (ap (λ x. x.raw_message) same),
    )

module _ (lib : TextLibrary) (v : Envelope) where
  parse_tokens-Says :
      (text : String) (words : List String) (m : SmsMessage)
      → (parse_tokens lib v text words).parsed_message ≡ some m
      → Says lib text words m
  unfolding parse_tokens
  parse_tokens-Says text (event ∷ entity ∷ status ∷ severity ∷ lat ∷ lon ∷ rest) m h =
      let (an_event, an_entity, a_status, a_severity, a_lat, a_lon, kept) =
        from_fields-read v text entity _ _ _ _ _ m h in
      let (read_lat, lat_bound) = within-inside 90000000 (lib.parse_float lat) m.latitude a_lat in
      let (read_lon, lon_bound) = within-inside 180000000 (lib.parse_float lon) m.longitude a_lon in
      record {
        event = event;
        status = status;
        severity = severity;
        latitude = lat;
        longitude = lon;
        rest = rest;
        spelled = ap (λ x. event ∷ x ∷ status ∷ severity ∷ lat ∷ lon ∷ rest) an_entity;
        an_event = an_event;
        a_status = a_status;
        a_severity = a_severity;
        a_latitude = read_lat;
        a_longitude = read_lon;
        latitude_bound = lat_bound;
        longitude_bound = lon_bound;
        kept = kept;
      }
  parse_tokens-Says text words m h = cc

  parse_trimmed-Says :
      (raw trimmed : String) (blank long : Bool) (m : SmsMessage)
      → (parse_trimmed lib v raw trimmed blank long).parsed_message ≡ some m
      → (long ≡ false) × Says lib trimmed (split trimmed) m
  unfolding parse_trimmed
  parse_trimmed-Says raw trimmed true long m h = cc
  parse_trimmed-Says raw trimmed false true m h = cc
  parse_trimmed-Says raw trimmed false false m h =
      (refl, parse_tokens-Says trimmed (split trimmed) m h)

  -- A message that the parser returns keeps the contract of SMSMessage: its text is that of the SMS
  -- without the spaces around it, and has at most 160 characters; its first word, in upper case, names
  -- the event, its second word is the entity, its third and fourth, in upper case, name the status and
  -- the severity, and its fifth and sixth are read by `float` as the latitude and the longitude, which
  -- are within 90 and 180 degrees.
  pub parse-Says :
      (raw : String) (m : SmsMessage)
      → (parse lib v raw).parsed_message ≡ some m
      → (char_count m.raw_message ≤ 160) × Says lib (strip raw) (split (strip raw)) m
  unfolding parse
  parse-Says raw m h =
      let (short, says) =
        parse_trimmed-Says raw (strip raw) (is_empty (strip raw)) (ltb 160 (char_count (strip raw)))
          m h in
      (subst (λ t. char_count t ≤ 160) (sym says.kept) (ground arith), says)
