-- ===== src/Sms/Replay.antt =====
-- What repeated messages do, and the archive.
use ai_powered_respiratory_h.Base.{
  String, Bool-cases, Option-cases, string_eq, ◌==◌, insert, lookup-insert, Dict, List, [], ◌∷◌,
  Option, inl, inr, ap, ◌∙◌, true, ◌≡◌, refl, none, some, lookup, lookup-insert_self, strip, Result,
  ok, raise,
}
use ai_powered_respiratory_h.Incidents.Records.{IncidentRecord, IncidentStore}
use ai_powered_respiratory_h.Sms.Contracts.{SmsMessage}
use ai_powered_respiratory_h.Sms.Ingestion.{
  duplicate_rejected, SmsStore, Gateway, Delivery, archived, parsed, conclude_ingestion,
  ingest_parsed, ingest_unseen, ingest_sms,
}

-- The digest of a text is registered for a message.
abbrev IsSeen : Gateway → String → String → SmsStore → Type 0
IsSeen g raw id s = lookup (g.sha256 (strip raw)) s.seen_message_hashes ≡ some id

conclude_ingestion-IsSeen :
    (g : Gateway) (d : Delivery) (raw text id other : String)
    (p : Result IncidentRecord × IncidentStore) (s : SmsStore)
    → IsSeen g text other s
    → IsSeen g text other (conclude_ingestion g d raw id p s).1
unfolding conclude_ingestion
conclude_ingestion-IsSeen g d raw text id other (ok r, t) s seen = seen
conclude_ingestion-IsSeen g d raw text id other (raise e, t) s seen = seen

-- A text that says a message is seen afterwards, whatever became of the message.
first_time :
    (g : Gateway) (d : Delivery) (raw : String) (m : SmsMessage) (s : SmsStore)
    → lookup (g.sha256 (strip raw)) s.seen_message_hashes ≡ none
    → (parsed g d raw).parsed_message ≡ some m
    → IsSeen g raw m.message_id (ingest_sms g d raw s).1
unfolding ingest_sms ingest_unseen ingest_parsed
first_time g d raw m s new says =
    rw (new, says)
      (conclude_ingestion-IsSeen g d raw raw m.message_id m.message_id _ _
        (lookup-insert_self (g.sha256 (strip raw)) m.message_id s.seen_message_hashes))

again :
    (g : Gateway) (d : Delivery) (raw id : String) (s : SmsStore)
    → IsSeen g raw id s
    → let (result, t) = ingest_sms g d raw s in
      (result.status ≡ duplicate_rejected)
      × (result.success ≡ true)
      × (result.message_id ≡ id)
      × (t ≡ archived d raw s)
unfolding ingest_sms ingest_unseen
again g d raw id s seen = rw seen (refl, refl, refl, refl)

not_both : {o : Option String} {existing : String} → o ≡ none → o ≡ some existing → ⊥
not_both h k = cc

other_key :
    (k text id : String) (existing : String) (seen : Dict String)
    → lookup k seen ≡ none
    → lookup text seen ≡ some existing
    → lookup text (insert k id seen) ≡ some existing
other_key k text id existing seen new old = elim (Bool-cases (k == text)) [
  | inl same ↦
      let key : k ≡ text = (string_eq.same_iff k text).0 same in
      absurd (not_both new (ap (λ j. lookup j seen) key ∙ old))
  | inr apart ↦ rw (lookup-insert, apart) old
]

ingest_parsed-IsSeen :
    (g : Gateway) (d : Delivery) (raw text id : String) (error : Option String)
    (m : Option SmsMessage) (s : SmsStore)
    → lookup (g.sha256 (strip raw)) s.seen_message_hashes ≡ none
    → IsSeen g text id s
    → IsSeen g text id (ingest_parsed g d raw error m s).1
unfolding ingest_parsed
ingest_parsed-IsSeen g d raw text id error none s new seen = seen
ingest_parsed-IsSeen g d raw text id error (some m) s new seen =
    conclude_ingestion-IsSeen g d raw text m.message_id id _ _ (
      other_key (g.sha256 (strip raw)) (g.sha256 (strip text)) m.message_id id s.seen_message_hashes
        new seen)

-- What was seen stays seen, under the same identifier.
ingest_sms-IsSeen :
    (g : Gateway) (d : Delivery) (raw text id : String) (s : SmsStore)
    → IsSeen g text id s
    → IsSeen g text id (ingest_sms g d raw s).1
unfolding ingest_sms ingest_unseen
ingest_sms-IsSeen g d raw text id s seen =
    elim (Option-cases (lookup (g.sha256 (strip raw)) s.seen_message_hashes)) [
      | inl new ↦ rw new (
          ingest_parsed-IsSeen g d raw text id _ (parsed g d raw).parsed_message (archived d raw s)
            new seen)
      | inr (existing, known) ↦ rw known seen
    ]

-- The store after deliveries in their order.
abbrev pub ingest_all : Gateway → List (Delivery × String) → SmsStore → SmsStore
ingest_all g [] s = s
ingest_all g ((d, raw) ∷ rest) s = ingest_all g rest (ingest_sms g d raw s).1

ingest_all-IsSeen :
    (g : Gateway) (deliveries : List (Delivery × String)) (text id : String) (s : SmsStore)
    → IsSeen g text id s
    → IsSeen g text id (ingest_all g deliveries s)
ingest_all-IsSeen g [] text id s seen = seen
ingest_all-IsSeen g ((d, raw) ∷ rest) text id s seen =
    ingest_all-IsSeen g rest text id (ingest_sms g d raw s).1
      (ingest_sms-IsSeen g d raw text id s seen)

-- A text that was new and says a message is reported as a success on every later delivery in the same
-- words, whatever was delivered in between, whatever spaces are around them and whether or not the
-- incident service had accepted it: the answer is DUPLICATE_REJECTED with the first message's
-- identifier, and only the archive of raw texts takes an entry.
pub ingest_sms_repeated :
    (g : Gateway) (first second : Delivery) (raw repeated : String) (m : SmsMessage)
    (between : List (Delivery × String)) (s : SmsStore)
    → lookup (g.sha256 (strip raw)) s.seen_message_hashes ≡ none
    → (parsed g first raw).parsed_message ≡ some m
    → strip repeated ≡ strip raw
    → let t = ingest_all g between (ingest_sms g first raw s).1 in
      let (result, u) = ingest_sms g second repeated t in
      (result.status ≡ duplicate_rejected)
      × (result.success ≡ true)
      × (result.message_id ≡ m.message_id)
      × (u ≡ archived second repeated t)
ingest_sms_repeated g first second raw repeated m between s new says same =
    again g second repeated m.message_id (ingest_all g between (ingest_sms g first raw s).1) (
      ingest_all-IsSeen g between repeated m.message_id (ingest_sms g first raw s).1
        (rw same (first_time g first raw m s new says)))
