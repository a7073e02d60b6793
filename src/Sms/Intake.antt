-- ===== src/Sms/Intake.antt =====
-- What an SMS leaves in the incident service and in the archive.
use ai_powered_respiratory_h.Base.{
  IsOk, ℕ, String, Bool, true, false, not, ◌≡◌, ◌⊎◌, inl, inr, refl, subst, [], ◌∷◌, ◌++◌, Option,
  none, some, lookup, lookup-insert_self, contains, Result, ok, raise, Exception, Action, continue,
  raise_if, value_error, Result-cases,
}
use ai_powered_respiratory_h.Twin.Apply.{apply_event}
use ai_powered_respiratory_h.Incidents.Records.{Incident, IncidentRecord, IncidentStore}
use ai_powered_respiratory_h.Incidents.Service.{
  on_twin, within_bounds, reported_event, create_incident, new_record, store_new,
}
use ai_powered_respiratory_h.Incidents.Atomic.{report-accepted}
use ai_powered_respiratory_h.Sms.Contracts.{SmsMessage}
use ai_powered_respiratory_h.Sms.Ingestion.{
  ingested, IngestionResult, ArchiveEntry, SmsStore, Gateway, Delivery, incident_of, incident_id_of,
  archived, conclude_ingestion, ingest_parsed, ingest_unseen, ingest_sms,
}

-- A creation stored its incident as new, or changed nothing.
abbrev IsCreated : ℕ → Incident → IncidentStore → Result IncidentRecord × IncidentStore → Type 0
IsCreated now i s (ok r, t) = lookup i.incident_id t.incidents ≡ some (new_record now i)
IsCreated now i s (raise e, t) = t ≡ s

raise_if-IsCreated :
    (now : ℕ) (i : Incident) (c : Bool) (e : Exception) (f : Action IncidentStore IncidentRecord)
    (s : IncidentStore)
    → IsCreated now i s (f s)
    → IsCreated now i s (continue (raise_if c e s) (λ u. f))
raise_if-IsCreated now i true e f s next = refl
raise_if-IsCreated now i false e f s next = next

create_incident-IsCreated :
    (now : ℕ) (i : Incident) (actor : String) (s : IncidentStore)
    → IsCreated now i s (create_incident now i actor s)
unfolding create_incident on_twin store_new
create_incident-IsCreated now i actor s =
    raise_if-IsCreated now i (contains i.incident_id s.incidents) value_error _ s (
      raise_if-IsCreated now i (not (within_bounds i.location)) value_error _ s
        (elim (Result-cases (apply_event (λ k. now) (reported_event now i) s.digital_twin).0) [
          | inr (e, ran) ↦ absurd (subst IsOk ran (report-accepted now i s.digital_twin))
          | inl (a, ran) ↦ rw ran (lookup-insert_self i.incident_id (new_record now i) _)
        ]))

-- The message's incident is stored as new, or the incident service is as it was.
abbrev pub IsTaken : Gateway → Delivery → SmsStore → IngestionResult × SmsStore → Type 0
IsTaken g d s (result, t) =
    ((result.status ≡ ingested)
      × ((m : SmsMessage) × (lookup (incident_id_of d) t.incident_service.incidents
            ≡ some (new_record d.now (incident_of g d m)))))
    ⊎ ((result.success ≡ result.is_duplicate) × (t.incident_service ≡ s.incident_service))

conclude_ingestion-IsTaken :
    (g : Gateway) (d : Delivery) (raw id : String) (m : SmsMessage)
    (p : Result IncidentRecord × IncidentStore) (s : SmsStore)
    → IsCreated d.now (incident_of g d m) s.incident_service p
    → IsTaken g d s (conclude_ingestion g d raw id p s)
unfolding conclude_ingestion
conclude_ingestion-IsTaken g d raw id m (ok r, t) s h = inl (refl, (m, h))
conclude_ingestion-IsTaken g d raw id m (raise e, t) s h = inr (refl, h)

ingest_parsed-IsTaken :
    (g : Gateway) (d : Delivery) (raw : String) (error : Option String) (o : Option SmsMessage)
    (s : SmsStore)
    → IsTaken g d s (ingest_parsed g d raw error o s)
unfolding ingest_parsed
ingest_parsed-IsTaken g d raw error none s = inr (refl, refl)
ingest_parsed-IsTaken g d raw error (some m) s =
    conclude_ingestion-IsTaken g d raw m.message_id m _ _
      (create_incident-IsCreated d.now (incident_of g d m) _ s.incident_service)

ingest_unseen-IsTaken :
    (g : Gateway) (d : Delivery) (raw : String) (o : Option String) (s : SmsStore)
    → IsTaken g d s (ingest_unseen g d raw o s)
unfolding ingest_unseen
ingest_unseen-IsTaken g d raw (some existing) s = inr (refl, refl)
ingest_unseen-IsTaken g d raw none s = ingest_parsed-IsTaken g d raw _ _ s

conclude_ingestion-archive :
    (g : Gateway) (d : Delivery) (raw id : String) (p : Result IncidentRecord × IncidentStore)
    (s : SmsStore)
    → (conclude_ingestion g d raw id p s).1.raw_inbound_archive ≡ s.raw_inbound_archive
unfolding conclude_ingestion
conclude_ingestion-archive g d raw id (ok r, t) s = refl
conclude_ingestion-archive g d raw id (raise e, t) s = refl

ingest_parsed-archive :
    (g : Gateway) (d : Delivery) (raw : String) (error : Option String) (o : Option SmsMessage)
    (s : SmsStore)
    → (ingest_parsed g d raw error o s).1.raw_inbound_archive ≡ s.raw_inbound_archive
unfolding ingest_parsed
ingest_parsed-archive g d raw error none s = refl
ingest_parsed-archive g d raw error (some m) s = conclude_ingestion-archive g d raw m.message_id _ _

ingest_unseen-archive :
    (g : Gateway) (d : Delivery) (raw : String) (o : Option String) (s : SmsStore)
    → (ingest_unseen g d raw o s).1.raw_inbound_archive ≡ s.raw_inbound_archive
unfolding ingest_unseen
ingest_unseen-archive g d raw (some existing) s = refl
ingest_unseen-archive g d raw none s = ingest_parsed-archive g d raw _ _ s

-- Every SMS, valid or not, adds exactly one entry with its raw text to the end of the archive. It is
-- answered INGESTED, and then the incident of a message is stored as new under the identifier that the
-- call drew; or it is a success just if it is a duplicate, and then the incidents and the digital
-- twin are as they were.
pub ingest_sms-IsTaken :
    (g : Gateway) (d : Delivery) (raw : String) (s : SmsStore)
    → ((e : ArchiveEntry) × (e.raw_text ≡ raw)
        × ((ingest_sms g d raw s).1.raw_inbound_archive ≡ s.raw_inbound_archive ++ e ∷ []))
      × IsTaken g d s (ingest_sms g d raw s)
unfolding ingest_sms
ingest_sms-IsTaken g d raw s = (
  (_, refl, ingest_unseen-archive g d raw _ (archived d raw s)),
  ingest_unseen-IsTaken g d raw _ (archived d raw s),
)
