-- ===== src/Incidents/Changes.antt =====
-- What the incident service may do to its store, and that its methods do nothing else.
use ai_powered_respiratory_h.Base.{
  ℕ, ◌+◌, String, Bool, true, false, not, ◌≡◌, ◌⊎◌, inl, inr, refl, subst, Option, some, Bool-cases,
  Option-cases, Result-cases, lookup, contains, Result, ok, raise, Exception, Action, continue,
  raise_if, value_error, state_version_conflict,
}
use ai_powered_respiratory_h.Schemas.Incident.{IncidentStatus, IncidentSeverity}
use ai_powered_respiratory_h.Lifecycle.{
  validate_incident_transition, validate_incident_transition_cases,
}
use ai_powered_respiratory_h.Lifecycle
use ai_powered_respiratory_h.Twin.State.{Twin, TransitionResult}
use ai_powered_respiratory_h.Twin.Apply.{apply_event}
use ai_powered_respiratory_h.Incidents.Records.{
  Incident, IncidentRecord, IncidentAuditEntry, IncidentStore,
}
use ai_powered_respiratory_h.Incidents.Service.{
  on_twin, store_new, create_incident, reported_event, offered, get_incident, is_outdated,
  store_update, with_status, status_event, status_entry, move_status, update_incident_status,
  within_bounds,
}
use ai_powered_respiratory_h.Incidents.Details.{
  with_details, details_entry, has_changed, change_details, update_incident_details,
}

-- A status stays or moves one step along the lifecycle.
abbrev pub Moves : IncidentStatus → IncidentStatus → Type 0
Moves s t = Lifecycle.Step s t ⊎ (s ≡ t)

pub data Change : IncidentStore → IncidentStore → Type 0 where
  -- The digital twin alone is called.
  twin : (m : Action Twin TransitionResult) (s : IncidentStore) → Change s (on_twin m s).1
  -- A new identifier takes its first record and its first entry.
  create :
      (now : ℕ) (actor : String) (i : Incident) (s : IncidentStore)
      → contains i.incident_id s.incidents ≡ false
      → Change s (store_new now actor i s)
  -- A record takes its next version, and its history an entry for it.
  update :
      (id : String) (r after : IncidentRecord) (e : IncidentAuditEntry) (s : IncidentStore)
      → lookup id s.incidents ≡ some r
      → after.state_version ≡ r.state_version + 1
      → e.state_version ≡ r.state_version + 1
      → Moves r.incident.status after.incident.status
      → Change s (store_update id after e s).1

pub data Changes : IncidentStore → IncidentStore → Type 0 where
  done : (s : IncidentStore) → Changes s s
  after : {s t u : IncidentStore} → Changes s t → Change t u → Changes s u

validated-Moves :
    (s t : IncidentStatus) (b : Bool) → validate_incident_transition s t ≡ ok b → Moves s t
validated-Moves s t true h = inl ((validate_incident_transition_cases s t).0.0 h)
validated-Moves s t false h = inr ((validate_incident_transition_cases s t).1.0 h)

raise_if-Changes :
    {A : Type 0} (c : Bool) (e : Exception) (f : Action IncidentStore A) (s : IncidentStore)
    → (c ≡ false → Changes s (f s).1)
    → Changes s (continue (raise_if c e s) (λ u. f)).1
raise_if-Changes true e f s next = done s
raise_if-Changes false e f s next = next refl

-- What a method does after a call of the twin, whatever the twin answers.
twin-Changes :
    {A : Type 0} (m : Action Twin TransitionResult) (f : Action IncidentStore A) (s : IncidentStore)
    → ((t : IncidentStore) → t.incidents ≡ s.incidents → Changes s t → Changes s (f t).1)
    → Changes s (continue (on_twin m s) (λ u. f)).1
unfolding on_twin
twin-Changes m f s next = elim (Result-cases (m s.digital_twin).0) [
  | inl (a, ran) ↦ rw ran (next _ refl (after (done s) (twin m s)))
  | inr (e, ran) ↦ rw ran (after (done s) (twin m s))
]

create_incident-Changes :
    (now : ℕ) (i : Incident) (actor : String) (s : IncidentStore)
    → Changes s (create_incident now i actor s).1
unfolding create_incident
create_incident-Changes now i actor s =
    raise_if-Changes (contains i.incident_id s.incidents) value_error _ s λ new.
      raise_if-Changes (not (within_bounds i.location)) value_error _ s λ inside.
        twin-Changes (apply_event (λ k. now) (reported_event now i)) _ s
          λ t same before. after before (create now actor i t (rw same new))

pub read_back :
    (id : String) (p : Result (Unit {0}) × IncidentStore)
    → p.1 ≡ (continue p (λ u. get_incident id)).1
unfolding get_incident
read_back id (ok u, t) = refl
read_back id (raise e, t) = refl

-- Storing an update and reading it back changes what storing it changes.
stored-Changes :
    (id : String) (r r' : IncidentRecord) (e : IncidentAuditEntry) (s t : IncidentStore)
    → lookup id t.incidents ≡ some r
    → r'.state_version ≡ r.state_version + 1
    → e.state_version ≡ r.state_version + 1
    → Moves r.incident.status r'.incident.status
    → Changes s t
    → Changes s (continue (store_update id r' e t) (λ u. get_incident id)).1
stored-Changes id r r' e s t found v w moves before =
    subst (Changes s) (read_back id (store_update id r' e t))
      (after before (update id r r' e t found v w moves))

read-Changes :
    (id : String) (f : IncidentRecord → Action IncidentStore IncidentRecord) (s : IncidentStore)
    → ((r : IncidentRecord) → lookup id s.incidents ≡ some r → Changes s (f (offered r) s).1)
    → Changes s (continue (get_incident id s) f).1
unfolding get_incident
read-Changes id f s next = elim (Option-cases (lookup id s.incidents)) [
  | inl absent ↦ rw absent (done s)
  | inr (r, found) ↦ rw found (next r found)
]

move_status-Changes :
    (now : ℕ) (id : String) (new : IncidentStatus) (expected : Option ℕ) (actor : String)
    (notes team : Option String) (r : IncidentRecord) (s : IncidentStore)
    → lookup id s.incidents ≡ some r
    → Changes s (move_status now id new expected actor notes team (offered r) s).1
unfolding move_status
move_status-Changes now id new expected actor notes team r s found =
    raise_if-Changes (is_outdated expected r.state_version) state_version_conflict _ s λ current.
      elim (Result-cases (validate_incident_transition r.incident.status new)) [
        | inr (e, refused) ↦ rw refused (done s)
        | inl (b, valid) ↦ rw valid (
            twin-Changes (apply_event (λ k. now) (status_event now id (offered r) new team)) _ s
              λ t same before.
                stored-Changes id r (with_status now new team (offered r))
                  (status_entry now actor notes (offered r) (with_status now new team (offered r)))
                  s t (rw same found) refl refl (validated-Moves r.incident.status new b valid)
                  before)
      ]

change_details-Changes :
    (now : ℕ) (id : String) (severity : Option IncidentSeverity) (description : Option String)
    (priority expected : Option ℕ) (actor : String) (r : IncidentRecord) (s : IncidentStore)
    → lookup id s.incidents ≡ some r
    → Changes s (change_details now id severity description priority expected actor (offered r) s).1
unfolding change_details
change_details-Changes now id severity description priority expected actor r s found =
    raise_if-Changes (is_outdated expected r.state_version) state_version_conflict _ s λ current.
      elim (Bool-cases (has_changed severity description priority (offered r))) [
        | inr same ↦ rw same (subst (Changes s) (read_back id (ok tt, s)) (done s))
        | inl changed ↦ rw changed (
            stored-Changes id r (with_details now severity description priority (offered r))
              (details_entry now actor (offered r)
                (with_details now severity description priority (offered r)))
              s s found refl refl (inr refl) (done s))
      ]

-- The requests that may change the store.
pub data Request : Type 0 where
  open_incident : (now : ℕ) → Incident → (actor : String) → Request
  set_status :
      (now : ℕ) (id : String)
      → IncidentStatus
      → (expected : Option ℕ) (actor : String) → (notes team : Option String) → Request
  set_details :
      (now : ℕ) (id : String)
      → Option IncidentSeverity
      → Option String
      → (priority expected : Option ℕ) → (actor : String) → Request

unfoldable pub handle : Request → IncidentStore → IncidentStore
handle (open_incident now i actor) s = (create_incident now i actor s).1
handle (set_status now id new expected actor notes team) s =
    (update_incident_status now id new expected actor notes team s).1
handle (set_details now id severity description priority expected actor) s =
    (update_incident_details now id severity description priority expected actor s).1

pub handle-Changes : (q : Request) (s : IncidentStore) → Changes s (handle q s)
unfolding handle update_incident_status update_incident_details
handle-Changes (open_incident now i actor) s = create_incident-Changes now i actor s
handle-Changes (set_status now id new expected actor notes team) s =
    read-Changes id _ s
      (λ r found. move_status-Changes now id new expected actor notes team r s found)
handle-Changes (set_details now id severity description priority expected actor) s =
    read-Changes id _ s (λ r found.
      change_details-Changes now id severity description priority expected actor r s found)
