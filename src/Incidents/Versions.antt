-- ===== src/Incidents/Versions.antt =====
-- services/api/app/repositories/incident_service.py: when an update of an incident's status succeeds.
use ai_powered_respiratory_h.Base.{
  ℕ, arith, ◌↔◌, ◌⊎◌, Bool, Action, ◌>>◌, raise_if, Exception, String, true, false, ◌≡◌, ◌≢◌, inl,
  inr, refl, List, Option, none, some, Bool-cases, lookup, lookup-insert_self, Result, ok, raise,
  continue, state_version_conflict, invalid_incident_transition, nat_eq, ◌==◌, IsOk,
}
use ai_powered_respiratory_h.Schemas.Incident.{IncidentStatus}
use ai_powered_respiratory_h.Lifecycle.{
  validate_incident_transition, validate_incident_transition_cases, Step,
}
use ai_powered_respiratory_h.Twin.State.{Twin, TransitionResult}
use ai_powered_respiratory_h.Twin.Apply.{apply_event}
use ai_powered_respiratory_h.Incidents.Records.{IncidentRecord, IncidentAuditEntry, IncidentStore}
use ai_powered_respiratory_h.Incidents.Service.{
  on_twin, offered, get_incident, is_outdated, store_update, status_event, move_status,
  update_incident_status,
}

pub not_equal : (m n : ℕ) → m ≢ n → is_outdated (some m) n ≡ true
not_equal m n ne = elim (Bool-cases (m == n)) [
  | inl same ↦ absurd (ne ((nat_eq.same_iff m n).0 same))
  | inr other ↦ rw other refl
]

-- The version that a caller expects, if any, is the record's.
abbrev pub IsCurrent : Option ℕ → ℕ → Type 0
IsCurrent none current = Unit
IsCurrent (some expected) current = expected ≡ current

pub is_outdated-IsCurrent :
    (expected : Option ℕ) (current : ℕ)
    → (is_outdated expected current ≡ false) ↔ IsCurrent expected current
is_outdated-IsCurrent none current = (λ e. tt, λ u. refl)
is_outdated-IsCurrent (some expected) current = ground arith

pub ok_of : {A : Type 0} (o : Result A) → IsOk o → (a : A) × (o ≡ ok a)
ok_of (ok a) h = (a, refl)
ok_of (raise e) h = absurd h

ok_is : {A : Type 0} {o : Result A} {a : A} → o ≡ ok a → IsOk o
ok_is e = rw e tt

-- What the lifecycle lets happen: a status is repeated, or takes one of its steps.
abbrev pub IsPermitted : IncidentStatus → IncidentStatus → Type 0
IsPermitted old new = (old ≡ new) ⊎ Step old new

validated :
    (old new : IncidentStatus) (b : Bool)
    → validate_incident_transition old new ≡ ok b
    → IsPermitted old new
validated old new true h = inr ((validate_incident_transition_cases old new).0.0 h)
validated old new false h = inl ((validate_incident_transition_cases old new).1.0 h)

validated-IsPermitted :
    (old new : IncidentStatus) → IsOk (validate_incident_transition old new) ↔ IsPermitted old new
validated-IsPermitted old new = (
  λ h. let (b, e) = ok_of (validate_incident_transition old new) h in validated old new b e,
  λ m. elim m [
    | inl same ↦ ok_is ((validate_incident_transition_cases old new).1.1 same)
    | inr step ↦ ok_is ((validate_incident_transition_cases old new).0.1 step)
  ],
)

raise_if_iff :
    {A : Type 0} {P : Type 0} (c : Bool) (e : Exception) (f : Action IncidentStore A)
    (s : IncidentStore)
    → (c ≡ false) ↔ P
    → IsOk (continue (raise_if c e s) (λ u. f)).0 ↔ (P × IsOk (f s).0)
raise_if_iff true e f s (g, h) = (λ x. absurd x, λ m. cc (h m.0))
raise_if_iff false e f s (g, h) = (λ x. (g refl, x), λ m. m.1)

lift_iff :
    {A B : Type 0} (r : Result B) (f : Action IncidentStore A) (s : IncidentStore)
    → IsOk (continue (r, s) (λ b. f)).0 ↔ (IsOk r × IsOk (f s).0)
lift_iff (ok b) f s = (λ x. (tt, x), λ m. m.1)
lift_iff (raise e) f s = (λ x. absurd x, λ m. absurd m.0)

-- After the digital twin has answered, storing and reading back succeed where there is a history.
stored_iff :
    (id : String) (after : IncidentRecord) (e : IncidentAuditEntry) (log : List IncidentAuditEntry)
    (s : IncidentStore) (q : Result TransitionResult × Twin)
    → lookup id s.audit_logs ≡ some log
    → IsOk
        (continue
          (q.0, record s { digital_twin = q.1 })
          (λ a. store_update id after e >> get_incident id)).0
      ↔ IsOk q.0
unfolding store_update get_incident
stored_iff id after e log s (ok a, t) there =
    (λ x. tt, λ x. rw (there, lookup-insert_self id after s.incidents) tt)
stored_iff id after e log s (raise x, t) there = (λ h. h, λ h. h)

module _ (now : ℕ) (id : String) (new : IncidentStatus) (expected : Option ℕ) (actor : String)
    (notes team : Option String) (r : IncidentRecord) (s : IncidentStore) where
  -- The twin's answer to the change.
  abbrev twin_answer : Result TransitionResult
  twin_answer = (apply_event (λ k. now) (status_event now id (offered r) new team) s.digital_twin).0

  found-move :
      lookup id s.incidents ≡ some r
      → update_incident_status now id new expected actor notes team s
        ≡ move_status now id new expected actor notes team (offered r) s
  unfolding update_incident_status get_incident
  found-move found = rw found refl

  move_iff :
      (log : List IncidentAuditEntry)
      → lookup id s.audit_logs ≡ some log
      → IsOk (move_status now id new expected actor notes team (offered r) s).0 ↔ (
          IsCurrent expected r.state_version
          × (IsPermitted r.incident.status new × IsOk twin_answer))
  unfolding move_status on_twin
  move_iff log there =
      let (allow, allowed) = validated-IsPermitted r.incident.status new in
      let (down, up) =
        raise_if_iff (is_outdated expected r.state_version) state_version_conflict _ s
          (is_outdated-IsCurrent expected r.state_version) in
      let (down', up') = lift_iff (validate_incident_transition r.incident.status new) _ s in
      let (down'', up'') =
        stored_iff id _ _ log s
          (apply_event (λ k. now) (status_event now id (offered r) new team) s.digital_twin)
          there in
      (
        λ h. ((down h).0, (allow (down' (down h).1).0, down'' (down' (down h).1).1)),
        λ m. up (m.0, up' (allowed m.1.0, up'' m.1.1)),
      )

  outdated :
      ¬ IsCurrent expected r.state_version
      → move_status now id new expected actor notes team (offered r) s
        ≡ (raise state_version_conflict, s)
  unfolding move_status
  outdated other = elim (Bool-cases (is_outdated expected r.state_version)) [
    | inl late ↦ rw late refl
    | inr current ↦ absurd (other ((is_outdated-IsCurrent expected r.state_version).0 current))
  ]

  impermissible :
      IsCurrent expected r.state_version
      → ¬ IsPermitted r.incident.status new
      → move_status now id new expected actor notes team (offered r) s
        ≡ (raise invalid_incident_transition, s)
  unfolding move_status
  impermissible current refused =
      rw
        (
          (is_outdated-IsCurrent expected r.state_version).1 current,
          (validate_incident_transition_cases r.incident.status new).2 (λ same. refused (inl same))
              (λ step. refused (inr step)),
        )
        refl

-- An update of the status of a stored incident succeeds exactly when the version that the caller expects,
-- if any, is the stored one, the lifecycle lets the status be repeated or take that step, and the digital
-- twin accepts the change. The version is looked at first: another one raises StateVersionConflictError
-- even where the step is not permitted; and with the right version a step that is not permitted raises
-- InvalidIncidentTransitionError. Both leave everything as it was.
pub update_incident_status_iff :
    (now : ℕ) (id : String) (new : IncidentStatus) (expected : Option ℕ) (actor : String)
    (notes team : Option String) (r : IncidentRecord) (log : List IncidentAuditEntry)
    (s : IncidentStore)
    → lookup id s.incidents ≡ some r
    → lookup id s.audit_logs ≡ some log
    → let p = update_incident_status now id new expected actor notes team s in
      (IsOk p.0 ↔ (
        IsCurrent expected r.state_version
        × (IsPermitted r.incident.status new
            × IsOk
                (apply_event
                  (λ k. now)
                  (status_event now id (offered r) new team)
                  s.digital_twin).0)))
      × (¬ IsCurrent expected r.state_version → p ≡ (raise state_version_conflict, s))
      × (IsCurrent expected r.state_version
          → ¬ IsPermitted r.incident.status new
          → p ≡ (raise invalid_incident_transition, s))
update_incident_status_iff now id new expected actor notes team r log s found there =
    rw (found-move now id new expected actor notes team r s found) (
      move_iff now id new expected actor notes team r s log there,
      outdated now id new expected actor notes team r s,
      impermissible now id new expected actor notes team r s,
    )
