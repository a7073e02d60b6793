-- ===== src/Lifecycle.antt =====
-- services/api/app/schemas/incident_lifecycle.py: the lifecycle of an incident.
use ai_powered_respiratory_h.Base.{
  ℕ, ◌<◌, Bool, true, false, List, [], ◌∷◌, ◌≡◌, ◌≢◌, ◌⊎◌, ◌↔◌, inl, inr, refl, arith, Result, ok,
  raise, invalid_incident_transition, ◌==◌, ◌||◌, if◌then◌else◌,
}
use ai_powered_respiratory_h.Schemas.Incident.{
  IncidentStatus, opened, acknowledged, in_progress, resolved, cancelled, incident_status_eq,
}

-- `VALID_INCIDENT_TRANSITIONS`; a set is a list, in the order of `get_allowed_transitions`, which
-- sorts by the status's text.
abbrev pub valid_incident_transitions : IncidentStatus → List IncidentStatus
valid_incident_transitions opened = acknowledged ∷ cancelled ∷ []
valid_incident_transitions acknowledged = cancelled ∷ in_progress ∷ []
valid_incident_transitions in_progress = cancelled ∷ resolved ∷ []
valid_incident_transitions resolved = []
valid_incident_transitions cancelled = []

abbrev member : IncidentStatus → List IncidentStatus → Bool
member s [] = false
member s (x ∷ xs) = s == x || member s xs

-- False for a repeated status, true for a permitted step, and an exception for any other.
unfoldable pub validate_incident_transition : IncidentStatus → IncidentStatus → Result Bool
validate_incident_transition current new =
    if current == new
    then ok false
    else if member new (valid_incident_transitions current)
    then ok true
    else raise invalid_incident_transition

abbrev pub get_allowed_transitions : IncidentStatus → List IncidentStatus
get_allowed_transitions current = valid_incident_transitions current

-- The steps that the lifecycle permits.
pub data Step : IncidentStatus → IncidentStatus → Type 0 where
  acknowledge : Step opened acknowledged
  work : Step acknowledged in_progress
  resolve : Step in_progress resolved
  cancel_opened : Step opened cancelled
  cancel_acknowledged : Step acknowledged cancelled
  cancel_in_progress : Step in_progress cancelled

pub data Steps : IncidentStatus → IncidentStatus → Type 0 where
  stay : (s : IncidentStatus) → Steps s s
  next : {s t u : IncidentStatus} → Step s t → Steps t u → Steps s u

validated-Step : (s t : IncidentStatus) → validate_incident_transition s t ≡ ok true → Step s t
unfolding validate_incident_transition
validated-Step opened acknowledged h = acknowledge
validated-Step opened cancelled h = cancel_opened
validated-Step acknowledged in_progress h = work
validated-Step acknowledged cancelled h = cancel_acknowledged
validated-Step in_progress resolved h = resolve
validated-Step in_progress cancelled h = cancel_in_progress
validated-Step s t h = ground arith

Step-validated : {s t : IncidentStatus} → Step s t → validate_incident_transition s t ≡ ok true
unfolding validate_incident_transition
Step-validated acknowledge = refl
Step-validated work = refl
Step-validated resolve = refl
Step-validated cancel_opened = refl
Step-validated cancel_acknowledged = refl
Step-validated cancel_in_progress = refl

repeated : (s t : IncidentStatus) → (validate_incident_transition s t ≡ ok false) ↔ (s ≡ t)
unfolding validate_incident_transition
repeated s t = (λ h. ground arith, λ h. ground arith)

outcomes :
    (s t : IncidentStatus)
    → (validate_incident_transition s t ≡ ok true)
      ⊎ (validate_incident_transition s t ≡ ok false)
      ⊎ (validate_incident_transition s t ≡ raise invalid_incident_transition)
unfolding validate_incident_transition
outcomes s t = ground arith

-- The validation accepts exactly the six steps of the lifecycle, reports a repeated status as no
-- transition, and refuses every other pair.
pub validate_incident_transition_cases :
    (s t : IncidentStatus)
    → ((validate_incident_transition s t ≡ ok true) ↔ Step s t)
      × ((validate_incident_transition s t ≡ ok false) ↔ (s ≡ t))
      × (s ≢ t → ¬ Step s t → validate_incident_transition s t ≡ raise invalid_incident_transition)
validate_incident_transition_cases s t = (
  (validated-Step s t, Step-validated),
  repeated s t,
  λ ne no_step. elim (outcomes s t) [
    | inl step ↦ absurd (no_step (validated-Step s t step))
    | inr (inl same) ↦ absurd (ne ((repeated s t).0 same))
    | inr (inr refused) ↦ refused
  ],
)

-- How far along the lifecycle a status stands.
abbrev pub progress : IncidentStatus → ℕ
progress opened = 0
progress acknowledged = 1
progress in_progress = 2
progress resolved = 3
progress cancelled = 3

pub Step-progress : {s t : IncidentStatus} → Step s t → progress s < progress t
Step-progress acknowledge = omega arith
Step-progress work = omega arith
Step-progress resolve = omega arith
Step-progress cancel_opened = omega arith
Step-progress cancel_acknowledged = omega arith
Step-progress cancel_in_progress = omega arith

-- Any chain of steps moves forward, so a closed incident is never reopened by steps.
pub Steps-progress : {s t : IncidentStatus} → Steps s t → (s ≡ t) ⊎ (progress s < progress t)
Steps-progress (stay s) = inl refl
Steps-progress (next step rest) = elim (Steps-progress rest) [
  | inl same ↦ inr (rw (← same) (Step-progress step))
  | inr further ↦ inr (omega (arith, Step-progress step))
]
