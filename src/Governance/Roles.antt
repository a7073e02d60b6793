-- ===== src/Governance/Roles.antt =====
-- services/recommendations/governance/roles.py and state_machine.py: the permissions of each role,
-- and the transitions of a recommendation's status.
use ai_powered_respiratory_h.Base.{
  ℕ, String, Bool, true, false, List, [], ◌∷◌, ◌≡◌, ◌≢◌, ◌↔◌, ◌⊎◌, arith, Eq, eq_by, nat_beq, ◌==◌,
  ◌||◌, if◌then◌else◌, Result, ok, raise, invalid_state_transition,
}
use ai_powered_respiratory_h.Schemas.Recommendation.{
  ApprovalStatus, pending, approved, rejected, expired, approval_status_eq,
}

pub data UserRole : Type 0 where
  viewer field_officer operator approver commander admin : UserRole

abbrev pub role_value : UserRole → String
role_value viewer = "VIEWER"
role_value field_officer = "FIELD_OFFICER"
role_value operator = "OPERATOR"
role_value approver = "APPROVER"
role_value commander = "COMMANDER"
role_value admin = "ADMIN"

pub data Permission : Type 0 where
  view_recommendations generate_recommendations approve_recommendation : Permission
  reject_recommendation expire_recommendation view_audit_log : Permission

abbrev permission_rank : Permission → ℕ
permission_rank view_recommendations = 0
permission_rank generate_recommendations = 1
permission_rank approve_recommendation = 2
permission_rank reject_recommendation = 3
permission_rank expire_recommendation = 4
permission_rank view_audit_log = 5

permission_rank_iff :
    (a b : Permission) → (nat_beq (permission_rank a) (permission_rank b) ≡ true) ↔ (a ≡ b)
permission_rank_iff a b = ground arith

instance abbrev permission_eq : Eq Permission
permission_eq = eq_by permission_rank permission_rank_iff

-- `ROLE_PERMISSIONS`
abbrev pub role_permissions : UserRole → List Permission
role_permissions viewer = view_recommendations ∷ view_audit_log ∷ []
role_permissions field_officer = view_recommendations ∷ []
role_permissions operator = view_recommendations ∷ generate_recommendations ∷ view_audit_log ∷ []
role_permissions approver =
    view_recommendations ∷ approve_recommendation ∷ reject_recommendation ∷ view_audit_log ∷ []
role_permissions commander =
    view_recommendations ∷ generate_recommendations ∷ approve_recommendation ∷ reject_recommendation
    ∷ expire_recommendation ∷ view_audit_log ∷ []
role_permissions admin =
    view_recommendations ∷ generate_recommendations ∷ approve_recommendation ∷ reject_recommendation
    ∷ expire_recommendation ∷ view_audit_log ∷ []

abbrev member : {A : Type 0} ⦃test : Eq A⦄ (wanted : A) → List A → Bool
member x [] = false
member x (y ∷ ys) = x == y || member x ys

pub record Actor : Type 0 where
  pub actor_id : String
  pub role : UserRole

-- `AuthenticatedActor.has_permission`
abbrev pub has_permission : Permission → Actor → Bool
has_permission p a = member p (role_permissions a.role)

-- `ALLOWED_TRANSITIONS`
abbrev pub allowed_transitions : ApprovalStatus → List ApprovalStatus
allowed_transitions pending = approved ∷ rejected ∷ expired ∷ []
allowed_transitions approved = []
allowed_transitions rejected = []
allowed_transitions expired = []

abbrev pub can_transition : ApprovalStatus → ApprovalStatus → Bool
can_transition current target = member target (allowed_transitions current)

-- `validate_transition`, on the recommendation's status
unfoldable pub validate_transition : ApprovalStatus → ApprovalStatus → Result (Unit {0})
validate_transition current target =
    if current == target
    then raise invalid_state_transition
    else if can_transition current target
    then ok tt
    else raise invalid_state_transition

-- The roles that may decide: to approve and to reject take the same roles, and the ones that may
-- expire a recommendation are among them.
abbrev pub Decides : UserRole → Type 0
Decides r = (r ≡ approver) ⊎ (r ≡ commander) ⊎ (r ≡ admin)

-- An actor may approve exactly if it is an approver, a commander or an administrator; it may reject
-- under the same condition; and only commanders and administrators may expire.
pub has_permission_cases :
    (a : Actor)
    → ((has_permission approve_recommendation a ≡ true) ↔ Decides a.role)
      × ((has_permission reject_recommendation a ≡ true) ↔ Decides a.role)
      × ((has_permission expire_recommendation a ≡ true)
          ↔ ((a.role ≡ commander) ⊎ (a.role ≡ admin)))
has_permission_cases a = ground arith

pub validate_transition_pending :
    (current target : ApprovalStatus)
    → validate_transition current target ≡ ok tt
    → (current ≡ pending) × (target ≢ pending)
unfolding validate_transition
validate_transition_pending current target h = ground arith

pending_validates :
    (current target : ApprovalStatus)
    → (current ≡ pending) × (target ≢ pending)
    → validate_transition current target ≡ ok tt
unfolding validate_transition
pending_validates current target h = ground arith

-- A transition is validated exactly if it leads from PENDING to another status, and the table of
-- allowed transitions says the same; what is not validated is an InvalidStateTransitionError.
pub validate_transition_cases :
    (current target : ApprovalStatus)
    → ((validate_transition current target ≡ ok tt) ↔ ((current ≡ pending) × (target ≢ pending)))
      × ((can_transition current target ≡ true) ↔ ((current ≡ pending) × (target ≢ pending)))
      × (can_transition current target ≡ false
          → validate_transition current target ≡ raise invalid_state_transition)
unfolding validate_transition
validate_transition_cases current target = (
  (validate_transition_pending current target, pending_validates current target),
  ground arith,
  λ h. ground arith,
)
