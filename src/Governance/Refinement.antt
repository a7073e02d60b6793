-- ===== src/Governance/Refinement.antt =====
-- The methods of the recommendation service do nothing to the store but the steps of Steps.antt.
use ai_powered_respiratory_h.Base.{
  String, not, ◌≡◌, inl, inr, string_eq, [], ◌∷◌, Option, some, Option-cases, Bool-cases,
  Result-cases, lookup, Dict, continue, precondition_failed, Action, ltb, stripped_length,
}
use ai_powered_respiratory_h.Schemas.Recommendation.{
  ApprovalStatus, approved, rejected, expired, approval_status_eq,
}
use ai_powered_respiratory_h.Governance.Roles.{
  Actor, Permission, has_permission, approve_recommendation as to_approve,
  reject_recommendation as to_reject, expire_recommendation as to_expire, validate_transition,
  validate_transition_pending, role_value,
}
use ai_powered_respiratory_h.Governance.Records.{Recommendation}
use ai_powered_respiratory_h.Governance.Service.{Environment, Store, get_recommendation}
use ai_powered_respiratory_h.Governance.Preconditions.{validate_operational_preconditions}
use ai_powered_respiratory_h.Governance.Decisions.{
  apply_approval, find_recommendation, require_live, approve_found, approve_recommendation,
  reject_found, reject_recommendation, expire_found, expire_recommendation, cached, is_simulated,
  authorize,
}
use ai_powered_respiratory_h.Governance.Listing.{list_one, list_each, list_recommendations}
use ai_powered_respiratory_h.Governance.Steps.{lapse, Steps, done, after, once, joined, lapsed}
use ai_powered_respiratory_h.Governance.Checking.{preconditions-Checked}
use ai_powered_respiratory_h.Governance.Branches.{
  record_blocked_event-Step, record_expiration_event-Step, expire_if_stale-Steps,
  get_recommendation-Steps, apply_approval-Steps, apply_rejection-Steps, checked-Steps,
  raise_if-Steps, fresh-Steps,
}

module _ (env : Environment) where
  approve_found-Steps :
      (id : String) (a : Actor) (why : String) (key : Option String) (rec : Recommendation)
      (s : Store)
      → lookup id s.recommendations ≡ some rec
      → Steps s (approve_found env id a why key rec s).1
  unfolding approve_found require_live
  approve_found-Steps id a why key rec s found =
      elim (Result-cases (validate_transition rec.approval_status approved)) [
        | inr (e, refused) ↦ rw refused (done s)
        | inl (u, valid) ↦
            let waiting = (validate_transition_pending rec.approval_status approved valid).0 in
            rw valid (
              raise_if-Steps env (not rec.requires_human_approval) precondition_failed _ s λ human.
                fresh-Steps env id rec a _ s found waiting (
                  raise_if-Steps env (is_simulated id s) precondition_failed _ s λ live.
                    checked-Steps env id rec s
                      (validate_operational_preconditions env rec.target rec)
                      (λ u. apply_approval env id rec a why key) found waiting
                      (preconditions-Checked env rec.target rec)
                      (λ s' found'. apply_approval-Steps env id rec a why key s' found' waiting)))
      ]

  reject_found-Steps :
      (id : String) (a : Actor) (why : String) (key : Option String) (rec : Recommendation)
      (s : Store)
      → lookup id s.recommendations ≡ some rec
      → Steps s (reject_found env id a why key rec s).1
  unfolding reject_found
  reject_found-Steps id a why key rec s found =
      elim (Result-cases (validate_transition rec.approval_status rejected)) [
        | inr (e, refused) ↦ rw refused (done s)
        | inl (u, valid) ↦ rw valid (
            apply_rejection-Steps env id rec a why key s found
              (validate_transition_pending rec.approval_status rejected valid).0)
      ]

  expire_found-Steps :
      (a : Actor) (id why : String) (rec : Recommendation) (s : Store)
      → lookup id s.recommendations ≡ some rec
      → Steps s (expire_found env a id why rec s).1
  unfolding expire_found
  expire_found-Steps a id why rec s found =
      elim (Result-cases (validate_transition rec.approval_status expired)) [
        | inr (e, refused) ↦ rw refused (done s)
        | inl (u, valid) ↦ rw valid (
            after
              (once (
                lapse id rec s found
                  (validate_transition_pending rec.approval_status expired valid).0))
              (record_expiration_event-Step env (lapsed rec) a.actor_id (role_value a.role) why _))
      ]

  -- What a method does once it has looked the recommendation up.
  found-Steps :
      (id : String) (f : Recommendation → Action Store Recommendation) (s : Store)
      → ((rec : Recommendation) → lookup id s.recommendations ≡ some rec → Steps s (f rec s).1)
      → Steps s (continue (find_recommendation id s) f).1
  unfolding find_recommendation
  found-Steps id f s next = elim (Option-cases (lookup id s.recommendations)) [
    | inl absent ↦ rw absent (done s)
    | inr (rec, found) ↦ rw found (next rec found)
  ]

  authorized-Steps :
      (p : Permission) (what id : String) (a : Actor) (f : Action Store Recommendation) (s : Store)
      → Steps s (f s).1
      → Steps s (continue (authorize env p what id a s) (λ u. f)).1
  authorized-Steps p what id a f s next = elim (Bool-cases (has_permission p a)) [
    | inl allowed ↦ rw allowed next
    | inr refused ↦ rw refused (once (record_blocked_event-Step env id a _ s))
  ]

  approve_recommendation-Steps :
      (id : String) (a : Actor) (why : String) (key : Option String) (s : Store)
      → Steps s (approve_recommendation env id a why key s).1
  unfolding approve_recommendation
  approve_recommendation-Steps id a why key s = elim (Option-cases (cached id key s)) [
    | inr (rec, again) ↦ rw again (done s)
    | inl new ↦ rw new (
        authorized-Steps to_approve "approve" id a _ s (
          found-Steps id (approve_found env id a why key) s
            (λ rec found. approve_found-Steps id a why key rec s found)))
  ]

  reject_recommendation-Steps :
      (id : String) (a : Actor) (why : String) (key : Option String) (s : Store)
      → Steps s (reject_recommendation env id a why key s).1
  unfolding reject_recommendation
  reject_recommendation-Steps id a why key s = elim (Bool-cases (ltb (stripped_length why) 3)) [
    | inl short ↦ rw short (done s)
    | inr long ↦ rw long (elim (Option-cases (cached id key s)) [
      | inr (rec, again) ↦ rw again (done s)
      | inl new ↦ rw new (
          authorized-Steps to_reject "reject" id a _ s (
            found-Steps id (reject_found env id a why key) s
              (λ rec found. reject_found-Steps id a why key rec s found)))
    ])
  ]

  expire_recommendation-Steps :
      (id : String) (a : Actor) (why : String) (s : Store)
      → Steps s (expire_recommendation env id a why s).1
  unfolding expire_recommendation
  expire_recommendation-Steps id a why s = elim (Bool-cases (has_permission to_expire a)) [
    | inr refused ↦ rw refused (done s)
    | inl allowed ↦ rw allowed (
        found-Steps id (expire_found env a id why) s
          (λ rec found. expire_found-Steps a id why rec s found))
  ]

  list_each-Steps :
      (status : Option ApprovalStatus) (action mode : Option String) (d : Dict Recommendation)
      (s : Store)
      → Steps s (list_each env status action mode d s).1
  unfolding list_each list_one
  list_each-Steps status action mode [] s = done s
  list_each-Steps status action mode ((id, r) ∷ d) s =
      elim (Option-cases (lookup id s.recommendations)) [
        | inl absent ↦ rw absent (list_each-Steps status action mode d s)
        | inr (rec, found) ↦ rw found (
            joined (expire_if_stale-Steps env id rec s found)
              (list_each-Steps status action mode d _))
      ]

-- The requests that act on what is stored.
pub data Request : Type 0 where
  get_one : String → Option Actor → Request
  list_all : Option ApprovalStatus → Option String → Option String → Request
  approve : (id : String) → Actor → (why : String) → (key : Option String) → Request
  reject : (id : String) → Actor → (why : String) → (key : Option String) → Request
  expire : (id : String) → Actor → (why : String) → Request

unfoldable pub handle : Environment → Request → Store → Store
handle env (get_one id a) s = (get_recommendation env id a s).1
handle env (list_all status action mode) s = (list_recommendations env status action mode s).1
handle env (approve id a why key) s = (approve_recommendation env id a why key s).1
handle env (reject id a why key) s = (reject_recommendation env id a why key s).1
handle env (expire id a why) s = (expire_recommendation env id a why s).1

-- Whatever a request to get, list, approve, reject or expire asks and however it ends, with an answer or
-- an exception, it changes the store by steps of the abstract relation alone: events that decide
-- nothing, recommendations written back as they were, pending recommendations that expire, and
-- decisions on pending recommendations that one event and one record report alike.
pub handle-Steps : (env : Environment) (r : Request) (s : Store) → Steps s (handle env r s)
unfolding handle list_recommendations
handle-Steps env (get_one id a) s = get_recommendation-Steps env id a s
handle-Steps env (list_all status action mode) s =
    list_each-Steps env status action mode s.recommendations s
handle-Steps env (approve id a why key) s = approve_recommendation-Steps env id a why key s
handle-Steps env (reject id a why key) s = reject_recommendation-Steps env id a why key s
handle-Steps env (expire id a why) s = expire_recommendation-Steps env id a why s
