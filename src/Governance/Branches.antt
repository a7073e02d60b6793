-- ===== src/Governance/Branches.antt =====
-- The parts of the methods of the recommendation service, as steps of Steps.antt.
use ai_powered_respiratory_h.Base.{
  String, Bool, true, false, ◌&&◌, ◌≡◌, inl, inr, refl, arith, ◌==◌, string_eq, Option, none, some,
  Option-cases, Bool-cases, lookup, Result, ok, raise, raise_if, continue, Exception, Action,
  lookup-insert_self,
}
use ai_powered_respiratory_h.Schemas.Recommendation.{pending, approval_status_eq}
use ai_powered_respiratory_h.Governance.Roles.{Actor, role_value}
use ai_powered_respiratory_h.Governance.Records.{Recommendation}
use ai_powered_respiratory_h.Governance.Service.{
  Environment, Store, put, record_expiration_event, record_blocked_event, is_stale, expire_if_stale,
  record_view, get_recommendation,
}
use ai_powered_respiratory_h.Governance.Decisions.{
  apply_approval, apply_rejection, refuse_stale, ensure_fresh,
}
use ai_powered_respiratory_h.Governance.Steps.{
  Step, note, keep, lapse, decide, Steps, done, after, once, joined, lapsed,
}
use ai_powered_respiratory_h.Governance.Checking.{Checked}

pub stored :
    (id : String) (rec : Recommendation) (s : Store)
    → lookup id (put id rec s).recommendations ≡ some rec
unfolding put
stored id rec s = lookup-insert_self id rec s.recommendations

module _ (env : Environment) where
  pub record_blocked_event-Step :
      (id : String) (a : Actor) (why : String) (s : Store)
      → Step s (record_blocked_event env id a why s)
  unfolding record_blocked_event
  record_blocked_event-Step id a why s = elim (Option-cases (lookup id s.recommendations)) [
    | inl absent ↦ rw absent (note _ s refl)
    | inr (rec, found) ↦ rw found (note _ s refl)
  ]

  pub record_expiration_event-Step :
      (rec : Recommendation) (by role why : String) (s : Store)
      → Step s (record_expiration_event env rec by role why s)
  unfolding record_expiration_event
  record_expiration_event-Step rec by role why s = note _ s refl

  -- A pending recommendation that lapses, with the event for it.
  pub expire_if_stale-Steps :
      (id : String) (rec : Recommendation) (s : Store)
      → lookup id s.recommendations ≡ some rec
      → Steps s (expire_if_stale env id rec s).1
  unfolding expire_if_stale
  expire_if_stale-Steps id rec s found =
      elim (Bool-cases (is_stale env rec && rec.approval_status == pending)) [
        | inl late ↦ rw late (
            after
              (once (
                lapse id rec s found
                  ((approval_status_eq.same_iff rec.approval_status pending).0 (ground arith))))
              (record_expiration_event-Step (lapsed rec) "SYSTEM" "SYSTEM" _
                (put id (lapsed rec) s)))
        | inr fine ↦ rw fine (done s)
      ]

  pub record_view-Steps :
      (actor : Option Actor) (rec : Recommendation) (s : Store)
      → Steps s (record_view env actor rec s)
  unfolding record_view
  record_view-Steps none rec s = done s
  record_view-Steps (some a) rec s = once (note _ s refl)

  pub get_recommendation-Steps :
      (id : String) (actor : Option Actor) (s : Store)
      → Steps s (get_recommendation env id actor s).1
  unfolding get_recommendation
  get_recommendation-Steps id actor s = elim (Option-cases (lookup id s.recommendations)) [
    | inl absent ↦ rw absent (done s)
    | inr (rec, found) ↦
        rw found (joined (expire_if_stale-Steps id rec s found) (record_view-Steps actor _ _))
  ]

  pub refuse_stale-Steps :
      (id : String) (rec : Recommendation) (a : Actor) (s : Store)
      → lookup id s.recommendations ≡ some rec
      → rec.approval_status ≡ pending
      → Steps s (refuse_stale env id rec a s).1
  unfolding refuse_stale
  refuse_stale-Steps id rec a s found waiting =
      after
        (after (once (lapse id rec s found waiting))
          (record_blocked_event-Step id a _ (put id (lapsed rec) s)))
        (record_expiration_event-Step (lapsed rec) a.actor_id (role_value a.role) _ _)

  pub apply_approval-Steps :
      (id : String) (rec : Recommendation) (a : Actor) (why : String) (key : Option String)
      (s : Store)
      → lookup id s.recommendations ≡ some rec
      → rec.approval_status ≡ pending
      → Steps s (apply_approval env id rec a why key s).1
  unfolding apply_approval
  apply_approval-Steps id rec a why key s found waiting =
      once (decide id rec _ _ _ s found waiting refl refl)

  pub apply_rejection-Steps :
      (id : String) (rec : Recommendation) (a : Actor) (why : String) (key : Option String)
      (s : Store)
      → lookup id s.recommendations ≡ some rec
      → rec.approval_status ≡ pending
      → Steps s (apply_rejection env id rec a why key s).1
  unfolding apply_rejection
  apply_rejection-Steps id rec a why key s found waiting =
      once (decide id rec _ _ _ s found waiting refl refl)

  -- The preconditions' check, as it is run on the stored recommendation, and what follows it.
  pub checked-Steps :
      (id : String) (rec : Recommendation) (s : Store) (p : Result (Unit {0}) × Recommendation)
      (f : Unit {0} → Action Store Recommendation)
      → lookup id s.recommendations ≡ some rec
      → rec.approval_status ≡ pending
      → Checked rec p
      → ((s' : Store) → lookup id s'.recommendations ≡ some rec → Steps s' (f tt s').1)
      → Steps s (continue (p.0, put id p.1 s) f).1
  checked-Steps id rec s (ok tt, r) f found waiting (inl same) next =
      rw same (joined (once (keep id rec s found)) (next (put id rec s) (stored id rec s)))
  checked-Steps id rec s (ok tt, r) f found waiting (inr (h, e)) next = cc
  checked-Steps id rec s (raise x, r) f found waiting (inl same) next =
      rw same (once (keep id rec s found))
  checked-Steps id rec s (raise x, r) f found waiting (inr (h, e)) next =
      rw e (once (lapse id rec s found waiting))

  pub raise_if-Steps :
      (c : Bool) (e : Exception) (f : Action Store Recommendation) (s : Store)
      → (c ≡ false → Steps s (f s).1)
      → Steps s (continue (raise_if c e s) (λ u. f)).1
  raise_if-Steps true e f s next = done s
  raise_if-Steps false e f s next = next refl

  pub fresh-Steps :
      (id : String) (rec : Recommendation) (a : Actor) (f : Action Store Recommendation) (s : Store)
      → lookup id s.recommendations ≡ some rec
      → rec.approval_status ≡ pending
      → Steps s (f s).1
      → Steps s (continue (ensure_fresh env id rec a s) (λ u. f)).1
  unfolding refuse_stale
  fresh-Steps id rec a f s found waiting next = elim (Bool-cases (is_stale env rec)) [
    | inl late ↦ rw late (refuse_stale-Steps id rec a s found waiting)
    | inr fresh ↦ rw fresh next
  ]
