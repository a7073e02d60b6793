-- ===== src/Governance/Retry.antt =====
-- Repeated decisions under one idempotency key.
use text.Mathlib.TextPositions.{eq_refl}
use ai_powered_respiratory_h.Base.{
  String, false, ◌≡◌, refl, sym, ap, ◌∙◌, subst, string_eq, Option, none, some, lookup-insert_self,
  ok, is_empty, ltb, stripped_length,
}
use ai_powered_respiratory_h.Governance.Roles.{Actor}
use ai_powered_respiratory_h.Governance.Records.{Recommendation}
use ai_powered_respiratory_h.Governance.Ledger.{append_event, save_decision_record}
use ai_powered_respiratory_h.Governance.Service.{Environment, Store, record_event, put}
use ai_powered_respiratory_h.Governance.Decisions.{
  record_decision, apply_approval, approve_recommendation, reject_recommendation, cached,
}
use ai_powered_respiratory_h.Governance.Approval.{approval-Reached}

ok-injective : {A : Type 0} {a b : A} → ok a ≡ ok b → a ≡ b
ok-injective h = cc

-- What an approval under a key leaves answers later calls under the key.
approval-cached :
    (env : Environment) (id : String) (a : Actor) (why key : String) (rec r : Recommendation)
    (s : Store)
    → is_empty key ≡ false
    → (apply_approval env id rec a why (some key) s).0 ≡ ok r
    → cached id (some key) (apply_approval env id rec a why (some key) s).1 ≡ some r
unfolding apply_approval cached record_decision record_event append_event save_decision_record put
approval-cached env id a why key rec r s given success =
    rw (given, lookup-insert_self, eq_refl, lookup-insert_self) (ap some (ok-injective success))

approve-hit :
    (env : Environment) (id : String) (a : Actor) (why : String) (key : Option String)
    (r : Recommendation) (s : Store)
    → cached id key s ≡ some r
    → approve_recommendation env id a why key s ≡ (ok r, s)
unfolding approve_recommendation
approve-hit env id a why key r s hit = rw hit refl

reject-hit :
    (env : Environment) (id : String) (a : Actor) (why : String) (key : Option String)
    (r : Recommendation) (s : Store)
    → ltb (stripped_length why) 3 ≡ false
    → cached id key s ≡ some r
    → reject_recommendation env id a why key s ≡ (ok r, s)
unfolding reject_recommendation
reject-hit env id a why key r s long hit = rw (long, hit) refl

-- After an approval that succeeds under a key, a further approval or rejection of the same
-- recommendation under that key answers with the recommendation as it was approved and changes
-- nothing, whoever asks, with whatever reason that the rejection accepts and in whatever state.
pub approve_recommendation_retry :
    (env later : Environment) (id : String) (a b : Actor) (why other key : String) (s : Store)
    (r : Recommendation)
    → is_empty key ≡ false
    → ltb (stripped_length other) 3 ≡ false
    → cached id (some key) s ≡ none
    → (approve_recommendation env id a why (some key) s).0 ≡ ok r
    → (approve_recommendation later id b other
          (some key)
          (approve_recommendation env id a why (some key) s).1
        ≡ (ok r, (approve_recommendation env id a why (some key) s).1))
      × (reject_recommendation later id b other
            (some key)
            (approve_recommendation env id a why (some key) s).1
          ≡ (ok r, (approve_recommendation env id a why (some key) s).1))
approve_recommendation_retry env later id a b why other key s r given long new success =
    let p = approve_recommendation env id a why (some key) s in
    let (allowed, (rec, (found, waiting, human, fresh, live, fit, decided))) =
      approval-Reached env id a why (some key) s r new success in
    let hit : cached id (some key) p.1 ≡ some r =
      subst (λ q. cached id (some key) q.1 ≡ some r) (sym decided)
        (approval-cached env id a why key rec r (put id rec s) given
          (sym (ap (λ q. q.0) decided) ∙ success)) in
    (
      approve-hit later id b other (some key) r p.1 hit,
      reject-hit later id b other (some key) r p.1 long hit,
    )
