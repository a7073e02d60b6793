-- ===== src/Base/Exceptions.antt =====
-- Exceptions as values, and methods that read and write a state and may raise. What a method wrote
-- before it raised stays written, so the state comes back with the exception too.
use mathlib.Core.Path.{◌≡◌, refl}
use mathlib.Core.Logic.{◌⊎◌, inl, inr}
use mathlib.Core.Bool.{Bool}
use mathlib.Core.Option.{Option, none, some}
use ai_powered_respiratory_h.Base.Tests.{if◌then◌else◌}

-- The exception classes of the program, and those of Python and pydantic that its code can meet.
pub data Exception : Type 0 where
  value_error key_error type_error attribute_error validation_error : Exception
  state_transition_error invalid_incident_transition state_version_conflict : Exception
  incident_not_found facility_not_found facility_version_conflict : Exception
  recommendation_not_found unauthorized_action invalid_state_transition : Exception
  stale_recommendation precondition_failed idempotency_key_reuse : Exception
  scenario_validation_error scenario_version_conflict : Exception

pub data Result (A : Type 0) : Type 0 where
  ok : A → Result A
  raise : Exception → Result A

abbrev pub Action : Type 0 → Type 0 → Type 0
Action S A = S → Result A × S

module _ {S A : Type 0} where
  abbrev pub pure : A → Action S A
  pure a s = (ok a, s)

  abbrev pub throw : Exception → Action S A
  throw e s = (raise e, s)

abbrev pub continue : {S A B : Type 0} → Result A × S → (A → Action S B) → Result B × S
continue (ok a, s) f = f a s
continue (raise e, s) f = (raise e, s)

infixl 5 ◌>>=◌ ◌>>◌
abbrev pub ◌>>=◌ : {S A B : Type 0} → Action S A → (A → Action S B) → Action S B
◌>>=◌ m f s = continue (m s) f

abbrev pub ◌>>◌ : {S A B : Type 0} → Action S A → Action S B → Action S B
m >> k = m >>= λ _. k

abbrev pub raise_if : {S : Type 0} → Bool → Exception → Action S (Unit {0})
raise_if c e s = (if c then raise e else ok tt, s)

abbrev pub modify : {S : Type 0} → (S → S) → Action S (Unit {0})
modify f s = (ok tt, f s)

abbrev pub get : {S : Type 0} → Action S S
get s = (ok s, s)

abbrev pub or_raise : {S A : Type 0} → Option A → Exception → Action S A
or_raise none e s = (raise e, s)
or_raise (some a) e s = (ok a, s)

abbrev pub IsOk : {A : Type 0} → Result A → Type 0
IsOk (ok _) = Unit
IsOk (raise _) = ⊥

-- A pure call inside a method.
abbrev pub lift : {S A : Type 0} → Result A → Action S A
lift r s = (r, s)

abbrev pub and_then : {A B : Type 0} → Result A → (A → Result B) → Result B
and_then (ok a) f = f a
and_then (raise e) f = raise e

pub Result-cases :
    {A : Type 0} (r : Result A) → ((a : A) × (r ≡ ok a)) ⊎ ((e : Exception) × (r ≡ raise e))
Result-cases (ok a) = inl (a, refl)
Result-cases (raise e) = inr (e, refl)

-- What the first part leaves and every continuation keeps, the whole leaves.
pub continue_keeps :
    {S A B : Type 0} (P : S → Type 0) (p : Result A × S) (f : A → Action S B)
    → P p.1
    → ((a : A) → p.0 ≡ ok a → P (f a p.1).1)
    → P (continue p f).1
continue_keeps P (ok a, s) f h rest = rest a refl
continue_keeps P (raise e, s) f h rest = h

-- A postcondition that excuses exceptions holds of the whole if it does of each continuation.
pub continue_ensures :
    {S A B : Type 0} (Q : Result B × S → Type 0) (p : Result A × S) (f : A → Action S B)
    → ((e : Exception) (s : S) → Q (raise e, s))
    → ((a : A) → p.0 ≡ ok a → Q (f a p.1))
    → Q (continue p f)
continue_ensures Q (ok a, s) f excused rest = rest a refl
continue_ensures Q (raise e, s) f excused rest = excused e s
