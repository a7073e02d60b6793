-- ===== src/Twin/Log.antt =====
-- The event log of the twin under `apply_event`: one stamped entry for each version.
use ai_powered_respiratory_h.Base.{
  ℕ, ◌+◌, ◌≡◌, Option, none, some, lookup, lookup-insert_self, Value, IsNumbered, IsNumbered-snoc,
  length_of_IsNumbered, length,
}
use ai_powered_respiratory_h.Twin.Events.{TwinEvent}
use ai_powered_respiratory_h.Twin.State.{Twin, commit_event}
use ai_powered_respiratory_h.Twin.Rule.{Keeps, keeps-apply_event}
use ai_powered_respiratory_h.Twin.Handling.{Clock}
use ai_powered_respiratory_h.Twin.Apply.{apply_event}

-- The version that `_commit_event` wrote into an event.
abbrev pub version_in : Option Value → Option ℕ
version_in (some (Value.number n)) = some n
version_in _ = none

abbrev pub stamp : TwinEvent → Option ℕ
stamp e = version_in (lookup "state_version" e.metadata)

-- The log holds one event for each version after `first`, stamped with it.
abbrev pub IsLogged : ℕ → Twin → Type 0
IsLogged first t = IsNumbered stamp first t.event_log t.version

pub commit_event-IsLogged :
    (first : ℕ) (e : TwinEvent) (t : Twin) → IsLogged first t → IsLogged first (commit_event e t)
unfolding commit_event
commit_event-IsLogged first e t h =
    IsNumbered-snoc stamp first t.version t.event_log _ h (rw lookup-insert_self)

Keeps-IsLogged : (first : ℕ) → Keeps (IsLogged first)
Keeps-IsLogged first = record {
  commit = commit_event-IsLogged first;
  seen = λ id t h. h;
  overlay = λ o t h. h;
  roads = λ d t h. h;
  bridges = λ d t h. h;
  flood_zones = λ d t h. h;
  populations = λ d t h. h;
  vulnerable_groups = λ d t h. h;
  hospital_capacity = λ e c a b t found ran h. h;
  shelter_capacity = λ e c a b t found ran h. h;
  hospital_status = λ e c a b t found ran h. h;
  shelter_status = λ e c a b t found ran h. h;
  incident_created = λ e c t h. h;
  incident_status = λ e c a b t found ran h. h;
}

-- The log of the twin is gap-free: if it held one event stamped with each version after `first`, it
-- does after any event, applied, ignored or refused, and then its length and `first` make up the
-- version.
pub apply_event-IsLogged :
    (first : ℕ) (clock : Clock) (e : TwinEvent) (t : Twin)
    → IsLogged first t
    → let t' = (apply_event clock e t).1 in
      IsLogged first t' × (first + length t'.event_log ≡ t'.version)
apply_event-IsLogged first clock e t h =
    let kept = keeps-apply_event (Keeps-IsLogged first) clock e t h in
    (kept, length_of_IsNumbered stamp first _ _ kept)
