-- ===== src/Twin/History.antt =====
-- What an event can never take away: entries of the log, seen identifiers, versions.
use mathlib.Core.List.{append-nil, append_assoc}
use ai_powered_respiratory_h.Base.{
  ℕ, ◌+◌, ◌≤◌, String, true, List, [], ◌∷◌, ◌++◌, ◌≡◌, sym, arith, contains, contains-insert, Dict,
}
use ai_powered_respiratory_h.Twin.Events.{TwinEvent}
use ai_powered_respiratory_h.Twin.State.{Twin, commit_event, logged_event}
use ai_powered_respiratory_h.Twin.Rule.{Keeps, keeps-apply_event}
use ai_powered_respiratory_h.Twin.Handling.{Clock}
use ai_powered_respiratory_h.Twin.Apply.{apply_event}

pub record IsGrown (t : Twin) (log : List TwinEvent) (version : ℕ) (seen : Dict ℕ) : Type 0 where
  pub added : List TwinEvent
  pub extended : log ≡ t.event_log ++ added
  pub later : t.version ≤ version
  pub known : (id : String) → contains id t.seen_event_ids ≡ true → contains id seen ≡ true

-- The second twin's log, version and seen identifiers go on from the first one's.
abbrev pub Extends : Twin → Twin → Type 0
Extends t t' = IsGrown t t'.event_log t'.version t'.seen_event_ids

Keeps-Extends : (t : Twin) → Keeps (Extends t)
unfolding commit_event
Keeps-Extends t = record {
  commit = λ e s h. record {
    added = h.added ++ logged_event e (s.version + 1) ∷ [];
    extended = rw (h.extended, append_assoc);
    later = omega (arith, h.later);
    known = λ id old. contains-insert e.event_id id _ s.seen_event_ids (h.known id old);
  };
  seen = λ other s h. record {
    added = h.added;
    extended = h.extended;
    later = h.later;
    known = λ id old. contains-insert other id _ s.seen_event_ids (h.known id old);
  };
  overlay = λ o s h. h;
  roads = λ d s h. h;
  bridges = λ d s h. h;
  flood_zones = λ d s h. h;
  populations = λ d s h. h;
  vulnerable_groups = λ d s h. h;
  hospital_capacity = λ e c a b s found ran h. h;
  shelter_capacity = λ e c a b s found ran h. h;
  hospital_status = λ e c a b s found ran h. h;
  shelter_status = λ e c a b s found ran h. h;
  incident_created = λ e c s h. h;
  incident_status = λ e c a b s found ran h. h;
}

-- The log is append-only, the version never falls and no seen identifier is forgotten, whatever the
-- event does and however it ends.
pub apply_event-Extends :
    (clock : Clock) (e : TwinEvent) (t : Twin) → Extends t (apply_event clock e t).1
apply_event-Extends clock e t = keeps-apply_event (Keeps-Extends t) clock e t (record {
  added = [];
  extended = sym (append-nil t.event_log);
  later = omega arith;
  known = λ id old. old;
})
