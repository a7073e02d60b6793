-- ===== src/Twin/Queries.antt =====
-- digital_twin/state/state_manager.py: the queries over entities and the event log.
use native.Mathlib.Decide.{ℕ_discrete, dec_le}
use ai_powered_respiratory_h.Base.{
  ℕ, suc, ◌-◌, ◌≤◌, String, Bool, true, false, List, [], ◌∷◌, ◌≡◌, refl, sym, ap, Option, none,
  some, arith, lookup, Value, is_empty, ◌==◌, string_eq, leb, if◌then◌else◌, Result, ok, raise,
  and_then, type_error, IsNumbered, drop, drop-nil,
}
use ai_powered_respiratory_h.Twin.Events.{TwinEvent}
use ai_powered_respiratory_h.Twin.State.{Twin}
use ai_powered_respiratory_h.Twin.Entities.{RoadEntity, HospitalEntity}
use ai_powered_respiratory_h.Twin.Log.{stamp, version_in, IsLogged}

-- `get_road` and `get_hospital`; the other seven look up their registries the same way.
abbrev pub get_road : String → Twin → Option RoadEntity
get_road id t = lookup id t.roads

abbrev pub get_hospital : String → Twin → Option HospitalEntity
get_hospital id t = lookup id t.hospitals

-- `get_event`: the first entry with the identifier
unfoldable pub get_event : String → List TwinEvent → Option TwinEvent
get_event id [] = none
get_event id (e ∷ es) = if e.event_id == id then some e else get_event id es

-- `evt.metadata.get("state_version", 0) <= since`, which only an integer can answer
abbrev pub is_old : Option Value → ℕ → Result Bool
is_old none since = ok (leb 0 since)
is_old (some (Value.number n)) since = ok (leb n since)
is_old (some _) since = raise type_error

abbrev skips_version : Option ℕ → TwinEvent → Result Bool
skips_version none e = ok false
skips_version (some since) e = is_old (lookup "state_version" e.metadata) since

-- `if event_type and evt.event_type != event_type`
abbrev skips_type : Option String → TwinEvent → Bool
skips_type none e = false
skips_type (some type) e =
    if is_empty type then false else if e.event_type == type then false else true

abbrev pub keep : Bool → TwinEvent → List TwinEvent → List TwinEvent
keep skipped e es = if skipped then es else e ∷ es

unfoldable pub get_events : Option String → Option ℕ → List TwinEvent → Result (List TwinEvent)
get_events type since [] = ok []
get_events type since (e ∷ es) =
    let rest = get_events type since es in
    if skips_type type e
    then rest
    else and_then (skips_version since e)
        λ skipped. and_then rest λ found. ok (keep skipped e found)

-- A stamped entry is compared by its stamp.
is_old-stamp :
    (o : Option Value) (n since : ℕ) → version_in o ≡ some n → is_old o since ≡ ok (leb n since)
is_old-stamp none n since h = cc
is_old-stamp (some (Value.number m)) n since h = ground arith
is_old-stamp (some (Value.flag b)) n since h = cc
is_old-stamp (some (Value.string s)) n since h = cc
is_old-stamp (some (Value.document s)) n since h = cc
is_old-stamp (some Value.null) n since h = cc

module _ (since : ℕ) where
  all_later :
      (first last : ℕ) (es : List TwinEvent)
      → since ≤ first
      → IsNumbered stamp first es last
      → get_events none (some since) es ≡ ok es
  unfolding get_events
  all_later first last [] low h = refl
  all_later first last (e ∷ es) low h =
      rw
        (
          is_old-stamp (lookup "state_version" e.metadata) (suc first) since h.0,
          all_later (suc first) last es (omega arith) h.1,
        )
        (ground arith)

  get_events-drop :
      (first last : ℕ) (es : List TwinEvent)
      → first ≤ since
      → IsNumbered stamp first es last
      → get_events none (some since) es ≡ ok (drop (since - first) es)
  unfolding get_events
  get_events-drop first last [] low h = ap ok (sym (drop-nil (since - first)))
  get_events-drop first last (e ∷ es) low h = elim (ℕ_discrete first since) [
    | yes here ↦
        rw
          (
            is_old-stamp (lookup "state_version" e.metadata) (suc first) since h.0,
            all_later (suc first) last es (omega arith) h.1,
          )
          (ground arith)
    | no before ↦
        let step : since - first ≡ suc (since - suc first) = omega arith in
        rw
          (
            step,
            is_old-stamp (lookup "state_version" e.metadata) (suc first) since h.0,
            get_events-drop (suc first) last es (omega arith) h.1,
          )
          (ground arith)
  ]

-- On a gap-free log, the events after version `since` are the log without its first `since - first`
-- entries, and all of it for an earlier `since`; no entry makes the comparison fail.
pub get_events_since :
    (first since : ℕ) (t : Twin)
    → IsLogged first t
    → get_events none (some since) t.event_log ≡ ok (drop (since - first) t.event_log)
get_events_since first since t h = elim (dec_le first since) [
  | yes within ↦ get_events-drop since first t.version t.event_log within h
  | no early ↦
      let none_dropped : since - first ≡ 0 = omega arith in
      rw none_dropped (all_later since first t.version t.event_log (omega arith) h)
]
