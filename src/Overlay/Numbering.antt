-- ===== src/Overlay/Numbering.antt =====
-- The overlay's version counts its events, whatever sequence of operations is run.
use ai_powered_respiratory_h.Base.{
  ℕ, ◌+◌, String, ◌≡◌, refl, some, Option, Option-cases, inl, inr, Bool-cases, arith, IsNumbered,
  IsNumbered-snoc, length_of_IsNumbered, length, lookup, ◌||◌, is_empty, ltb,
}
use ai_powered_respiratory_h.Schemas.Road.{RoadStatus, OverrideSource}
use ai_powered_respiratory_h.Overlay.{
  Overlay, OverlayEvent, RoadOverride, empty_overlay, register_road_edge, set_road_override,
  set_bridge_override, clear_road_override, clear_all_overrides, clone,
}

abbrev pub stamp : OverlayEvent → Option ℕ
stamp e = some e.state_version

abbrev pub IsCounted : Overlay → Type 0
IsCounted o = IsNumbered stamp 1 o.events o.version

-- The operations that a client can call on an overlay.
pub data Step : Overlay → Overlay → Type 0 where
  register :
      (road edge : String) (bridge : Option String) (o : Overlay)
      → Step o (register_road_edge road edge bridge o)
  set_road : (r : RoadOverride) (o : Overlay) → Step o (set_road_override r o).1
  set_bridge :
      (b : String) (s : RoadStatus) (why : String) (source : OverrideSource) (o : Overlay)
      → Step o (set_bridge_override b s why source o).1
  clear_road :
      (road why : String) (source : OverrideSource) (o : Overlay)
      → Step o (clear_road_override road why source o).1
  clear_all : (o : Overlay) → Step o (clear_all_overrides o).1
  copy : (o : Overlay) → Step o (clone o)

pub data Reach : Overlay → Type 0 where
  start : Reach empty_overlay
  next : {o p : Overlay} → Reach o → Step o p → Reach p

pub set_road_override-IsCounted :
    (r : RoadOverride) (o : Overlay) → IsCounted o → IsCounted (set_road_override r o).1
unfolding set_road_override
set_road_override-IsCounted r o h = elim (Bool-cases (is_empty r.road_id || is_empty r.reason)) [
  | inl bad ↦ rw bad h
  | inr good ↦ rw good (IsNumbered-snoc stamp 1 o.version o.events _ h refl)
]

pub Step-IsCounted : {o p : Overlay} → Step o p → IsCounted o → IsCounted p
unfolding register_road_edge set_bridge_override clear_road_override clear_all_overrides clone
Step-IsCounted (register road edge bridge o) h = h
Step-IsCounted (set_road r o) h = set_road_override-IsCounted r o h
Step-IsCounted (set_bridge b s why source o) h = set_road_override-IsCounted _ o h
Step-IsCounted (clear_road road why source o) h = elim (Option-cases (lookup road o.overrides)) [
  | inl absent ↦ rw (absent, clear_road_override) h
  | inr (r, found) ↦
      rw (found, clear_road_override) (IsNumbered-snoc stamp 1 o.version o.events _ h refl)
]
Step-IsCounted (clear_all o) h = elim (Bool-cases (ltb 0 (length o.overrides))) [
  | inl some_left ↦ rw some_left (IsNumbered-snoc stamp 1 o.version o.events _ h refl)
  | inr none_left ↦ rw none_left h
]
Step-IsCounted (copy o) h = h

reached-IsCounted : {o : Overlay} → Reach o → IsCounted o
reached-IsCounted start = refl
reached-IsCounted (next r s) = Step-IsCounted s (reached-IsCounted r)

-- However an overlay was reached from the empty one by the operations, its events are stamped 2, 3, …
-- without a gap, and its version is one more than the number of its events.
pub Reach-IsCounted : {o : Overlay} → Reach o → IsCounted o × (o.version ≡ length o.events + 1)
Reach-IsCounted {o} r =
    let counted = reached-IsCounted r in
    (counted, omega (arith, length_of_IsNumbered stamp 1 o.version o.events counted))
