-- ===== src/Overlay/Reads.antt =====
-- What a reader of the overlay sees after each write: the override of a road, and the data of an
-- edge with that override on top.
use ai_powered_respiratory_h.Base.{
  ◌+◌, String, false, ◌≡◌, ◌∙◌, refl, none, some, Option, lookup, insert, lookup-insert,
  lookup-insert_self, is_empty, Dict, Value, string, to_text, or_else, ok, ◌==◌, string_eq,
  if◌then◌else◌,
}
use ai_powered_respiratory_h.Schemas.Road.{road_value}
use ai_powered_respiratory_h.Overlay.{
  Overlay, RoadOverride, set_road_override, get_road_override, get_effective_edge_data, overridden,
  set_if,
}

-- A road override that names a road and a reason is accepted: it is what a read of its road
-- returns, the version grows by one, and a read of any other road returns what it did.
pub get_road_override-set :
    (r : RoadOverride) (other : String) (o : Overlay)
    → is_empty r.road_id ≡ false
    → is_empty r.reason ≡ false
    → let (result, o') = set_road_override r o in
      (result ≡ ok r)
      × (o'.version ≡ o.version + 1)
      × (get_road_override other o'
          ≡ (if r.road_id == other then some r else get_road_override other o))
unfolding set_road_override
get_road_override-set r other o named why = (
  rw (named, why),
  rw (named, why),
  rw (named, why) (lookup-insert r.road_id other r o.overrides),
)

lookup-set_if_ne :
    (k j : String) (v : Option Value) (d : Dict Value)
    → (k == j) ≡ false
    → lookup j (set_if k v d) ≡ lookup j d
lookup-set_if_ne k j none d ne = refl
lookup-set_if_ne k j (some v) d ne = rw (lookup-insert, ne)

-- What an override adds on top of the status that it writes, at a key that it does not write.
module _ (r : RoadOverride) (base : Dict Value) (key : String) where
  written_last :
      ("speed_limit_kmh" == key) ≡ false
      → ("accessibility" == key) ≡ false
      → ("override_applied" == key) ≡ false
      → ("override_reason" == key) ≡ false
      → ("override_source" == key) ≡ false
      → lookup key (overridden r base)
        ≡ lookup key (insert "status" (string (road_value r.status)) base)
  unfolding overridden
  written_last speed access applied reason source =
      rw (lookup-insert, source, lookup-insert, reason, lookup-insert, applied)
        (lookup-set_if_ne "speed_limit_kmh" key _ _ speed
          ∙ lookup-set_if_ne "accessibility" key _ _ access)

-- An edge's data is untouched where its road has no override; where it has one, its status is the
-- override's, and the base data stays readable at every key that an override does not write.
pub effective_edge_data_precedence :
    (base : Dict Value) (o : Overlay)
    → let road_id = to_text (or_else (lookup "road_id" base) (string "")) in
      (lookup road_id o.overrides ≡ none → get_effective_edge_data base o ≡ base)
      × ((r : RoadOverride)
          → lookup road_id o.overrides ≡ some r
          → (lookup "status" (get_effective_edge_data base o) ≡ some (string (road_value r.status)))
            × (lookup "road_id" (get_effective_edge_data base o) ≡ lookup "road_id" base)
            × (lookup "edge_id" (get_effective_edge_data base o) ≡ lookup "edge_id" base))
unfolding get_effective_edge_data
effective_edge_data_precedence base o = (
  λ e. rw (e, get_effective_edge_data),
  λ r e.
      rw (e, get_effective_edge_data)
        (
          written_last r base "status" refl refl refl refl refl ∙ lookup-insert_self _ _ base,
          written_last r base "road_id" refl refl refl refl refl
              ∙ lookup-insert "status" "road_id" _ base,
          written_last r base "edge_id" refl refl refl refl refl
              ∙ lookup-insert "status" "edge_id" _ base,
        ),
)
