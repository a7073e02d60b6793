-- ===== src/Routing/Passage.antt =====
-- geospatial/routing/constraints.py on the edge data of geospatial/routing/state_overlay.py.
use ai_powered_respiratory_h.Base.{
  String, Bool, true, false, not, ◌&&◌, ◌||◌, string_eq, ◌≡◌, ◌≢◌, ◌↔◌, ◌⊎◌, inl, inr, refl, arith,
  Option, none, some, lookup, or_else, Dict, Value, string, to_text, ap, ◌∙◌,
}
use ai_powered_respiratory_h.Schemas.Road.{road_value, blocked}
use ai_powered_respiratory_h.Overlay.{Overlay, RoadOverride, get_effective_edge_data}
use ai_powered_respiratory_h.Overlay.Reads.{effective_edge_data_precedence}
use ai_powered_respiratory_h.Routing.Policy.{
  VehicleType, ambulance, is_ambulance, RoutingPolicy, Words, deny_if, word_at, is_emergency_tag,
  check_tags, check_access, check_status, evaluate_edge_traversability,
}

module _ (p : RoutingPolicy) where
  check_status_blocked :
      (status : String) (rest : Bool × Option String)
      → status ≡ "BLOCKED"
      → p.allow_blocked_roads ≡ false
      → check_status p status rest ≡ (false, some "Road status is BLOCKED")
  check_status_blocked status rest e strict = rw (e, strict) refl

  -- A road that the overlay has blocked is refused to every vehicle by a policy that does not allow
  -- blocked roads, whatever the base data of the edge say, when `upper` leaves "BLOCKED" as it is.
  pub evaluate_edge_traversability_blocked :
      (words : Words) (vehicle : VehicleType) (base : Dict Value) (o : Overlay) (r : RoadOverride)
      → lookup (to_text (or_else (lookup "road_id" base) (string ""))) o.overrides ≡ some r
      → r.status ≡ blocked
      → p.allow_blocked_roads ≡ false
      → words.upper "BLOCKED" ≡ "BLOCKED"
      → evaluate_edge_traversability p words (get_effective_edge_data base o) vehicle
        ≡ (false, some "Road status is BLOCKED")
  unfolding evaluate_edge_traversability to_text
  evaluate_edge_traversability_blocked words vehicle base o r over shut strict capitals =
      let seen = ((effective_edge_data_precedence base o).1 r over).0 in
      check_status_blocked _ _
        (ap (λ v. words.upper (to_text (or_else v (string "OPEN")))) seen
          ∙ ap (λ s. words.upper (road_value s)) shut
          ∙ capitals)
        strict

-- What a policy lets through, read off the words of an edge.
abbrev pub IsPassable :
    RoutingPolicy → VehicleType → (status access tag emergency : String) → Type 0
IsPassable p vehicle status access tag emergency =
    (status ≡ "BLOCKED" → p.allow_blocked_roads ≡ true)
    × ((status ≡ "RESTRICTED" → p.allow_restricted_roads ≡ true)
        × ((status ≡ "UNKNOWN" → p.allow_unknown_roads ≡ true)
            × ((access ≢ "IMPASSABLE")
                × ((access ≡ "EMERGENCY_ONLY" → p.allow_emergency_only ≡ true)
                    × ((access ≡ "HIGH_CLEARANCE_ONLY" → vehicle ≢ ambulance)
                        × ((tag ≡ "no") ⊎ (tag ≡ "private")
                            → (p.allow_private_roads ≡ true)
                              ⊎ (((emergency ≡ "yes") ⊎ (emergency ≡ "designated"))
                                  ⊎ (emergency ≡ "only"))))))))

-- A refusal under a condition lets through what fails the condition and passes the rest.
deny_if_iff :
    {P Q : Type 0} (c : Bool) (reason : String) (rest : Bool × Option String)
    → (c ≡ false) ↔ P
    → (rest.0 ≡ true) ↔ Q
    → ((deny_if c reason rest).0 ≡ true) ↔ (P × Q)
deny_if_iff true reason rest (f, g) (h, k) = ((λ e. cc), (λ (x, y). cc (g x)))
deny_if_iff false reason rest (f, g) (h, k) = ((λ e. (f refl, h e)), (λ (x, y). k y))

and_iff :
    {P Q : Type 0} (b c : Bool) → (b ≡ true) ↔ P → (c ≡ false) ↔ Q → ((b && c) ≡ false) ↔ (P → Q)
and_iff true c (f, g) (h, k) = ((λ e x. h e), (λ m. k (m (f refl))))
and_iff false c (f, g) (h, k) = ((λ e x. cc (g x)), (λ m. refl))

or_iff : {P Q : Type 0} (b c : Bool) → (b ≡ true) ↔ P → (c ≡ true) ↔ Q → ((b || c) ≡ true) ↔ (P ⊎ Q)
or_iff true c (f, g) h = ((λ e. inl (f refl)), (λ m. refl))
or_iff false c (f, g) (h, k) = ((λ e. inr (h e)), (λ m. elim m [ inl x ↦ cc (g x) | inr y ↦ k y ]))

not_iff : {P : Type 0} (b : Bool) → (b ≡ true) ↔ P → (not b ≡ false) ↔ P
not_iff true (f, g) = ((λ e. f refl), (λ x. refl))
not_iff false (f, g) = ((λ e. cc), (λ x. cc (g x)))

nor_iff :
    {P Q : Type 0} (b c : Bool)
    → (b ≡ true) ↔ P
    → (c ≡ true) ↔ Q
    → ((not b && not c) ≡ false) ↔ (P ⊎ Q)
nor_iff true c (f, g) h = ((λ e. inl (f refl)), (λ m. refl))
nor_iff false c (f, g) (h, k) = (
  λ e. inr ((not_iff c (h, k)).0 e),
  λ m. elim m [ inl x ↦ cc (g x) | inr y ↦ (not_iff c (h, k)).1 y ],
)

other_iff : {P : Type 0} (b : Bool) → (b ≡ true) ↔ P → (b ≡ false) ↔ (P → ⊥)
other_iff true (f, g) = ((λ e. cc), (λ m. elim (m (f refl)) [ ]))
other_iff false (f, g) = ((λ e x. cc (g x)), (λ m. refl))

is_ambulance_iff : (v : VehicleType) → (is_ambulance v ≡ true) ↔ (v ≡ ambulance)
is_ambulance_iff v = ground arith

tags_iff :
    (p : RoutingPolicy) (tag emergency : String)
    → ((check_tags p tag emergency).0 ≡ true) ↔ (
        (tag ≡ "no") ⊎ (tag ≡ "private")
        → (p.allow_private_roads ≡ true)
          ⊎ (((emergency ≡ "yes") ⊎ (emergency ≡ "designated")) ⊎ (emergency ≡ "only")))
tags_iff p tag emergency =
    let same = string_eq.same_iff in
    let closed = or_iff _ _ (same tag "no") (same tag "private") in
    let exempt =
      or_iff _ _ (or_iff _ _ (same emergency "yes") (same emergency "designated"))
        (same emergency "only") in
    let open_to =
      nor_iff p.allow_private_roads (is_emergency_tag emergency) ((λ e. e), (λ e. e)) exempt in
    let step =
      deny_if_iff _ "Road access is private/no" (true, none) (and_iff _ _ closed open_to)
        ((λ e. tt {0}), (λ u. refl)) in
    ((λ e. (step.0 e).0), (λ h. step.1 (h, tt)))

three_denials :
    {P Q R S : Type 0} (a b c : Bool) (why_a why_b why_c : String) (rest : Bool × Option String)
    → (a ≡ false) ↔ P
    → (b ≡ false) ↔ Q
    → (c ≡ false) ↔ R
    → (rest.0 ≡ true) ↔ S
    → ((deny_if a why_a (deny_if b why_b (deny_if c why_c rest))).0 ≡ true) ↔ (P × (Q × (R × S)))
three_denials a b c why_a why_b why_c rest p q r s =
    let third = deny_if c why_c rest in
    deny_if_iff a why_a (deny_if b why_b third) p
      (deny_if_iff b why_b third q (deny_if_iff c why_c rest r s))

access_iff :
    (p : RoutingPolicy) (access : String) (v : VehicleType) (rest : Bool × Option String)
    {S : Type 0}
    → (rest.0 ≡ true) ↔ S
    → ((check_access p access v rest).0 ≡ true) ↔ (
        (access ≢ "IMPASSABLE")
        × ((access ≡ "EMERGENCY_ONLY" → p.allow_emergency_only ≡ true)
            × ((access ≡ "HIGH_CLEARANCE_ONLY" → v ≢ ambulance) × S)))
access_iff p access v rest h =
    let same = string_eq.same_iff in
    three_denials _ _ _ _ _ _ rest (other_iff _ (same access "IMPASSABLE"))
      (and_iff _ _ (same access "EMERGENCY_ONLY")
        (not_iff p.allow_emergency_only ((λ e. e), (λ e. e))))
      (and_iff _ _ (same access "HIGH_CLEARANCE_ONLY") (other_iff _ (is_ambulance_iff v))) h

status_iff :
    (p : RoutingPolicy) (status : String) (rest : Bool × Option String) {S : Type 0}
    → (rest.0 ≡ true) ↔ S
    → ((check_status p status rest).0 ≡ true) ↔ (
        (status ≡ "BLOCKED" → p.allow_blocked_roads ≡ true)
        × ((status ≡ "RESTRICTED" → p.allow_restricted_roads ≡ true)
            × ((status ≡ "UNKNOWN" → p.allow_unknown_roads ≡ true) × S)))
status_iff p status rest h =
    let same = string_eq.same_iff in
    let known = λ (word : String) (b : Bool).
      and_iff _ _ (same status word) (not_iff b ((λ e. e), (λ e. e))) in
    three_denials _ _ _ _ _ _ rest (known "BLOCKED" p.allow_blocked_roads)
      (known "RESTRICTED" p.allow_restricted_roads) (known "UNKNOWN" p.allow_unknown_roads) h

-- The policy lets a vehicle use an edge exactly when each of its checks allows it: the status, the
-- accessibility for that vehicle, and a private access tag, which an emergency tag overrules.
pub evaluate_edge_traversability_iff :
    (p : RoutingPolicy) (words : Words) (edge : Dict Value) (v : VehicleType)
    → ((evaluate_edge_traversability p words edge v).0 ≡ true)
      ↔ IsPassable p v
          (word_at words "status" "OPEN" edge)
          (word_at words "accessibility" "ALL_VEHICLES" edge)
          (words.tag edge "access")
          (words.tag edge "emergency")
unfolding evaluate_edge_traversability
evaluate_edge_traversability_iff p words edge v =
    let tags = check_tags p (words.tag edge "access") (words.tag edge "emergency") in
    let access = word_at words "accessibility" "ALL_VEHICLES" edge in
    status_iff p (word_at words "status" "OPEN" edge) (check_access p access v tags) (
      access_iff p access v tags
        (tags_iff p (words.tag edge "access") (words.tag edge "emergency")))
