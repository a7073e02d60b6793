-- ===== src/Tests/Routes.antt =====
-- The edge of a road that the overlay has blocked, and one without data.
use ai_powered_respiratory_h.Base.{true, false, ◌≡◌, refl, some, lookup, insert, to_text, inl, inr}
use ai_powered_respiratory_h.Overlay.{set_road_override, get_effective_edge_data}
use ai_powered_respiratory_h.Routing.Policy.{
  ambulance, default_policy, Words, evaluate_edge_traversability,
}
use ai_powered_respiratory_h.Routing.Passage.{
  evaluate_edge_traversability_blocked, evaluate_edge_traversability_iff,
}
use ai_powered_respiratory_h.Tests.Overlays.{flooded, one_blocked, edge}

-- Texts in capitals, and edges without tags.
abbrev words : Words
words = record { upper = λ s. s; tag = λ edge key. "" }

evaluate_edge_traversability_blocked_example :
    evaluate_edge_traversability default_policy words
      (get_effective_edge_data edge one_blocked)
      ambulance
    ≡ (false, some "Road status is BLOCKED")
unfolding set_road_override lookup insert to_text
evaluate_edge_traversability_blocked_example =
    evaluate_edge_traversability_blocked default_policy words ambulance edge one_blocked flooded
      refl refl refl refl

evaluate_edge_traversability_iff_example :
    (evaluate_edge_traversability default_policy words edge ambulance).0 ≡ true
unfolding lookup to_text
evaluate_edge_traversability_iff_example =
    (evaluate_edge_traversability_iff default_policy words edge ambulance).1 (
      λ e. cc,
      (
        λ e. refl,
        (λ e. refl, (λ e. cc, (λ e. refl, (λ e. cc, λ m. elim m [ inl x ↦ cc x | inr y ↦ cc y ])))),
      ),
    )
