-- ===== src/Facilities/Ordering.antt =====
-- services/api/app/repositories/facility_service.py: the order of a list, by the sort key.
use ai_powered_respiratory_h.Base.{
  not_same, ℕ, ◌<◌, String, Bool, true, false, ◌||◌, ◌≡◌, ◌≢◌, ◌⊎◌, inl, inr, arith, List, [], ◌∷◌,
  Bool-cases, ◌==◌, string_eq, nat_eq, bool_eq,
}
use ai_powered_respiratory_h.Base.Order.{
  text_leb, text_leb-total, pair_leb, pair_leb-total, IsArranged,
}
use ai_powered_respiratory_h.Facilities.Records.{FacilityRecord}
use ai_powered_respiratory_h.Facilities.Listing.{ordered, precedes}

-- The smaller number first, and by name among equals.
abbrev pub IsBefore : ℕ → String → ℕ → String → Type 0
IsBefore m s n t = (m < n) ⊎ ((m ≡ n) × (text_leb s t ≡ true))

-- The order of the sort key: by room, by time, or by name for any other key.
abbrev pub InOrder : String → FacilityRecord → FacilityRecord → Type 0
InOrder sort_by a b =
    (sort_by ≡ "available_capacity"
      → IsBefore a.available_capacity a.name b.available_capacity b.name)
    × ((sort_by ≡ "updated_at") ⊎ (sort_by ≡ "last_updated")
        → IsBefore a.last_updated a.name b.last_updated b.name)
    × (sort_by ≢ "available_capacity"
        → sort_by ≢ "updated_at"
        → sort_by ≢ "last_updated"
        → text_leb a.name b.name ≡ true)

abbrev pub InDirection : String → Bool → FacilityRecord → FacilityRecord → Type 0
InDirection sort_by false a b = InOrder sort_by a b
InDirection sort_by true a b = InOrder sort_by b a

-- Each entry and the next.
abbrev pub Adjacent : (FacilityRecord → FacilityRecord → Type 0) → List FacilityRecord → Type 0
Adjacent R [] = Unit
Adjacent R (x ∷ []) = Unit
Adjacent R (x ∷ y ∷ rest) = R x y × Adjacent R (y ∷ rest)

IsBefore-pair :
    (m : ℕ) (s : String) (n : ℕ) (t : String) → pair_leb m s n t ≡ true → IsBefore m s n t
IsBefore-pair m s n t h = ground (arith, text_leb)

ordered-InOrder :
    (sort_by : String) (a b : FacilityRecord) → ordered sort_by a b ≡ true → InOrder sort_by a b
ordered-InOrder sort_by a b h = (
  λ room. IsBefore-pair _ _ _ _ (rw room at h),
  λ time. elim time [
    | inl updated ↦ IsBefore-pair _ _ _ _ (rw updated at h)
    | inr last ↦ IsBefore-pair _ _ _ _ (rw last at h)
  ],
  λ room updated last.
      rw
        (
          not_same sort_by "available_capacity" room,
          not_same sort_by "updated_at" updated,
          not_same sort_by "last_updated" last,
        )
        at h,
)

pub precedes-InDirection :
    (sort_by : String) (sort_desc : Bool) (a b : FacilityRecord)
    → precedes sort_by sort_desc a b ≡ true
    → InDirection sort_by sort_desc a b
precedes-InDirection sort_by false a b h = ordered-InOrder sort_by a b h
precedes-InDirection sort_by true a b h = ordered-InOrder sort_by b a h

pub IsArranged-Adjacent :
    (before : FacilityRecord → FacilityRecord → Bool) (R : FacilityRecord → FacilityRecord → Type 0)
    (xs : List FacilityRecord)
    → ((a b : FacilityRecord) → before a b ≡ true → R a b)
    → IsArranged before xs
    → Adjacent R xs
IsArranged-Adjacent before R [] means h = tt
IsArranged-Adjacent before R (x ∷ []) means h = tt
IsArranged-Adjacent before R (x ∷ y ∷ rest) means h =
    (means x y h.0, IsArranged-Adjacent before R (y ∷ rest) means h.1)

ordered-total :
    (sort_by : String) (a b : FacilityRecord)
    → ordered sort_by a b ≡ false
    → ordered sort_by b a ≡ true
ordered-total sort_by a b h = elim (Bool-cases (sort_by == "available_capacity")) [
  | inl room ↦
      rw room
        (pair_leb-total a.available_capacity a.name b.available_capacity b.name (rw room at h))
  | inr other ↦ elim (Bool-cases ((sort_by == "updated_at") || (sort_by == "last_updated"))) [
    | inl time ↦
        rw (other, time)
          (pair_leb-total a.last_updated a.name b.last_updated b.name (rw (other, time) at h))
    | inr name ↦ rw (other, name) (text_leb-total a.name b.name (rw (other, name) at h))
  ]
]

pub precedes-total :
    (sort_by : String) (sort_desc : Bool) (a b : FacilityRecord)
    → precedes sort_by sort_desc a b ≡ false
    → precedes sort_by sort_desc b a ≡ true
precedes-total sort_by false a b h = ordered-total sort_by a b h
precedes-total sort_by true a b h = ordered-total sort_by b a h
