-- ===== src/Base/Sorting.antt =====
-- `sorted(xs, key=key, reverse=True)`: a stable insertion sort, the largest key first.
use Prim.Native.Nat.{ℕ, ◌≤◌}
use mathlib.Core.Logic.{inl, inr}
use mathlib.Core.List.{List, [], ◌∷◌}
use native.Mathlib.Omega.{arith}
use ai_powered_respiratory_h.Base.Tests.{leb, if◌then◌else◌, Bool-cases}
use ai_powered_respiratory_h.Base.Lists.{All}

module _ {A : Type 0} (key : A → ℕ) where
  abbrev pub place : A → List A → List A
  place x [] = x ∷ []
  place x (y ∷ ys) = if leb (key y) (key x) then x ∷ y ∷ ys else y ∷ place x ys

  unfoldable pub newest_first : List A → List A
  newest_first [] = []
  newest_first (x ∷ xs) = place x (newest_first xs)

  abbrev pub IsDescending : List A → Type 0
  IsDescending [] = Unit
  IsDescending (x ∷ xs) = All (λ y. key y ≤ key x) xs × IsDescending xs

  All-place : (P : A → Type 0) (x : A) (xs : List A) → P x → All P xs → All P (place x xs)
  All-place P x [] p h = (p, tt)
  All-place P x (y ∷ ys) p h = elim (Bool-cases (leb (key y) (key x))) [
    | inl here ↦ rw here (p, h)
    | inr there ↦ rw there (h.0, All-place P x ys p h.1)
  ]

  All-weaken : (b c : ℕ) (xs : List A) → b ≤ c → All (λ y. key y ≤ b) xs → All (λ y. key y ≤ c) xs
  All-weaken b c [] h all = tt
  All-weaken b c (x ∷ xs) h all = (omega (arith, all.0), All-weaken b c xs h all.1)

  place-IsDescending : (x : A) (xs : List A) → IsDescending xs → IsDescending (place x xs)
  place-IsDescending x [] h = (tt, tt)
  place-IsDescending x (y ∷ ys) h = elim (Bool-cases (leb (key y) (key x))) [
    | inl here ↦ rw here ((ground arith, All-weaken (key y) (key x) ys (ground arith) h.0), h)
    | inr there ↦
        rw there
          (All-place (λ z. key z ≤ key y) x ys (ground arith) h.0, place-IsDescending x ys h.1)
  ]

  pub newest_first-IsDescending : (xs : List A) → IsDescending (newest_first xs)
  unfolding newest_first
  newest_first-IsDescending [] = tt
  newest_first-IsDescending (x ∷ xs) = place-IsDescending x _ (newest_first-IsDescending xs)

  pub All-newest_first : (P : A → Type 0) (xs : List A) → All P xs → All P (newest_first xs)
  unfolding newest_first
  All-newest_first P [] h = tt
  All-newest_first P (x ∷ xs) h = All-place P x _ h.0 (All-newest_first P xs h.1)
