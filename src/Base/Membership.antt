-- ===== src/Base/Membership.antt =====
-- Membership of a list, through what the program does with lists.
use Prim.Native.Nat.{ℕ, zero, suc, ◌≤◌}
use mathlib.Core.Path.{◌≡◌, refl, sym, ap, ◌∙◌}
use mathlib.Core.Logic.{◌⊎◌, inl, inr}
use mathlib.Core.Bool.{Bool, true}
use mathlib.Core.List.{List, [], ◌∷◌, ◌++◌}
use native.Mathlib.Omega.{arith}
use ai_powered_respiratory_h.Base.Tests.{leb, Bool-cases}
use ai_powered_respiratory_h.Base.Lists.{All, length, take, filter}
use ai_powered_respiratory_h.Base.Sorting.{place, newest_first}
use ai_powered_respiratory_h.Base.Order.{insert_before, arrange}

module _ {A : Type 0} where
  abbrev pub Has : A → List A → Type 0
  Has x [] = ⊥
  Has x (y ∷ ys) = (x ≡ y) ⊎ Has x ys

  pub Has-append_last : (xs : List A) (x : A) → Has x (xs ++ x ∷ [])
  Has-append_last [] x = inl refl
  Has-append_last (y ∷ ys) x = inr (Has-append_last ys x)

  pub Has-take : (x : A) (n : ℕ) (xs : List A) → length xs ≤ n → Has x xs → Has x (take n xs)
  Has-take x n [] few h = absurd h
  Has-take x zero (y ∷ ys) few h = absurd (omega (arith, few))
  Has-take x (suc n) (y ∷ ys) few (inl here) = inl here
  Has-take x (suc n) (y ∷ ys) few (inr there) = inr (Has-take x n ys (omega (arith, few)) there)

  pub Has-filter :
      (keep : A → Bool) (x : A) (xs : List A) → keep x ≡ true → Has x xs → Has x (filter keep xs)
  Has-filter keep x (y ∷ ys) kept (inl here) = rw (sym (ap keep here) ∙ kept) (inl here)
  Has-filter keep x (y ∷ ys) kept (inr there) = elim (Bool-cases (keep y)) [
    | inl taken ↦ rw taken (inr (Has-filter keep x ys kept there))
    | inr left ↦ rw left (Has-filter keep x ys kept there)
  ]
  Has-filter keep x [] kept h = absurd h

  -- Every entry is one of the list's own.
  pub All-Has : (xs : List A) → All (λ x. Has x xs) xs
  All-Has [] = tt
  All-Has (x ∷ xs) = (inl refl, All-later x xs xs (All-Has xs))
    where
      All-later : (x : A) (xs ys : List A) → All (λ y. Has y xs) ys → All (λ y. Has y (x ∷ xs)) ys
      All-later x xs [] h = tt
      All-later x xs (y ∷ ys) h = (inr h.0, All-later x xs ys h.1)

  pub All-filter_of :
      (P : A → Type 0) (keep : A → Bool) (xs : List A) → All P xs → All P (filter keep xs)
  All-filter_of P keep [] h = tt
  All-filter_of P keep (x ∷ xs) h = elim (Bool-cases (keep x)) [
    | inl taken ↦ rw taken (h.0, All-filter_of P keep xs h.1)
    | inr left ↦ rw left (All-filter_of P keep xs h.1)
  ]

  pub All-map : (P Q : A → Type 0) (xs : List A) → ((x : A) → P x → Q x) → All P xs → All Q xs
  All-map P Q [] f h = tt
  All-map P Q (x ∷ xs) f h = (f x h.0, All-map P Q xs f h.1)

module _ {A : Type 0} (key : A → ℕ) where
  length-place : (x : A) (xs : List A) → length (place key x xs) ≡ suc (length xs)
  length-place x [] = refl
  length-place x (y ∷ ys) = ground (arith, length-place x ys)

  pub length-newest_first : (xs : List A) → length (newest_first key xs) ≡ length xs
  unfolding newest_first
  length-newest_first [] = refl
  length-newest_first (x ∷ xs) =
      omega (arith, length-place x (newest_first key xs), length-newest_first xs)

  Has-place : (x y : A) (xs : List A) → (x ≡ y) ⊎ Has x xs → Has x (place key y xs)
  Has-place x y [] h = h
  Has-place x y (z ∷ zs) h = elim (Bool-cases (leb (key z) (key y))) [
    | inl here ↦ rw here h
    | inr there ↦ rw there (elim h [
      | inl first ↦ inr (Has-place x y zs (inl first))
      | inr (inl second) ↦ inl second
      | inr (inr third) ↦ inr (Has-place x y zs (inr third))
    ])
  ]

  pub Has-newest_first : (x : A) (xs : List A) → Has x xs → Has x (newest_first key xs)
  unfolding newest_first
  Has-newest_first x [] h = h
  Has-newest_first x (y ∷ ys) (inl here) = Has-place x y _ (inl here)
  Has-newest_first x (y ∷ ys) (inr there) = Has-place x y _ (inr (Has-newest_first x ys there))

module _ {A : Type 0} (before : A → A → Bool) where
  Has-insert_before :
      (x y : A) (xs : List A) → (x ≡ y) ⊎ Has x xs → Has x (insert_before before y xs)
  Has-insert_before x y [] h = h
  Has-insert_before x y (z ∷ zs) h = elim (Bool-cases (before y z)) [
    | inl here ↦ rw here h
    | inr there ↦ rw there (elim h [
      | inl first ↦ inr (Has-insert_before x y zs (inl first))
      | inr (inl second) ↦ inl second
      | inr (inr third) ↦ inr (Has-insert_before x y zs (inr third))
    ])
  ]

  pub Has-arrange : (x : A) (xs : List A) → Has x xs → Has x (arrange before xs)
  unfolding arrange
  Has-arrange x [] h = h
  Has-arrange x (y ∷ ys) (inl here) = Has-insert_before x y _ (inl here)
  Has-arrange x (y ∷ ys) (inr there) = Has-insert_before x y _ (inr (Has-arrange x ys there))
