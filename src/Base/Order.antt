-- ===== src/Base/Order.antt =====
-- Python's comparison of texts, and `xs.sort(key=key, reverse=reverse)`, which is stable both ways.
use Prim.Native.Nat.{ℕ, zero, suc, ◌-◌, min}
use Prim.Native.Char.{code}
use Prim.Native.String.{String}
use mathlib.Core.Path.{◌≡◌, refl}
use mathlib.Core.Logic.{inl, inr}
use mathlib.Core.Bool.{Bool, true, false, ◌&&◌, ◌||◌}
use mathlib.Core.List.{List, [], ◌∷◌}
use native.Mathlib.Omega.{arith}
use ai_powered_respiratory_h.Base.Tests.{ltb, nat_beq, if◌then◌else◌, Bool-cases}
use ai_powered_respiratory_h.Base.Lists.{All, length, take, drop, filter}

-- `s <= t`
unfoldable pub text_leb : String → String → Bool
text_leb String.[] t = true
text_leb (String.◌∷◌ c s) String.[] = false
text_leb (String.◌∷◌ c s) (String.◌∷◌ d t) =
    let rest = text_leb s t in if nat_beq (code c) (code d) then rest else ltb (code c) (code d)

pub text_leb-total : (s t : String) → text_leb s t ≡ false → text_leb t s ≡ true
unfolding text_leb
text_leb-total String.[] t h = cc
text_leb-total (String.◌∷◌ c s) String.[] h = refl
text_leb-total (String.◌∷◌ c s) (String.◌∷◌ d t) h = ground (arith, text_leb-total s t)

-- `(m, s) <= (n, t)`
abbrev pub pair_leb : ℕ → String → ℕ → String → Bool
pair_leb m s n t = ltb m n || (nat_beq m n && text_leb s t)

pub pair_leb-total :
    (m : ℕ) (s : String) (n : ℕ) (t : String) → pair_leb m s n t ≡ false → pair_leb n t m s ≡ true
pair_leb-total m s n t h = ground (arith, text_leb-total s t)

module _ {A : Type 0} (before : A → A → Bool) where
  abbrev pub insert_before : A → List A → List A
  insert_before x [] = x ∷ []
  insert_before x (y ∷ ys) = if before x y then x ∷ y ∷ ys else y ∷ insert_before x ys

  unfoldable pub arrange : List A → List A
  arrange [] = []
  arrange (x ∷ xs) = insert_before x (arrange xs)

  abbrev pub Leads : A → List A → Type 0
  Leads x [] = Unit
  Leads x (y ∷ ys) = before x y ≡ true

  -- Each entry may stand before the next.
  abbrev pub IsArranged : List A → Type 0
  IsArranged [] = Unit
  IsArranged (x ∷ xs) = Leads x xs × IsArranged xs

  length-insert_before : (x : A) (xs : List A) → length (insert_before x xs) ≡ suc (length xs)
  length-insert_before x [] = refl
  length-insert_before x (y ∷ ys) = ground (arith, length-insert_before x ys)

  pub length-arrange : (xs : List A) → length (arrange xs) ≡ length xs
  unfolding arrange
  length-arrange [] = refl
  length-arrange (x ∷ xs) = omega (arith, length-insert_before x (arrange xs), length-arrange xs)

  All-insert_before :
      (P : A → Type 0) (x : A) (xs : List A) → P x → All P xs → All P (insert_before x xs)
  All-insert_before P x [] p h = (p, tt)
  All-insert_before P x (y ∷ ys) p h = elim (Bool-cases (before x y)) [
    | inl here ↦ rw here (p, h)
    | inr there ↦ rw there (h.0, All-insert_before P x ys p h.1)
  ]

  pub All-arrange : (P : A → Type 0) (xs : List A) → All P xs → All P (arrange xs)
  unfolding arrange
  All-arrange P [] h = tt
  All-arrange P (x ∷ xs) h = All-insert_before P x (arrange xs) h.0 (All-arrange P xs h.1)

  Leads-insert_before :
      (x y : A) (ys : List A) → before y x ≡ true → Leads y ys → Leads y (insert_before x ys)
  Leads-insert_before x y [] first h = first
  Leads-insert_before x y (z ∷ zs) first h = elim (Bool-cases (before x z)) [
    | inl here ↦ rw here first
    | inr there ↦ rw there h
  ]

  insert_before-IsArranged :
      ((x y : A) → before x y ≡ false → before y x ≡ true)
      → (x : A) (xs : List A) → IsArranged xs
      → IsArranged (insert_before x xs)
  insert_before-IsArranged total x [] h = (tt, tt)
  insert_before-IsArranged total x (y ∷ ys) h = elim (Bool-cases (before x y)) [
    | inl here ↦ rw here (here, h)
    | inr there ↦
        rw there (
          Leads-insert_before x y ys (total x y there) h.0,
          insert_before-IsArranged total x ys h.1,
        )
  ]

  pub arrange-IsArranged :
      ((x y : A) → before x y ≡ false → before y x ≡ true) → (xs : List A) → IsArranged (arrange xs)
  unfolding arrange
  arrange-IsArranged total [] = tt
  arrange-IsArranged total (x ∷ xs) =
      insert_before-IsArranged total x (arrange xs) (arrange-IsArranged total xs)

  pub drop-IsArranged : (n : ℕ) (xs : List A) → IsArranged xs → IsArranged (drop n xs)
  drop-IsArranged zero xs h = h
  drop-IsArranged (suc n) [] h = tt
  drop-IsArranged (suc n) (x ∷ xs) h = drop-IsArranged n xs h.1

  Leads-take : (n : ℕ) (x : A) (xs : List A) → Leads x xs → Leads x (take n xs)
  Leads-take zero x xs h = tt
  Leads-take (suc n) x [] h = tt
  Leads-take (suc n) x (y ∷ ys) h = h

  pub take-IsArranged : (n : ℕ) (xs : List A) → IsArranged xs → IsArranged (take n xs)
  take-IsArranged zero xs h = tt
  take-IsArranged (suc n) [] h = tt
  take-IsArranged (suc n) (x ∷ xs) h = (Leads-take n x xs h.0, take-IsArranged n xs h.1)

module _ {A : Type 0} where
  pub All-filter : (keep : A → Bool) (xs : List A) → All (λ x. keep x ≡ true) (filter keep xs)
  All-filter keep [] = tt
  All-filter keep (x ∷ xs) = elim (Bool-cases (keep x)) [
    | inl kept ↦ rw kept (kept, All-filter keep xs)
    | inr left_out ↦ rw left_out (All-filter keep xs)
  ]

  pub All-drop : (P : A → Type 0) (n : ℕ) (xs : List A) → All P xs → All P (drop n xs)
  All-drop P zero xs h = h
  All-drop P (suc n) [] h = tt
  All-drop P (suc n) (x ∷ xs) h = All-drop P n xs h.1

  pub All-take : (P : A → Type 0) (n : ℕ) (xs : List A) → All P xs → All P (take n xs)
  All-take P zero xs h = tt
  All-take P (suc n) [] h = tt
  All-take P (suc n) (x ∷ xs) h = (h.0, All-take P n xs h.1)

  length-drop : (n : ℕ) (xs : List A) → length (drop n xs) ≡ length xs - n
  length-drop zero xs = omega arith
  length-drop (suc n) [] = omega arith
  length-drop (suc n) (x ∷ xs) = omega (arith, length-drop n xs)

  length_of_take : (n : ℕ) (xs : List A) → length (take n xs) ≡ min n (length xs)
  length_of_take zero xs = omega arith
  length_of_take (suc n) [] = omega arith
  length_of_take (suc n) (x ∷ xs) = omega (arith, length_of_take n xs)

  -- The length of the slice `xs[m : m + n]`.
  pub length_of_slice :
      (n m : ℕ) (xs : List A) → length (take n (drop m xs)) ≡ min n (length xs - m)
  length_of_slice n m xs = omega (arith, length_of_take n (drop m xs), length-drop m xs)
