-- ===== src/Base/Mapping.antt =====
-- A Python `dict` keyed by texts, in insertion order: a write to a key that is there stays in its
-- place, and a write to a new key goes to the end.
use Prim.Native.String.{String}
use mathlib.Core.Path.{◌≡◌, refl, subst}
use mathlib.Core.Bool.{Bool, true}
use mathlib.Core.Logic.{inl, inr}
use mathlib.Core.List.{List, [], ◌∷◌, map}
use mathlib.Core.Option.{Option, none, some}
use native.Mathlib.Omega.{arith}
use text.Mathlib.TextEquality.{eq_iff}
use text.Mathlib.TextPositions.{eq_refl}
use ai_powered_respiratory_h.Base.Tests.{◌==◌, string_eq, if◌then◌else◌, is_some, Bool-cases}

-- A dictionary is the list of its entries.
abbrev pub Dict {ℓ} : (Value : Type ℓ) → Type ℓ
Dict Value = List (String × Value)

module _ {ℓ} {V : Type ℓ} where
  -- `d.get(k)`
  unfoldable pub lookup : String → Dict V → Option V
  lookup wanted [] = none
  lookup wanted ((key, value) ∷ rest) = if key == wanted then some value else lookup wanted rest

  -- `d[k] = v`
  unfoldable pub insert : String → V → Dict V → Dict V
  insert key value [] = (key, value) ∷ []
  insert key value ((other, old) ∷ rest) =
      if other == key then (other, value) ∷ rest else (other, old) ∷ insert key value rest

  -- `del d[k]`
  unfoldable pub erase : String → Dict V → Dict V
  erase k [] = []
  erase k ((j, w) ∷ d) = if j == k then d else (j, w) ∷ erase k d

  -- `k in d`
  abbrev pub contains : String → Dict V → Bool
  contains k d = is_some (lookup k d)

  -- `d.values()`
  abbrev pub values : Dict V → List V
  values d = map (λ e. e.1) d

  pub lookup-insert :
      (k j : String) (v : V) (d : Dict V)
      → lookup j (insert k v d) ≡ (if k == j then some v else lookup j d)
  unfolding lookup insert
  lookup-insert k j v [] = refl
  lookup-insert k j v ((i, w) ∷ d) =
      ground (arith, eq_iff k j, eq_iff i k, eq_iff i j, lookup-insert k j v d)

  pub lookup-insert_self :
      (key : String) (value : V) (d : Dict V) → lookup key (insert key value d) ≡ some value
  lookup-insert_self key value d = simp (lookup-insert, eq_refl)

  -- A key that is there stays there when another is written.
  pub contains-insert :
      (k j : String) (v : V) (d : Dict V) → contains j d ≡ true → contains j (insert k v d) ≡ true
  contains-insert k j v d h = ground (arith, lookup-insert k j v d)

  pub contains-insert_self : (k : String) (v : V) (d : Dict V) → contains k (insert k v d) ≡ true
  contains-insert_self k v d = rw lookup-insert_self

  abbrev pub Every {κ} : (V → Type κ) → Dict V → Type κ
  Every P [] = Unit
  Every P ((k, v) ∷ d) = P v × Every P d

  pub Every-insert {κ} :
      (P : V → Type κ) (k : String) (v : V) (d : Dict V) → P v → Every P d → Every P (insert k v d)
  unfolding insert
  Every-insert P k v [] p h = (p, tt)
  Every-insert P k v ((j, w) ∷ d) p h = ground (arith, Every-insert P k v d p)

  pub Every-lookup {κ} :
      (P : V → Type κ) (k : String) (v : V) (d : Dict V) → Every P d → lookup k d ≡ some v → P v
  unfolding lookup
  Every-lookup P k v [] h e = cc
  Every-lookup P k v ((j, w) ∷ d) h e = elim (Bool-cases (j == k)) [
    | inl here ↦ subst P (cc (rw here at e)) h.0
    | inr there ↦ Every-lookup P k v d h.1 (rw there at e)
  ]
