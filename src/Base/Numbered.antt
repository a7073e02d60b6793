-- ===== src/Base/Numbered.antt =====
-- Logs whose entries carry consecutive version numbers.
use Prim.Native.Nat.{ℕ, suc, ◌+◌}
use mathlib.Core.Path.{◌≡◌}
use mathlib.Core.List.{List, [], ◌∷◌, ◌++◌}
use mathlib.Core.Option.{Option, some}
use native.Mathlib.Omega.{arith}
use ai_powered_respiratory_h.Base.Lists.{length}

module _ {E : Type 0} (stamp : E → Option ℕ) where
  -- The entries are stamped `first + 1`, `first + 2`, …, and the last stamp is `last`.
  abbrev pub IsNumbered : ℕ → List E → ℕ → Type 0
  IsNumbered first [] last = first ≡ last
  IsNumbered first (e ∷ es) last = (stamp e ≡ some (suc first)) × IsNumbered (suc first) es last

  pub IsNumbered-snoc :
      (first last : ℕ) (es : List E) (e : E)
      → IsNumbered first es last
      → stamp e ≡ some (last + 1)
      → IsNumbered first (es ++ e ∷ []) (last + 1)
  IsNumbered-snoc first last [] e h s = ground arith
  IsNumbered-snoc first last (x ∷ es) e h s = (h.0, IsNumbered-snoc (suc first) last es e h.1 s)

  pub length_of_IsNumbered :
      (first last : ℕ) (es : List E) → IsNumbered first es last → first + length es ≡ last
  length_of_IsNumbered first last [] h = omega arith
  length_of_IsNumbered first last (x ∷ es) h =
      omega (arith, length_of_IsNumbered (suc first) last es h.1)
