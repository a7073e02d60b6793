-- ===== src/Base/Text.antt =====
-- Texts that the program builds: decimal numbers in f-strings, and `str.replace`.
use Prim.Native.Nat.{ℕ, zero, suc, ◌+◌, ◌-◌, ◌*◌, ◌/◌, ◌%◌, ◌<◌}
use Prim.Native.Char.{code}
use Prim.Native.String.{String, ◌++◌}
use mathlib.Core.Path.{◌≡◌, ap, sym, ◌∙◌}
use mathlib.Core.Bool.{Bool, true, false}
use mathlib.Core.Logic.{inl, inr}
use native.Mathlib.Omega.{arith}
use text.Mathlib.Text.{starts_with}
use text.Mathlib.TextLemmas.{append_cancel_left, nil-append, cons-append}
use ai_powered_respiratory_h.Base.Tests.{ltb, if◌then◌else◌, Bool-cases}

abbrev digit : ℕ → String
digit zero = "0"
digit (suc zero) = "1"
digit (suc (suc zero)) = "2"
digit (suc (suc (suc zero))) = "3"
digit (suc (suc (suc (suc zero)))) = "4"
digit (suc (suc (suc (suc (suc zero))))) = "5"
digit (suc (suc (suc (suc (suc (suc zero)))))) = "6"
digit (suc (suc (suc (suc (suc (suc (suc zero))))))) = "7"
digit (suc (suc (suc (suc (suc (suc (suc (suc zero)))))))) = "8"
digit _ = "9"

digits_from : ℕ → ℕ → String
digits_from zero n = "0"
digits_from (suc fuel) n =
    let front = digits_from fuel (n / 10) in if ltb n 10 then digit n else front ++ digit (n % 10)

-- `str(n)` of an integer that is not negative. The fuel exceeds the number of digits.
unfoldable pub decimal : ℕ → String
unfolding digits_from
decimal n = digits_from (suc n) n

abbrev value_from : ℕ → String → ℕ
value_from acc String.[] = acc
value_from acc (String.◌∷◌ c s) = value_from (acc * 10 + (code c - 48)) s

value_from-append :
    (acc : ℕ) (s t : String) → value_from acc (s ++ t) ≡ value_from (value_from acc s) t
value_from-append acc String.[] t = rw nil-append
value_from-append acc (String.◌∷◌ c s) t =
    rw cons-append (value_from-append (acc * 10 + (code c - 48)) s t)

value_from-digit : (acc d : ℕ) → d < 10 → value_from acc (digit d) ≡ acc * 10 + d
value_from-digit acc zero h = omega arith
value_from-digit acc (suc zero) h = omega arith
value_from-digit acc (suc (suc zero)) h = omega arith
value_from-digit acc (suc (suc (suc zero))) h = omega arith
value_from-digit acc (suc (suc (suc (suc zero)))) h = omega arith
value_from-digit acc (suc (suc (suc (suc (suc zero))))) h = omega arith
value_from-digit acc (suc (suc (suc (suc (suc (suc zero)))))) h = omega arith
value_from-digit acc (suc (suc (suc (suc (suc (suc (suc zero))))))) h = omega arith
value_from-digit acc (suc (suc (suc (suc (suc (suc (suc (suc zero)))))))) h = omega arith
value_from-digit acc (suc (suc (suc (suc (suc (suc (suc (suc (suc zero))))))))) h = omega arith
value_from-digit acc (suc (suc (suc (suc (suc (suc (suc (suc (suc (suc d)))))))))) h =
    absurd (omega arith)

value_from-digits : (fuel n : ℕ) → n < fuel → value_from 0 (digits_from fuel n) ≡ n
unfolding digits_from
value_from-digits zero n h = absurd (omega arith)
value_from-digits (suc fuel) n h = elim (Bool-cases (ltb n 10)) [
  | inl small ↦ rw small (value_from-digit 0 n (ground arith) ∙ omega arith)
  | inr large ↦
      rw (large, value_from-append, value_from-digits fuel (n / 10) (ground arith))
        (value_from-digit (n / 10) (n % 10) (omega arith) ∙ omega arith)
]

pub decimal-injective : (a b : ℕ) → decimal a ≡ decimal b → a ≡ b
unfolding decimal
decimal-injective a b h =
    sym (value_from-digits (suc a) a (omega arith))
    ∙ (ap (value_from 0) h ∙ value_from-digits (suc b) b (omega arith))

pub append_inj_left : (s t u : String) → s ++ t ≡ s ++ u → t ≡ u
append_inj_left s t u h = append_cancel_left s t u h

-- `not s`
abbrev pub is_empty : String → Bool
is_empty String.[] = true
is_empty (String.◌∷◌ c s) = false

-- `s.replace(old, new)` for an `old` of `suc k` characters, scanning from the left; the first
-- argument counts the characters of a match that are still to be passed over.
module _ (k : ℕ) (old new : String) where
  replace_from : ℕ → String → String
  replace_from skip String.[] = ""
  replace_from (suc skip) (String.◌∷◌ c s) = replace_from skip s
  replace_from zero (String.◌∷◌ c s) =
      let kept = String.◌∷◌ c (replace_from zero s) in
      let replaced = new ++ replace_from k s in
      if starts_with (String.◌∷◌ c s) old then replaced else kept

unfoldable pub replace_all : ℕ → String → String → String → String
unfolding replace_from
replace_all k old new s = replace_from k old new zero s
