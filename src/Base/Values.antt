-- ===== src/Base/Values.antt =====
-- The values of a Python `Dict[str, Any]`, and truth tests on optional texts.
use Prim.Native.Nat.{ℕ}
use Prim.Native.String.{String}
use mathlib.Core.Bool.{Bool}
use mathlib.Core.Option.{Option, none, some}
use ai_powered_respiratory_h.Base.Tests.{if◌then◌else◌}
use ai_powered_respiratory_h.Base.Text.{decimal, is_empty}

-- A nested document (a GeoJSON geometry, say) is carried as its canonical JSON text.
pub data Value : Type 0 where
  null : Value
  number : ℕ → Value
  flag : Bool → Value
  string : String → Value
  document : String → Value

-- `str(value)`
unfoldable pub to_text : Value → String
to_text null = "None"
to_text (number n) = decimal n
to_text (flag b) = if b then "True" else "False"
to_text (string s) = s
to_text (document s) = s

-- An optional text that is `None` or empty is false in a test.
abbrev pub truthy : Option String → Option String
truthy none = none
truthy (some s) = if is_empty s then none else some s
