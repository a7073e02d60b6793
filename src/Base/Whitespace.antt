-- ===== src/Base/Whitespace.antt =====
-- `len(s.strip())`, `s.strip()` and `s.split()`.
use Prim.Native.Nat.{ℕ, suc}
use Prim.Native.Char.{Char, code}
use Prim.Native.String.{String}
use mathlib.Core.Bool.{Bool, ◌&&◌, ◌||◌}
use mathlib.Core.List.{List, [], ◌∷◌}
use ai_powered_respiratory_h.Base.Text.{is_empty}
use ai_powered_respiratory_h.Base.Tests.{leb, nat_beq, if◌then◌else◌}

-- `str.isspace` of one character
abbrev pub is_space : Char → Bool
is_space c =
    leb 9 (code c) && leb (code c) 13
    || leb 28 (code c) && leb (code c) 32
    || leb 8192 (code c) && leb (code c) 8202
    || nat_beq (code c) 133
    || nat_beq (code c) 160
    || nat_beq (code c) 5760
    || nat_beq (code c) 8232
    || nat_beq (code c) 8233
    || nat_beq (code c) 8239
    || nat_beq (code c) 8287
    || nat_beq (code c) 12288

strip_left : String → String
strip_left String.[] = ""
strip_left (String.◌∷◌ c s) = if is_space c then strip_left s else String.◌∷◌ c s

-- The number of characters up to the last one that is no space.
core_length : String → ℕ
core_length String.[] = 0
core_length (String.◌∷◌ c s) =
    let rest = core_length s in if nat_beq rest 0 && is_space c then 0 else suc rest

unfoldable pub stripped_length : String → ℕ
unfolding strip_left core_length
stripped_length s = core_length (strip_left s)

strip_right : String → String
strip_right String.[] = ""
strip_right (String.◌∷◌ c s) =
    let rest = strip_right s in if is_empty rest && is_space c then "" else String.◌∷◌ c rest

unfoldable pub strip : String → String
unfolding strip_left strip_right
strip s = strip_left (strip_right s)

abbrev with_word : String → List String → List String
with_word word words = if is_empty word then words else word ∷ words

-- The word that the text begins with, which may be empty, and the words after it.
words_of : String → String × List String
words_of String.[] = ("", [])
words_of (String.◌∷◌ c s) =
    let (word, words) = words_of s in
    if is_space c then ("", with_word word words) else (String.◌∷◌ c word, words)

unfoldable pub split : String → List String
unfolding words_of
split s = let (word, words) = words_of s in with_word word words

-- `len(s)`
unfoldable pub char_count : String → ℕ
char_count String.[] = 0
char_count (String.◌∷◌ c s) = suc (char_count s)
