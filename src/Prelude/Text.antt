-- ===== src/Prelude/Text.antt =====
-- The operations of Python's `str` that the program uses.
use Prim.Native.Nat.{ℕ, ◌+◌}
use Prim.Native.Char.{code}
use Prim.Native.String.{String, [], ◌++◌}
use mathlib.Core.Path.{◌≡◌, refl}
use text.Mathlib.TextLemmas.{cons-append}
use mathlib.Core.Bool.{Bool, true, false, ◌&&◌}
use mathlib.Core.List.{List}
use mathlib.Core.Option.{Option, none, some}
use agents_reality_layer.Prelude.Tests.{leb, if◌then◌else◌}
use agents_reality_layer.Prelude.Equality.{nat_beq}
use agents_reality_layer.Prelude.Lists.{any}

-- The code point that `str.lower` gives, as far as an ASCII text can result: the capitals, and
-- the Kelvin sign, which lowers to `k`.
lower_code : ℕ → ℕ
lower_code n = if leb b'A' n && leb n b'Z' then n + 32 else if nat_beq n 0x212a then b'k' else n

-- `s.lower() == word`, for an ASCII word in lower case
unfoldable pub lowers_to : String → String → Bool
unfolding lower_code
lowers_to [] [] = true
lowers_to (String.◌∷◌ c s) (String.◌∷◌ d t) =
    nat_beq (lower_code (code c)) (code d) && lowers_to s t
lowers_to _ _ = false

-- `s.lower() in {...}`
unfoldable pub lower_in : String → List String → Bool
unfolding lowers_to
lower_in s = any (lowers_to s)

-- the rest of a text after a prefix
abbrev pub strip_prefix : String → String → Option String
strip_prefix [] s = some s
strip_prefix (String.◌∷◌ c p) [] = none
strip_prefix (String.◌∷◌ c p) (String.◌∷◌ d s) =
    if nat_beq (code c) (code d) then strip_prefix p s else none

-- `s.removeprefix(p)`
unfoldable pub remove_prefix : String → String → String
remove_prefix p s = elim (strip_prefix p s) [ none ↦ s | some rest ↦ rest ]

-- the text after the first character with the code, if the character occurs
unfoldable pub after_first : ℕ → String → Option String
after_first n [] = none
after_first n (String.◌∷◌ c s) = if nat_beq (code c) n then some s else after_first n s

-- `s.split(":", 1)[-1]`
unfoldable pub after_colon : String → String
unfolding after_first
after_colon s = elim (after_first b':' s) [ none ↦ s | some rest ↦ rest ]

-- `s.partition(":")`: the text before the first colon and the text after it, if there is one
abbrev pub before_first : ℕ → String → String
before_first n [] = []
before_first n (String.◌∷◌ c s) =
    let rest = before_first n s in if nat_beq (code c) n then [] else String.◌∷◌ c rest

unfoldable pub partition_colon : String → Option (String × String)
unfolding after_first
partition_colon s = elim (after_first b':' s) [
  | none ↦ none
  | some rest ↦ some (before_first b':' s, rest)
]

-- truth of a text
abbrev pub truthy : String → Bool
truthy [] = false
truthy (String.◌∷◌ c s) = true

-- a text that begins with a text that is not empty
pub truthy-append : (s t : String) → truthy s ≡ true → truthy (s ++ t) ≡ true
truthy-append [] t h = cc
truthy-append (String.◌∷◌ c s) t h = rw (cons-append c s t) refl

-- the text that is not true
pub not_truthy : (s : String) → truthy s ≡ false → s ≡ []
not_truthy [] h = refl
not_truthy (String.◌∷◌ c s) h = cc
