-- ===== src/Prelude/Objects.antt =====
-- Objects used as maps from names, and the falsy readings of an optional text.
use Prim.Native.String
use Prim.Native.String.{String}
use mathlib.Core.Path.{◌≡◌}
use mathlib.Core.Bool.{Bool, true, false, not}
use mathlib.Core.Option.{Option, none, some}
use mathlib.Core.List.{List, [], ◌∷◌}
use open_vibe_codes.Prelude.Tests.{string_eq, ◌==◌, if◌then◌else◌}

-- `obj[key]` of an object with own keys only, `none` for undefined.
abbrev pub lookup {ℓ} : {V : Type ℓ} → String → List (String × V) → Option V
lookup k [] = none
lookup k ((j, v) ∷ m) = if j == k then some v else lookup k m

-- A text that is neither null nor "".
abbrev pub truthy : Option String → Bool
truthy none = false
truthy (some s) = not (s == "")

-- `a || b` of texts.
abbrev pub or_else : Option String → Option String → Option String
or_else a b = if truthy a then a else b

-- `o ?? d`, `o == null ? d : o`.
abbrev pub get_or {ℓ} : {A : Type ℓ} → Option A → A → A
get_or none d = d
get_or (some a) d = a

abbrev pub is_some {ℓ} : {A : Type ℓ} → Option A → Bool
is_some none = false
is_some (some a) = true

-- `!list.length`.
abbrev pub is_nil {ℓ} : {A : Type ℓ} → List A → Bool
is_nil [] = true
is_nil (x ∷ xs) = false

-- A text that is not "" wins.
pub or_else_word :
    (e : String) (d : Option String) → (e == "") ≡ false → or_else (some e) d ≡ some e
or_else_word e d h = rw (h, or_else)

-- A template literal: its parts, joined.
abbrev pub template : List String → String
template [] = ""
template (s ∷ parts) = String.◌++◌ s (template parts)
