-- ===== src/Tests/Fixtures.antt =====
-- A concrete runtime, whose texts are short and plain: nothing is lowered, trimmed or cut, and a
-- pattern takes the text that it spells.
use open_vibe_codes.Prelude.{none, [], ◌∷◌, ◌==◌, string_eq, true}
use open_vibe_codes.Runtime.{Runtime}

abbrev pub js : Runtime
js = record {
  lower = λ s. s;
  trim = λ s. s;
  cut = λ n s. s;
  units = λ s. 12;
  test = λ pattern s. pattern == s;
  group = λ pattern s. none;
  replace = λ pattern text s. s;
  split = λ separator s. s ∷ [];
}

-- Every text passes every pattern.
abbrev pub lenient : Runtime
lenient = record js { test = λ pattern s. true }
