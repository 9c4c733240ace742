-- ===== src/Engine/Router/Windows.antt =====
-- engine/router.js: the fleet's readings, `windowFull`, `balanceLow` and `roomFor`. A number that the
-- fleet reports is a ratio of naturals, so comparisons and roundings are exact; negative ones are
-- left out. `resets_at` is what `Date.parse` reads of it, `none` where it reads no date.
use open_vibe_codes.Prelude.{
  ℕ, ◌*◌, String, Bool, true, false, not, ◌&&◌, Option, none, some, List, leb, ltb, if◌then◌else◌,
  any, lookup,
}

pub record Ratio : Type 0 where
  pub num : ℕ
  pub den : ℕ

-- A limit window: { name, used, limit, pct, resets_at }.
pub record Window : Type 0 where
  pub name : Option String
  pub used : Option ℕ
  pub limit : Option ℕ
  pub pct : Option Ratio
  pub resets_at : Option ℕ

-- One runner's row of the fleet; the balance is in millionths of a dollar.
pub record Row : Type 0 where
  pub installed : Option Bool
  pub signed_in : Option Bool
  pub room : Option Bool
  pub windows : List Window
  pub balance_usd : Option ℕ

abbrev pub full_pct : ℕ
full_pct = 95

abbrev pub min_balance_usd : ℕ
min_balance_usd = 1000000

-- `(used / limit) * 100`, where both are numbers and the limit is above 0.
unfoldable pub used_pct : Option ℕ → Option ℕ → Option Ratio
used_pct none limit = none
used_pct (some u) none = none
used_pct (some u) (some l) = if ltb 0 l then some (record { num = u * 100; den = l }) else none

-- The percentage of a window, in either of the shapes that providers report.
unfoldable pub pct_of : Option Ratio → Option ℕ → Option ℕ → Option Ratio
pct_of none used limit = used_pct used limit
pct_of (some p) used limit = some p

abbrev pub at_least : ℕ → Option Ratio → Bool
at_least pct none = false
at_least pct (some p) = leb (pct * p.den) p.num

-- The window's reset has passed since it was read.
unfoldable pub freed : Option ℕ → ℕ → Bool
freed none now = false
freed (some t) now = ltb 0 t && leb t now

unfoldable pub window_full : Window → ℕ → Bool
window_full w now =
    if freed w.resets_at now then false else at_least full_pct (pct_of w.pct w.used w.limit)

-- The fleet's row of a runner; an absent fleet names nobody.
unfoldable pub row_of : Option (List (String × Row)) → String → Option Row
row_of none runner = none
row_of (some fleet) runner = lookup runner fleet

-- A balance that nobody read is unknown, not empty.
unfoldable pub low : Option ℕ → ℕ → Bool
low none least = false
low (some usd) least = ltb usd least

abbrev pub row_low : Option Row → ℕ → Bool
row_low none least = false
row_low (some f) least = low f.balance_usd least

unfoldable pub balance_low : Option (List (String × Row)) → String → ℕ → Bool
balance_low fleet runner least = row_low (row_of fleet runner) least

-- `x === false`.
abbrev pub is_false : Option Bool → Bool
is_false none = false
is_false (some b) = not b

abbrev pub row_room : Option Row → ℕ → Bool
row_room none now = true
row_room (some f) now =
    if is_false f.signed_in
    then false
    else if low f.balance_usd min_balance_usd
    then false
    else not (any (λ w. window_full w now) f.windows)

unfoldable pub room_for : Option (List (String × Row)) → String → ℕ → Bool
room_for fleet runner now = row_room (row_of fleet runner) now
