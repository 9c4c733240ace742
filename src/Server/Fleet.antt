-- ===== src/Server/Fleet.antt =====
-- server/domain/fleet.js: a window as a machine reports it, the windows of one agent merged across
-- machines, and the state that the page shows. Times are milliseconds; the aliases of a report's
-- fields are left out.
pub mod Merged
pub mod Stored
pub mod Gathered
pub mod Agents
pub mod Refreshed
use open_vibe_codes.Prelude.{
  ℕ, zero, suc, ◌+◌, ◌*◌, String, Bool, true, false, not, ◌&&◌, Option, none, some, List, [], ◌∷◌,
  ◌++◌, if◌then◌else◌, ◌==◌, string_eq, ltb, leb, any, truthy, get_or, is_nil,
}
use open_vibe_codes.Runtime.{Runtime}
use open_vibe_codes.Engine.Router.Windows.{Ratio, full_pct, min_balance_usd, low}
use open_vibe_codes.Server.Failover.{round}

-- A window as a machine reports it, its numbers read by `num` and its time by `iso`.
pub record Reported : Type 0 where
  pub name : Option String
  pub used : Option ℕ
  pub limit : Option ℕ
  pub pct : Option Ratio
  pub resets_at : Option ℕ

pub record Window : Type 0 where
  pub name : String
  pub used : Option ℕ
  pub limit : Option ℕ
  pub pct : Option ℕ
  pub resets_at : Option ℕ

-- `str(value, max)`: a trimmed text that is not blank, cut.
unfoldable pub str : Runtime → Option String → ℕ → Option String
str js none max = none
str js (some s) max = if js.trim s == "" then none else some (js.cut max (js.trim s))

-- The percentage of a window: its own, else what was used of a limit above 0; rounded.
unfoldable pub pct_of : Option Ratio → Option ℕ → Option ℕ → Option ℕ
pct_of (some p) used limit = some (round p)
pct_of none (some u) (some l) =
    if ltb 0 l then some (round (record { num = u * 100; den = l })) else none
pct_of none used limit = none

unfoldable pub named_window :
    Option String → Option ℕ → Option ℕ → Option ℕ → Option ℕ → Option Window
named_window none none none none resets_at = none
named_window name used limit pct resets_at = some (record {
  name = get_or name "window";
  used = used;
  limit = limit;
  pct = pct;
  resets_at = resets_at;
})

-- `windowOf`; `none` where nothing was reported.
unfoldable pub window_of : Runtime → Reported → Option Window
window_of js w =
    named_window (str js w.name 40) w.used w.limit (pct_of w.pct w.used w.limit) w.resets_at

-- `w.pct ?? -1`, one higher.
unfoldable pub score : Window → ℕ
score w = elim w.pct [ none ↦ 0 | some p ↦ p + 1 ]

-- `by.set(w.name, w)` when no window of the name was seen or the reading is fuller.
unfoldable pub put : Window → List Window → List Window
put w [] = w ∷ []
put w (v ∷ seen) =
    let rest = put w seen in
    if v.name == w.name then (if ltb (score v) (score w) then w ∷ seen else v ∷ seen) else v ∷ rest

unfoldable pub merge_from : List Window → List Window → List Window
merge_from seen [] = seen
merge_from seen (w ∷ windows) = merge_from (put w seen) windows

unfoldable pub merge_lists : List Window → List (List Window) → List Window
merge_lists seen [] = seen
merge_lists seen (windows ∷ lists) = merge_lists (merge_from seen windows) lists

-- `mergeWindows`, in the order that the names were first seen in.
unfoldable pub merge_windows : List (List Window) → List Window
merge_windows lists = merge_lists [] lists

-- The row of one agent, as the page reads it.
pub record Row : Type 0 where
  pub installed : Bool
  pub signed_in : Bool
  pub balance_usd : Option ℕ
  pub room : Option Bool
  pub windows : List Window

abbrev pub low_pct : ℕ
low_pct = 80

unfoldable pub is_at : ℕ → Window → Bool
is_at point w = elim w.pct [ none ↦ false | some p ↦ leb point p ]

abbrev pub is_true : Option Bool → Bool
is_true none = false
is_true (some b) = b

-- `stateOf`.
unfoldable pub state_of : Option Row → String
state_of none = "unknown"
state_of (some row) =
    if not row.installed
    then "absent"
    else if not row.signed_in
    then "login"
    else if low row.balance_usd min_balance_usd
    then "empty"
    else if not (is_true row.room)
        && (not (is_nil row.windows) && not (any (λ w. not (is_at full_pct w)) row.windows))
    then "limited"
    else if any (is_at low_pct) row.windows
    then "low"
    else "ok"
