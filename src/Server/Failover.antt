-- ===== src/Server/Failover.antt =====
-- server/domain/conductor-failover.js: the agent that a conductor's turn runs on. Percentages are
-- ratios of naturals; the notes for the person are left out but for which is due.
pub mod Order
pub mod Settings
pub mod Labels
use open_vibe_codes.Prelude.{
  ℕ, ◌+◌, ◌*◌, ◌/◌, String, Bool, true, false, not, ◌&&◌, ◌||◌, Option, none, some, List, [], ◌∷◌,
  ◌++◌, map, leb, ltb, if◌then◌else◌, ◌==◌, string_eq, nat_eq, lookup, truthy, or_else, get_or,
  includes, any, find_index, length, get_elem?,
}
use open_vibe_codes.Runtime.{Runtime}
use open_vibe_codes.Engine.Router.Windows.{
  Ratio, Window, Row, pct_of, window_full, is_false, row_of,
}

abbrev pub conductor_agents : List String
conductor_agents = "claude-code" ∷ "codex" ∷ "opencode" ∷ []

abbrev pub max_fallbacks : ℕ
max_fallbacks = 3

abbrev pub default_switch_pct : ℕ
default_switch_pct = 90

abbrev pub min_switch_pct : ℕ
min_switch_pct = 50

abbrev pub max_switch_pct : ℕ
max_switch_pct = 95

abbrev pub model_re : String
model_re = "^[A-Za-z0-9._:/-]{1,100}$"

-- `Math.round`: a half goes up.
abbrev pub round : Ratio → ℕ
round r = (2 * r.num + r.den) / (2 * r.den)

-- What a setting answers: a value, or an error with the status 422.
pub data Checked {ℓ} (A : Type ℓ) : Type ℓ where
  ok : A → Checked A
  invalid : (code : String) → Checked A

-- A switch point as a form sends it: null or "", no number, or a number from 0 up.
pub data Sent : Type 0 where
  empty : Sent
  no_number : Sent
  number : Ratio → Sent

unfoldable pub clean_switch_pct : Sent → Checked (Option ℕ)
clean_switch_pct empty = ok none
clean_switch_pct no_number = invalid "settings.switch_invalid"
clean_switch_pct (number n) =
    if ltb n.num (min_switch_pct * n.den) || ltb (max_switch_pct * n.den) n.num
    then invalid "settings.switch_invalid"
    else ok (some (round n))

pub record Fallback : Type 0 where
  pub agent : String
  pub model : Option String

-- An item of the list: null or "", or the texts of its agent and model ("" where there is none).
pub data Item : Type 0 where
  blank : Item
  item : (agent model : String) → Item

module _ (js : Runtime) where
  -- `rawModel || null`.
  abbrev pub model_or_null : String → Option String
  model_or_null raw = if raw == "" then none else some raw

  abbrev pub same_model : Option String → Option String → Bool
  same_model none none = true
  same_model (some a) (some b) = a == b
  same_model _ _ = false

  unfoldable pub is_listed : List Fallback → Fallback → Bool
  is_listed out f = any (λ x. x.agent == f.agent && same_model x.model f.model) out

  -- One round of the loop, over the agent and the model as they were trimmed.
  unfoldable pub add_item : List Fallback → String → String → Checked (List Fallback)
  add_item out agent raw =
      let f : Fallback = record { agent = agent; model = model_or_null raw } in
      if agent == ""
      then ok out
      else if not (includes conductor_agents agent)
      then invalid "settings.fallback_agent"
      else if not (raw == "") && not (js.test model_re raw)
      then invalid "settings.fallback_model"
      else if is_listed out f
      then ok out
      else ok (out ++ f ∷ [])

  unfoldable pub clean_items : List Fallback → List Item → Checked (List Fallback)
  clean_items out [] = ok out
  clean_items out (blank ∷ items) = clean_items out items
  clean_items out (item agent model ∷ items) = elim (add_item out (js.trim agent) (js.trim model)) [
    | invalid code ↦ invalid code
    | ok next ↦ clean_items next items
  ]

  unfoldable pub at_most_three : Checked (List Fallback) → Checked (List Fallback)
  at_most_three (invalid code) = invalid code
  at_most_three (ok out) =
      if ltb max_fallbacks (length out) then invalid "settings.fallbacks_too_many" else ok out

  -- `none` is null or "".
  unfoldable pub clean_fallbacks : Option (List Item) → Checked (List Fallback)
  clean_fallbacks none = ok []
  clean_fallbacks (some items) = at_most_three (clean_items [] items)

  abbrev pub out_or_none : Checked (List Fallback) → List Fallback
  out_or_none (ok out) = out
  out_or_none (invalid code) = []

  -- A stored list that does not pass reads as none.
  unfoldable pub stored_fallbacks : Option (List Item) → List Fallback
  stored_fallbacks none = []
  stored_fallbacks (some items) = out_or_none (clean_fallbacks (some items))

pub data UsageState : Type 0 where
  unknown absent login full near room : UsageState

pub record Usage : Type 0 where
  pub state : UsageState
  pub pct : Option ℕ
  pub window : Option String
  pub resets_at : Option ℕ

-- The fullest window so far; its percentage is rounded.
pub record Top : Type 0 where
  pub pct : ℕ
  pub window : String
  pub resets_at : Option ℕ
  pub full : Bool

abbrev pub passed : Option ℕ → ℕ → Bool
passed none now = false
passed (some t) now = leb t now

-- `!top || pct > top.pct`.
abbrev pub beats : Option Top → Ratio → Bool
beats none pct = true
beats (some top) pct = ltb (top.pct * pct.den) pct.num

unfoldable pub top_of : ℕ → Window → Ratio → Top
top_of now w pct = record {
  pct = round pct;
  window = get_or (or_else w.name (some "window")) "window";
  resets_at = w.resets_at;
  full = window_full w now;
}

unfoldable pub read_window : ℕ → Option Top → Window → Option Ratio → Option Top
read_window now top w none = top
read_window now top w (some pct) =
    if passed w.resets_at now then top else if beats top pct then some (top_of now w pct) else top

unfoldable pub fullest : ℕ → Option Top → List Window → Option Top
fullest now top [] = top
fullest now top (w ∷ windows) =
    fullest now (read_window now top w (pct_of w.pct w.used w.limit)) windows

unfoldable pub reading : UsageState → Option Top → Usage
reading state none = record { state = state; pct = none; window = none; resets_at = none }
reading state (some top) = record {
  state = state;
  pct = some top.pct;
  window = some top.window;
  resets_at = top.resets_at;
}

abbrev pub top_full : Option Top → Bool
top_full none = false
top_full (some top) = top.full

abbrev pub top_near : Option Top → ℕ → Bool
top_near none point = false
top_near (some top) point = leb point top.pct

-- The state of a row that is installed and signed in.
unfoldable pub usage_state : Option Bool → Option Top → ℕ → UsageState
usage_state has_room top point =
    if top_full top
    then full
    else if is_false has_room
    then full
    else if top_near top point
    then near
    else room

unfoldable pub usage_of : Option Row → ℕ → ℕ → Usage
usage_of none point now = reading unknown none
usage_of (some row) point now =
    let top = fullest now none row.windows in
    if is_false row.installed
    then reading absent none
    else if is_false row.signed_in
    then reading login none
    else reading (usage_state row.room top point) top

-- The three tests of `order`, in turn; only the primary is used with no reading at once.
abbrev pub is_first : ℕ → UsageState → Bool
is_first i room = true
is_first ℕ.zero unknown = true
is_first i s = false

abbrev pub is_near : UsageState → Bool
is_near near = true
is_near _ = false

abbrev pub is_unknown : UsageState → Bool
is_unknown unknown = true
is_unknown _ = false

-- `usage.findIndex((u, i) => test(u, i))` of the first test, from place i on.
unfoldable pub find_first_room : ℕ → List UsageState → Option ℕ
find_first_room i [] = none
find_first_room i (u ∷ us) =
    let rest = find_first_room (i + 1) us in if is_first i u then some i else rest

-- A place, or what a later test finds.
unfoldable pub or_place : Option ℕ → Option ℕ → Option ℕ
or_place none later = later
or_place (some i) later = some i

-- The index that the tests find, or -1.
unfoldable pub choose_index : List UsageState → Option ℕ
choose_index us =
    or_place (find_first_room 0 us) (or_place (find_index is_near us) (find_index is_unknown us))

-- Which note goes with the choice.
pub data Note : Type 0 where
  quiet switched all_out no_fallback : Note

pub record Chosen : Type 0 where
  pub pick : Option Fallback
  pub index : Option ℕ
  pub switched : Bool
  pub note : Note

abbrev pub is_full : Option UsageState → Bool
is_full (some full) = true
is_full _ = false

unfoldable pub note_of : List UsageState → Option ℕ → Note
note_of us (some i) = if ltb 0 i then switched else quiet
note_of us none =
    if ltb 1 (length us) then all_out else if is_full (get_elem? us 0) then no_fallback else quiet

unfoldable pub usages : List Fallback → Option (List (String × Row)) → ℕ → ℕ → List UsageState
usages chain fleet point now =
    map (λ (f : Fallback). (usage_of (row_of fleet f.agent) point now).state) chain

-- `choose`, over a chain whose entries all name an agent; with none left the primary is tried.
unfoldable pub choose : List Fallback → Option (List (String × Row)) → ℕ → ℕ → Chosen
choose [] fleet point now = record { pick = none; index = none; switched = false; note = quiet }
choose (primary ∷ rest) fleet point now =
    let us = usages (primary ∷ rest) fleet point now in
    let found = choose_index us in
    let index = get_or found 0 in
    record {
      pick = get_elem? (primary ∷ rest) index;
      index = some index;
      switched = ltb 0 index;
      note = note_of us found;
    }
