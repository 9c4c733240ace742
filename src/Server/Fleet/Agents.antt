-- ===== src/Server/Fleet/Agents.antt =====
-- server/domain/fleet.js: what is read of the gathered agents: `balances`, `forRouter`, `agents` and
-- `deviceFor`. The catalog's names, the order of two names (localeCompare below 0), the accounts and
-- what `read` gives of Bot's answer are arguments.
use open_vibe_codes.Prelude.{
  ℕ, String, ◌==◌, nat_eq, string_eq, if◌then◌else◌, ◌&&◌, ◌||◌, Bool, Option, none, some, List, [],
  ◌∷◌, ◌⊎◌, inl, inr, ◌+◌, false, truthy, find, max, ltb, map, get_or, lookup, or_else,
}
use open_vibe_codes.Runtime.{Runtime}
use open_vibe_codes.Server.Fleet.{Window, Row, str, state_of}
use open_vibe_codes.Server.Fleet.Stored.{Answered, machine_re}
use open_vibe_codes.Server.Fleet.Gathered.{Place, State}

-- The cached balances, with the time they were read at; none where nothing was read yet.
pub record Balances : Type 0 where
  pub at : ℕ
  pub value : Option (List (String × ℕ))

abbrev pub balance_ttl_ms : ℕ
balance_ttl_ms = 300000

unfoldable pub read_anew : ℕ → Option (List (String × ℕ)) → List (String × ℕ) × Balances
read_anew now answer =
    let value = get_or answer [] in (value, record { at = now; value = some value })

-- `balances`; `answer` is none where the accounts could not be read.
unfoldable pub balances : ℕ → Option (List (String × ℕ)) → Balances → List (String × ℕ) × Balances
balances now answer cache = elim cache.value as (λ x. List (String × ℕ) × Balances) [
  | none ↦ read_anew now answer
  | some value ↦
      if ltb now (cache.at + balance_ttl_ms) then (value, cache) else read_anew now answer
]

-- A runner's row, as the router reads it.
pub record Runner : Type 0 where
  pub signed_in : Bool
  pub installed : Bool
  pub windows : List Window
  pub machine : Option String
  pub name : Option String
  pub room : Bool
  pub balance_usd : Option ℕ

abbrev pub is_place : Option String → Place → Bool
is_place none p = false
is_place (some id) p = p.machine == id

abbrev pub head : List Place → Option Place
head [] = none
head (p ∷ places) = some p

abbrev pub first_of : Option Place → Option Place → Option Place
first_of none b = b
first_of (some a) b = some a

abbrev pub name_at : Option Place → Option String
name_at none = none
name_at (some p) = p.name

unfoldable pub runner_row : State → Runner
runner_row s = record {
  signed_in = s.signed_in;
  installed = s.installed;
  windows = s.windows;
  machine = s.machine;
  name = name_at (first_of (find (is_place s.machine) s.places) (head s.places));
  room = s.room;
  balance_usd = s.balance_usd;
}

-- `forRouter`: the rows under their runners; `runner_for` is none for an agent that has no runner.
unfoldable pub for_router : (String → Option String) → List State → List (String × Runner)
for_router runner_for [] = []
for_router runner_for (s ∷ states) =
    let rest = for_router runner_for states in
    if truthy (runner_for s.agent)
    then (get_or (runner_for s.agent) "", runner_row s) ∷ rest
    else rest

-- An agent on the Agents page.
pub record Shown : Type 0 where
  pub name : String
  pub state : String
  pub used : ℕ
  pub row : State

-- The fullest percentage, an unknown one as 0.
abbrev pub most_used : List Window → ℕ
most_used [] = 0
most_used (w ∷ windows) = max (get_or w.pct 0) (most_used windows)

unfoldable pub page_row : State → Row
page_row s = record {
  installed = s.installed;
  signed_in = s.signed_in;
  balance_usd = s.balance_usd;
  room = some s.room;
  windows = s.windows;
}

unfoldable pub shown_of : (String → Option String) → State → Shown
shown_of name_of s = record {
  name = get_or (or_else (name_of s.agent) none) s.agent;
  state = state_of (some (page_row s));
  used = most_used s.windows;
  row = s;
}

-- `STATE`.
abbrev pub state_order : List (String × ℕ)
state_order =
    ("ok", 0)
    ∷ ("low", 1)
    ∷ ("unknown", 2)
    ∷ ("absent", 3)
    ∷ ("login", 4)
    ∷ ("limited", 5)
    ∷ ("empty", 6)
    ∷ []

abbrev pub place_of : Shown → ℕ
place_of a = get_or (lookup a.state state_order) 9

unfoldable pub comes_first : (String → String → Bool) → Shown → Shown → Bool
comes_first before a b =
    ltb (place_of a) (place_of b)
    || (place_of a == place_of b
        && (ltb a.used b.used || (a.used == b.used && before a.name b.name)))

-- A stable sort.
unfoldable pub insert_agent : (String → String → Bool) → Shown → List Shown → List Shown
insert_agent before a [] = a ∷ []
insert_agent before a (b ∷ rows) =
    let rest = insert_agent before a rows in
    if comes_first before b a then b ∷ rest else a ∷ b ∷ rows

unfoldable pub sort_agents : (String → String → Bool) → List Shown → List Shown
sort_agents before [] = []
sort_agents before (a ∷ rows) = insert_agent before a (sort_agents before rows)

-- `agents`.
unfoldable pub agents :
    (String → String → Bool) → (String → Option String) → List State → List Shown
agents before name_of states = sort_agents before (map (shown_of name_of) states)

pub record Device : Type 0 where
  pub device : String
  pub node_id : Option String
  pub name : Option String
  pub online : Bool

abbrev pub is_named : String → Option String → Bool
is_named id none = false
is_named id (some s) = s == id

unfoldable pub is_machine : Runtime → String → Answered → Bool
is_machine js id m = (m.id == id || is_named id m.node_id) && js.test machine_re m.id

unfoldable pub device_of : Runtime → Option Answered → Option Device
device_of js none = none
device_of js (some m) = some (record {
  device = m.id;
  node_id = str js m.node_id 128;
  name = str js m.name 120;
  online = m.online;
})

unfoldable pub device_in : Runtime → String → ℕ ⊎ List Answered → ℕ ⊎ Option Device
device_in js id (inl status) = inl status
device_in js id (inr machines) = inr (device_of js (find (is_machine js id) machines))

-- `deviceFor`: the device, none where Bot names no such machine, or the status of the error.
unfoldable pub device_for : Runtime → Option String → String → ℕ ⊎ List Answered → ℕ ⊎ Option Device
device_for js token id answer = if truthy token then device_in js id answer else inl 401
