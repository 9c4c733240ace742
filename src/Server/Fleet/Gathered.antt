-- ===== src/Server/Fleet/Gathered.antt =====
-- server/domain/fleet.js: the stored readings as they are listed by machine (`latest`) and gathered by
-- agent (`byHarness`). How the database orders the rows, and the balances, are arguments.
use open_vibe_codes.Prelude.{
  ℕ, String, ◌==◌, nat_eq, if◌then◌else◌, ◌&&◌, ◌||◌, Bool, false, not, Option, none, some, List,
  [], ◌∷◌, ◌++◌, string_eq, keep, map, ltb, or_else, truthy, any, lookup,
}
use open_vibe_codes.Runtime.{Runtime}
use open_vibe_codes.Engine.Router.Windows.{
  Window as Limit, Row as Routed, room_for, window_full, Ratio,
}
use open_vibe_codes.Server.Fleet.{Window, merge_windows}
use open_vibe_codes.Server.Fleet.Stored.{user_re, Stored}

-- An agent of a machine, and a machine, as `latest` lists them.
pub record Seen : Type 0 where
  pub agent : String
  pub installed : Bool
  pub signed_in : Bool
  pub windows : List Window

pub record Listed : Type 0 where
  pub id : String
  pub node_id : Option String
  pub name : Option String
  pub online : Bool
  pub reported_at : ℕ
  pub agents : List Seen

abbrev pub seen_of : Stored → Seen
seen_of r = record {
  agent = r.agent;
  installed = r.installed;
  signed_in = r.signed_in;
  windows = r.windows;
}

abbrev pub listed_of : Stored → Listed
listed_of r = record {
  id = r.machine;
  node_id = or_else r.node_id none;
  name = or_else r.name none;
  online = r.online;
  reported_at = r.reported_at;
  agents = seen_of r ∷ [];
}

unfoldable pub list_row : Stored → List Listed → List Listed
list_row r [] = listed_of r ∷ []
list_row r (m ∷ machines) =
    let rest = list_row r machines in
    if m.id == r.machine
    then record m {
      reported_at = if ltb m.reported_at r.reported_at then r.reported_at else m.reported_at;
      agents = m.agents ++ seen_of r ∷ [];
    }
      ∷ machines
    else m ∷ rest

unfoldable pub list_rows : List Listed → List Stored → List Listed
list_rows machines [] = machines
list_rows machines (r ∷ rows) = list_rows (list_row r machines) rows

-- `latest`; `order` is the database's ORDER BY.
unfoldable pub latest : Runtime → (List Stored → List Stored) → String → List Stored → List Listed
latest js order subject rows =
    if js.test user_re subject
    then list_rows [] (order (keep (λ r. r.subject == subject) rows))
    else []

-- A window of the fleet as the router reads it; its percentage is a whole number.
unfoldable pub limit_of : Window → Limit
limit_of w = record {
  name = some w.name;
  used = w.used;
  limit = w.limit;
  pct = elim w.pct as (λ x. Option Ratio) [
    | none ↦ none
    | some p ↦ some (record { num = p; den = 1 })
  ];
  resets_at = w.resets_at;
}

pub record Place : Type 0 where
  pub machine : String
  pub node_id : Option String
  pub name : Option String
  pub online : Bool
  pub room : Bool

-- One agent over all machines, while they are read.
pub record Gathered : Type 0 where
  pub agent : String
  pub installed : Bool
  pub signed_in : Bool
  pub places : List Place
  pub lists : List (List Window)
  pub room : Bool
  pub best : Option String

-- One machine has the agent installed and signed in, with room.
unfoldable pub has_room : ℕ → Seen → Bool
has_room now a =
    a.installed && (a.signed_in && not (any (λ w. window_full (limit_of w) now) a.windows))

unfoldable pub no_agent : String → Gathered
no_agent agent = record {
  agent = agent;
  installed = false;
  signed_in = false;
  places = [];
  lists = [];
  room = false;
  best = none;
}

unfoldable pub gather_in : ℕ → Listed → Seen → Gathered → Gathered
gather_in now m a g =
    let room = has_room now a in
    record {
      agent = g.agent;
      installed = g.installed || a.installed;
      signed_in = g.signed_in || a.signed_in;
      places =
          g.places
          ++ record {
            machine = m.id;
            node_id = m.node_id;
            name = m.name;
            online = m.online;
            room = room;
          }
            ∷ [];
      lists = g.lists ++ a.windows ∷ [];
      room = g.room || room;
      best = if room && not (truthy g.best) then some m.id else g.best;
    }

unfoldable pub gather_agent : ℕ → Listed → Seen → List Gathered → List Gathered
gather_agent now m a [] = gather_in now m a (no_agent a.agent) ∷ []
gather_agent now m a (g ∷ out) =
    let rest = gather_agent now m a out in
    if g.agent == a.agent then gather_in now m a g ∷ out else g ∷ rest

unfoldable pub gather_agents : ℕ → Listed → List Seen → List Gathered → List Gathered
gather_agents now m [] out = out
gather_agents now m (a ∷ agents) out = gather_agents now m agents (gather_agent now m a out)

unfoldable pub gather_machines : ℕ → List Listed → List Gathered → List Gathered
gather_machines now [] out = out
gather_machines now (m ∷ machines) out =
    gather_machines now machines (gather_agents now m m.agents out)

-- One agent's state over the person's machines.
pub record State : Type 0 where
  pub agent : String
  pub installed : Bool
  pub signed_in : Bool
  pub windows : List Window
  pub places : List Place
  pub machine : Option String
  pub balance_usd : Option ℕ
  pub room : Bool

abbrev pub first_place : List Place → Option String
first_place [] = none
first_place (p ∷ places) = some p.machine

-- The row as the router reads it, before it has room of its own.
unfoldable pub routed_of : State → Routed
routed_of s = record {
  installed = some s.installed;
  signed_in = some s.signed_in;
  room = none;
  windows = map limit_of s.windows;
  balance_usd = s.balance_usd;
}

unfoldable pub roomy : ℕ → State → State
roomy now s = record s {
  room = s.room || room_for (some ((s.agent, routed_of s) ∷ [])) s.agent now;
}

unfoldable pub state_in : ℕ → List (String × ℕ) → Gathered → State
state_in now money g = roomy now (record {
  agent = g.agent;
  installed = g.installed;
  signed_in = g.signed_in;
  windows = merge_windows g.lists;
  places = g.places;
  machine = or_else g.best (first_place g.places);
  balance_usd = lookup g.agent money;
  room = g.room;
})

-- `byHarness`, in the order that the agents were first seen in.
unfoldable pub by_harness : ℕ → List (String × ℕ) → List Listed → List State
by_harness now money machines = map (state_in now money) (gather_machines now machines [])
