-- ===== src/Server/Fleet/Stored.antt =====
-- server/domain/fleet.js: the stored readings of a person's machines: what `refresh` writes of Bot's
-- answer, which is an argument. A row of the table is one agent of one machine.
use open_vibe_codes.Prelude.{
  ℕ, String, ◌==◌, nat_eq, if◌then◌else◌, ◌&&◌, ◌||◌, Bool, not, Option, none, some, List, [], ◌∷◌,
  ◌++◌, string_eq, keep, ◌⊎◌, take, get_or, inl, map, inr, includes, truthy,
}
use open_vibe_codes.Runtime.{Runtime}
use open_vibe_codes.Server.Fleet.{Window, Reported, str, window_of}

abbrev pub user_re : String
user_re = "^usr_[0-9A-HJKMNP-TV-Z]{26}$"

abbrev pub agent_re : String
agent_re = "^[a-z0-9-]{1,40}$"

abbrev pub machine_re : String
machine_re = "^[A-Za-z0-9_-]{1,128}$"

-- An agent as a machine reports it, and a machine of Bot's answer; `fleet` is none where it reports
-- no list of agents.
pub record Entry : Type 0 where
  pub agent : String
  pub installed : Bool
  pub signed_in : Bool
  pub windows : List Reported

pub record Answered : Type 0 where
  pub id : String
  pub node_id : Option String
  pub name : Option String
  pub online : Bool
  pub fleet_at : Option ℕ
  pub fleet : Option (List Entry)

pub record Stored : Type 0 where
  pub subject : String
  pub machine : String
  pub node_id : Option String
  pub name : Option String
  pub agent : String
  pub installed : Bool
  pub signed_in : Bool
  pub windows : List Window
  pub online : Bool
  pub reported_at : ℕ

unfoldable pub is_row : String → String → String → Stored → Bool
is_row subject machine agent r = r.subject == subject && (r.machine == machine && r.agent == agent)

-- `INSERT … ON CONFLICT (subject, machine, agent) DO UPDATE`.
unfoldable pub upsert : Stored → List Stored → List Stored
upsert row rows = keep (λ r. not (is_row row.subject row.machine row.agent r)) rows ++ row ∷ []

abbrev pub windows_of : Runtime → List Reported → List Window
windows_of js [] = []
windows_of js (w ∷ windows) =
    let rest = windows_of js windows in
    elim (window_of js w) as (λ x. List Window) [ none ↦ rest | some v ↦ v ∷ rest ]

unfoldable pub stored_of : Runtime → ℕ → String → Answered → Entry → Stored
stored_of js now subject m e = record {
  subject = subject;
  machine = m.id;
  node_id = str js m.node_id 128;
  name = str js m.name 120;
  agent = e.agent;
  installed = e.installed;
  signed_in = e.signed_in;
  windows = take 10 (windows_of js e.windows);
  online = m.online;
  reported_at = get_or m.fleet_at now;
}

unfoldable pub put_entries :
    Runtime → ℕ → String → Answered → List Entry → List Stored → List Stored
put_entries js now subject m [] rows = rows
put_entries js now subject m (e ∷ entries) rows =
    put_entries js now subject m entries
      (if js.test agent_re e.agent then upsert (stored_of js now subject m e) rows else rows)

abbrev pub of_machine : String → String → Stored → Bool
of_machine subject machine r = r.subject == subject && r.machine == machine

-- A machine that reports no agents keeps its last reading.
unfoldable pub put_fleet :
    Runtime → ℕ → String → Answered → Option (List Entry) → List Stored → List Stored
put_fleet js now subject m none rows = rows
put_fleet js now subject m (some entries) rows =
    put_entries js now subject m entries (keep (λ r. not (of_machine subject m.id r)) rows)

unfoldable pub put_machines : Runtime → ℕ → String → List Answered → List Stored → List Stored
put_machines js now subject [] rows = rows
put_machines js now subject (m ∷ machines) rows =
    put_machines js now subject machines (put_fleet js now subject m m.fleet rows)

-- `DELETE … AND NOT (machine = ANY(ids))`: a row of the person's whose machine is gone.
unfoldable pub is_gone : String → List String → Stored → Bool
is_gone subject ids r = r.subject == subject && not (includes ids r.machine)

unfoldable pub replaced : Runtime → ℕ → String → List Answered → List Stored → List Stored
replaced js now subject machines rows =
    put_machines js now subject machines
      (keep (λ r. not (is_gone subject (map (λ (m : Answered). m.id) machines) r)) rows)

-- What a refresh comes to: the table, or the status of the problem.
pub data Refreshed : Type 0 where
  written : List Stored → Refreshed
  problem : ℕ → Refreshed
  expired : Refreshed

-- What `read` gives of Bot's answer: its machines, or the status of the error that it throws.
unfoldable pub answered_with : Runtime → ℕ → String → ℕ ⊎ List Answered → List Stored → Refreshed
answered_with js now subject (inl status) rows =
    if status == 401 then Refreshed.expired else Refreshed.problem status
answered_with js now subject (inr machines) rows =
    Refreshed.written
      (replaced js now subject (keep (λ (m : Answered). js.test machine_re m.id) machines) rows)

-- `refresh`.
unfoldable pub refresh :
    Runtime → ℕ → String → Option String → ℕ ⊎ List Answered → List Stored → Refreshed
refresh js now subject token answer rows =
    if not (js.test user_re subject) || not (truthy token)
    then Refreshed.problem 401
    else answered_with js now subject answer rows
