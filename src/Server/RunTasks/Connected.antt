-- ===== src/Server/RunTasks/Connected.antt =====
-- server/domain/run-tasks.js: what a person may run on: their connections and their fleet, each reading
-- kept for a while (`personConnections`, `fleetFor`), and their own machine (`ownMachineOf`). The
-- services that are read are arguments.
use open_vibe_codes.Prelude.{
  ℕ, String, Bool, Option, none, some, List, [], ◌∷◌, ◌+◌, includes, if◌then◌else◌, false, get_or,
  truthy, lookup, ltb, ◌==◌, string_eq, ◌||◌, not, is_nil, ◌++◌,
}
use open_vibe_codes.Server.Attempts.Plan.{harness_of_runner}

-- A plan that a machine reports, and what the person may run on: the providers whose keys they keep,
-- and their plans.
pub record Plan : Type 0 where
  pub provider : Option String
  pub harness : Option String
  pub id : Option String

pub record Connections : Type 0 where
  pub providers : List String
  pub plans : List Plan

-- A reading kept until a time; a reading that failed is kept as none.
pub record Kept {ℓ} (A : Type ℓ) : Type ℓ where
  pub value : Option A
  pub until : ℕ

-- `hit && hit.until > now ? hit.value : read`: the reading of a subject and the cache afterwards.
unfoldable pub keep_reading {ℓ} :
    {A : Type ℓ}
    → ℕ
    → ℕ
    → Option A
    → String
    → List (String × Kept A)
    → Option A × List (String × Kept A)
keep_reading now ttl value subject cache =
    (value, (subject, record { value = value; until = now + ttl }) ∷ cache)

unfoldable pub cached_or {ℓ} :
    {A : Type ℓ}
    → ℕ
    → ℕ
    → (String → Option A)
    → String
    → Option (Kept A)
    → List (String × Kept A)
    → Option A × List (String × Kept A)
cached_or now ttl read subject none cache = keep_reading now ttl (read subject) subject cache
cached_or now ttl read subject (some hit) cache =
    if ltb now hit.until
    then (hit.value, cache)
    else keep_reading now ttl (read subject) subject cache

-- `personConnections` and `fleetFor`; `read` is none where the service is not configured.
unfoldable pub cached {ℓ} :
    {A : Type ℓ}
    → ℕ
    → ℕ
    → Option (String → Option A)
    → String
    → List (String × Kept A)
    → Option A × List (String × Kept A)
cached now ttl none subject cache = (none, cache)
cached now ttl (some read) subject cache =
    if subject == ""
    then (none, cache)
    else cached_or now ttl read subject (lookup subject cache) cache

-- `CONNECTION_TTL_MS`.
abbrev pub connection_ttl_ms : ℕ
connection_ttl_ms = 60000

-- A row of the fleet's report, under its runner.
pub record Reported : Type 0 where
  pub installed : Option Bool
  pub name : Option String
  pub machine : Option String

pub record Machine : Type 0 where
  pub name : Option String
  pub agents : List String

abbrev pub is_missing : Option Bool → Bool
is_missing none = false
is_missing (some installed) = not installed

unfoldable pub add_agent : String → Reported → Machine → Machine
add_agent harness row m = record {
  name =
      if truthy m.name
      then m.name
      else if truthy row.name
      then row.name
      else if truthy row.machine
      then row.machine
      else none;
  agents = if includes m.agents harness then m.agents else m.agents ++ harness ∷ [];
}

unfoldable pub gather : Machine → List (String × Reported) → Machine
gather m [] = m
gather m ((runner, row) ∷ rows) =
    let harness = get_or (lookup runner harness_of_runner) runner in
    let next = if is_missing row.installed || harness == "" then m else add_agent harness row m in
    gather next rows

-- `ownMachineOf`.
unfoldable pub own_machine_of : Option (List (String × Reported)) → Option Machine
own_machine_of none = none
own_machine_of (some rows) =
    let m = gather (record { name = none; agents = [] }) rows in
    if is_nil m.agents then none else some m
