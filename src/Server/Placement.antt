-- ===== src/Server/Placement.antt =====
-- server/domain/harness-placement.js: the offers that a coding task may be placed on, and what it
-- asks of them. The planner of openvibe-sdk, the catalog and the person's settings are arguments;
-- prices are whole nanodollars per token, and an offer's detail is its harness and its name.
pub mod Rules
use open_vibe_codes.Prelude.{
  ℕ, String, Bool, true, false, not, ◌&&◌, ◌||◌, Option, none, some, List, [], ◌∷◌, ◌++◌, map,
  if◌then◌else◌, ◌==◌, string_eq, nat_eq, lookup, get_or, or_else, truthy, includes, keep, find,
  template,
}

abbrev pub task_flags : List String
task_flags = "edit" ∷ "review" ∷ []

abbrev pub harness_flags : List (String × String)
harness_flags =
    ("host_access", "harness:host-access")
    ∷ ("mcp", "harness:mcp")
    ∷ ("long_autonomy", "harness:long-autonomy")
    ∷ ("resume", "harness:resume")
    ∷ ("edit", "harness:edit")
    ∷ ("review", "harness:review")
    ∷ ("tools", "harness:tools")
    ∷ ("vision", "harness:vision")
    ∷ ("browser", "harness:browser")
    ∷ ("computer_use", "harness:computer-use")
    ∷ []

abbrev pub tasks : List (String × List String)
tasks =
    ("edit", "task:edit" ∷ [])
    ∷ ("review", "task:review" ∷ [])
    ∷ ("long", "task:edit" ∷ "harness:long-autonomy" ∷ [])
    ∷ ("resume", "harness:resume" ∷ [])
    ∷ []

-- A harness of the catalog; `flags` are the names of its capabilities that are true.
pub record Harness : Type 0 where
  pub id : String
  pub name : String
  pub provider : String
  pub flags : List String
  pub runtimes : List String
  pub task_capabilities : Option (List String)
  pub max_concurrent_runs : ℕ
  pub max_context_tokens : Option ℕ

pub record Agent : Type 0 where
  pub id : Option String
  pub model : String
  pub provider : Option String
  pub input_tokens : Option ℕ
  pub price : ℕ

-- What is known of one pair: its health, its trust and its latency.
pub record Opts : Type 0 where
  pub health : Option String
  pub trust : Option String
  pub latency_ms : Option ℕ

pub record Offer : Type 0 where
  pub offer_id : String
  pub provider : String
  pub trust : String
  pub owner : Option String
  pub capabilities : List String
  pub workers : ℕ
  pub health : String
  pub price : ℕ
  pub max_context_tokens : Option ℕ
  pub latency_ms : Option ℕ
  pub harness : String
  pub name : String

unfoldable pub tasks_for : List String → List String
tasks_for flags = keep (includes flags) task_flags

-- The capabilities that a harness's flags add, in the order of the table.
unfoldable pub flag_capabilities : List String → List String
flag_capabilities flags =
    map (λ (name, capability). capability)
      (keep (λ (name, capability). includes flags name) harness_flags)

unfoldable pub offer_id : Harness → Agent → String
offer_id h a = template (h.id ∷ ":" ∷ get_or (or_else a.id (some a.model)) "" ∷ [])

abbrev pub or_of {ℓ} : {A : Type ℓ} → Option A → Option A → Option A
or_of none b = b
or_of (some a) b = some a

unfoldable pub to_offer : Opts → Harness → Agent → Offer
to_offer opts h a = record {
  offer_id = offer_id h a;
  provider = get_or (or_else a.provider (some h.provider)) "";
  trust = get_or (or_else opts.trust (some "external")) "";
  owner = none;
  capabilities =
      map (λ task. template ("task:" ∷ task ∷ [])) (get_or h.task_capabilities (tasks_for h.flags))
      ++ flag_capabilities h.flags
      ++ map (λ runtime. template ("runtime:" ∷ runtime ∷ [])) h.runtimes;
  workers = h.max_concurrent_runs;
  health = get_or (or_else opts.health (some "up")) "";
  price = a.price;
  max_context_tokens = or_of a.input_tokens h.max_context_tokens;
  latency_ms = opts.latency_ms;
  harness = h.id;
  name = h.name;
}

-- `[...new Set(list)]`: each text once, where it stood first.
unfoldable pub set_from : List String → List String → List String
set_from seen [] = seen
set_from seen (x ∷ xs) = set_from (if includes seen x then seen else seen ++ x ∷ []) xs

pub record Requirements : Type 0 where
  pub kind : String
  pub capabilities : List String

unfoldable pub requirements_of : String → List String → Option (List String) → Option Requirements
requirements_of task extra none = none
requirements_of task extra (some needed) = some (record {
  kind = template ("harness." ∷ task ∷ []);
  capabilities = set_from [] (needed ++ extra);
})

-- `requirementsFor`; `none` is the error `harness.task_unknown`.
unfoldable pub requirements_for : String → List String → Option Requirements
requirements_for task extra = requirements_of task extra (lookup task tasks)

-- The person, their two rules, the harnesses of their own machine, and the agent that they named.
pub record PlacementContext : Type 0 where
  pub person : String
  pub no_cloud : Bool
  pub only_free : Bool
  pub own_machine : Option (List String)
  pub only_agent : Option String

unfoldable pub wanted : Option String → List Offer → List Offer
wanted none offers = offers
wanted (some agent) offers = if agent == "" then offers else keep (λ o. o.harness == agent) offers

-- An offer of the person's own machine.
unfoldable pub owned_by : String → Offer → Offer
owned_by person o = record o { trust = "user-owned"; owner = some person }

unfoldable pub on_own_machine : String → Option (List String) → List Offer → List Offer
on_own_machine person none offers = offers
on_own_machine person (some agents) offers =
    map (owned_by person) (keep (λ o. includes agents o.harness) offers)

abbrev pub is_owner : Option String → String → Bool
is_owner none person = false
is_owner (some o) person = o == person

unfoldable pub costs_nothing : String → Offer → Bool
costs_nothing person o = o.trust == "user-owned" && is_owner o.owner person || o.price == 0

unfoldable pub free_only : Bool → String → List Offer → List Offer
free_only only_free person offers = if only_free then keep (costs_nothing person) offers else offers

-- The offers that `route` hands to the planner.
unfoldable pub offers_under : PlacementContext → List Offer → List Offer
offers_under ctx offers =
    let own = if ctx.no_cloud then ctx.own_machine else none in
    free_only ctx.only_free ctx.person
      (on_own_machine ctx.person own (wanted ctx.only_agent offers))

unfoldable pub offers_of : (String → Opts) → Harness → List Agent → List Offer
offers_of opts h agents = map (λ a. to_offer (opts (offer_id h a)) h a) agents

unfoldable pub catalog_offers : (String → Opts) → List (Harness × List Agent) → List Offer
catalog_offers opts [] = []
catalog_offers opts ((h, agents) ∷ rows) = offers_of opts h agents ++ catalog_offers opts rows

-- What the planner answers: the selected offer's id, if it selects one.
abbrev pub Planner : Type 0
Planner = Requirements → List Offer → Option String

unfoldable pub route_from :
    Planner → PlacementContext → List Offer → Option Requirements → Option (Option String)
route_from place ctx offers none = none
route_from place ctx offers (some req) = some (place req (offers_under ctx offers))

-- `route`: the selected offer's id or null, over any planner; `none` outside is an unknown task.
unfoldable pub route :
    Planner
    → (String → Opts)
    → List (Harness × List Agent)
    → PlacementContext
    → String
    → List String
    → Option (Option String)
route place opts catalog ctx task extra =
    route_from place ctx (catalog_offers opts catalog) (requirements_for task extra)
