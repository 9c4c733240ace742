-- ===== src/Server/RunTasks/Funding.antt =====
-- server/domain/run-tasks.js: how an attempt is paid for: the catalog's word for a harness
-- (`harnessInfo`, `providerFor`), `hasOwnKey`, `planFor`, `attemptEnv` and `withEnv`. The service that
-- lists the connections, the forge and the catalog of harnesses are arguments.
use open_vibe_codes.Prelude.{
  ℕ, String, Bool, Option, none, some, List, [], ◌∷◌, includes, find, if◌then◌else◌, keep, false,
  get_or, truthy, lookup, ◌==◌, string_eq, ◌||◌, true, not, is_nil, is_some, ◌&&◌, ◌++◌,
}
use open_vibe_codes.Server.RunTasks.Connected.{Plan, Connections, Kept, cached, connection_ttl_ms}
use open_vibe_codes.Runtime.{Runtime}
use open_vibe_codes.Harness.Job.{Input}
use open_vibe_codes.Server.RunTokens.{World, Log, Minted, minted, refused, Request, mint, Budget}
use open_vibe_codes.Server.RunTokens.Env.{Env, env_for}
use open_vibe_codes.Server.RunTasks.Spending.{Caps, budget_for}

-- What the catalog says of a harness.
pub record Info : Type 0 where
  pub provider : Option String
  pub kind : Option String

-- What an attempt's funding asks: texts, the clock in milliseconds, the catalog, the connections, the
-- run tokens (none where the service mints none), how a text is quoted and the address of
-- OpenVibe.AI for their environment, and the default budget.
pub record Desk : Type 0 where
  pub js : Runtime
  pub now : ℕ
  pub infos : List (String × Info)
  pub connections : Option (String → Option Connections)
  pub tokens : Option World
  pub quoted : String → String
  pub base : String
  pub defaults : Caps

-- What it changes: the cache of the connections and the tables of the run tokens.
pub record Funds : Type 0 where
  pub cache : List (String × Kept Connections)
  pub log : Log

pub record Funding : Type 0 where
  pub env : Option Env
  pub mode : String

-- `harnessInfo`.
unfoldable pub harness_info : Desk → Option String → Info
harness_info d none = record { provider = none; kind = none }
harness_info d (some agent) =
    get_or (lookup agent d.infos) (record { provider = none; kind = none })

unfoldable pub provider_for : Desk → Option String → Option String
provider_for d agent = (harness_info d agent).provider

unfoldable pub person_connections : Desk → String → Funds → Option Connections × Funds
person_connections d subject s =
    let (value, cache) = cached d.now connection_ttl_ms d.connections subject s.cache in
    (value, record s { cache = cache })

abbrev pub keeps_key : String → Option Connections → Bool
keeps_key provider none = false
keeps_key provider (some conns) = includes conns.providers provider

-- `hasOwnKey`, false without a provider.
unfoldable pub has_own_key : Desk → String → Option String → Funds → Bool × Funds
has_own_key d subject none s = (false, s)
has_own_key d subject (some provider) s =
    if provider == ""
    then (false, s)
    else (let (conns, t) = person_connections d subject s in (keeps_key provider conns, t))

abbrev pub lower_words : Runtime → List (Option String) → List String
lower_words js [] = []
lower_words js (none ∷ words) = lower_words js words
lower_words js (some w ∷ words) =
    let rest = lower_words js words in if w == "" then rest else js.lower w ∷ rest

-- A plan that names the provider or the harness.
unfoldable pub is_plan_for : Runtime → String → Option String → Plan → Bool
is_plan_for js provider agent p =
    let names = lower_words js (p.provider ∷ p.harness ∷ p.id ∷ []) in
    includes names (js.lower provider) || includes names (js.lower (get_or agent "null"))

unfoldable pub plan_in : Runtime → String → Option String → Option Connections → Option Plan
plan_in js provider agent none = none
plan_in js provider agent (some conns) = find (is_plan_for js provider agent) conns.plans

-- `info.kind !== 'cli'`.
abbrev pub is_cli : Option String → Bool
is_cli none = false
is_cli (some kind) = kind == "cli"

-- `planFor`: only a CLI signs in by itself.
unfoldable pub plan_for : Desk → String → Option String → Funds → Option Plan × Funds
plan_for d subject agent s =
    let info = harness_info d agent in
    if truthy info.provider && is_cli info.kind
    then (let (conns, t) = person_connections d subject s in
        (plan_in d.js (get_or info.provider "") agent conns, t))
    else (none, s)

-- The budget as the run token takes it: 0 where there is no cap.
unfoldable pub token_budget : Desk → Option Caps → Budget
token_budget d budget =
    let caps = get_or budget (budget_for d.defaults none) in
    record { usd = get_or caps.usd 0; tokens = get_or caps.tokens 0 }

unfoldable pub token_request :
    Desk → String → String → Option String → Option String → Option Caps → Request
token_request d subject task attempt provider budget = record {
  subject = subject;
  task = some task;
  attempt = attempt;
  provider = provider;
  budget = some (token_budget d budget);
}

abbrev pub unfunded : Funding
unfunded = record { env = none; mode = "none" }

-- The environment with the minted token; a refusal is not fatal.
unfoldable pub funded_by : Desk → Option String → Option String → Bool → Minted → Funding
funded_by d agent provider own (minted t) = record {
  env = some (env_for d.quoted d.base (get_or agent "") t.token provider own);
  mode = "ai";
}
funded_by d agent provider own (refused status code) = unfunded

unfoldable pub mint_for : Desk → World → Request → Option String → Bool → Funds → Funding × Funds
mint_for d w q agent own s =
    let (answer, log) = mint d.js w q s.log in
    (funded_by d agent q.provider own answer, record s { log = log })

unfoldable pub on_plan :
    Desk → World → Request → Option String → Option Plan → Funds → Funding × Funds
on_plan d w q agent (some plan) s = (record { env = none; mode = "plan" }, s)
on_plan d w q agent none s = mint_for d w q agent false s

-- The person's own key wins over their plan.
unfoldable pub funded : Desk → World → Request → Option String → Bool → Funds → Funding × Funds
funded d w q agent own s =
    let (plan, t) = plan_for d q.subject agent s in
    if own then mint_for d w q agent true s else on_plan d w q agent plan t

unfoldable pub funded_with :
    Desk
    → Option World
    → String
    → String
    → Option String
    → Option String
    → Option Caps
    → Funds
    → Funding × Funds
funded_with d none subject task attempt agent budget s = (unfunded, s)
funded_with d (some w) subject task attempt agent budget s =
    let provider = provider_for d agent in
    let (own, t) = has_own_key d subject provider s in
    funded d w (token_request d subject task attempt provider budget) agent own t

-- `attemptEnv`, and `fundTurn` with no budget of its own.
unfoldable pub attempt_env :
    Desk → String → String → Option String → Option String → Option Caps → Funds → Funding × Funds
attempt_env d subject task attempt agent budget s =
    funded_with d d.tokens subject task attempt agent budget s

unfoldable pub fund_turn :
    Desk → String → String → Option String → Option String → Funds → Funding × Funds
fund_turn d subject task attempt agent s = attempt_env d subject task attempt agent none s

-- `{ ...env, ...git }`.
unfoldable pub merge_env : Env → Env → Env
merge_env env git = keep (λ (k, v). not (is_some (lookup k git))) env ++ git

-- The forge's environment for a repository, empty where it gives none.
unfoldable pub git_env : Option (String → Option Env) → Option String → Env
git_env none repo = []
git_env (some job_env) repo = if truthy repo then get_or (job_env (get_or repo "")) [] else []

-- `withEnv`.
unfoldable pub with_env : Option (String → Option Env) → Input → Option Env → Input
with_env forge args env =
    let all = merge_env (get_or env []) (git_env forge args.repo) in
    if is_nil all then args else record args { env = all }
