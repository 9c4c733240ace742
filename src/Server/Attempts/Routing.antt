-- ===== src/Server/Attempts/Routing.antt =====
-- server/domain/attempts.js: what Codes hands to the engine: the runners of its catalog with their
-- ladder, and the facts of a job's log. The catalog is an argument: a harness's models, if it is
-- offered.
use open_vibe_codes.Prelude.{
  ℕ, String, Bool, true, false, not, ◌&&◌, Option, none, some, List, [], ◌∷◌, map, if◌then◌else◌,
  ◌==◌, string_eq, lookup, get_or, or_else, keep, is_some,
}
use open_vibe_codes.Engine.Router.Windows.{Row}
use open_vibe_codes.Engine.Router.Pick.{Subagent, Rung, Context}
use open_vibe_codes.Engine.Chain.Runner.{Options}
use open_vibe_codes.Server.Attempts.Plan.{runner_of_harness}

abbrev pub fallback_order : List String
fallback_order = "cx" ∷ "mm" ∷ "cc" ∷ "oc" ∷ "dsh" ∷ []

abbrev pub tier_order : List (String × List String)
tier_order =
    ("basic", "opencode" ∷ "command-code" ∷ "minimax-code" ∷ "deepseek" ∷ [])
    ∷ ("research", "codex" ∷ "minimax-code" ∷ "deepseek" ∷ "opencode" ∷ [])
    ∷ ("standard", "minimax-code" ∷ "codex" ∷ "command-code" ∷ "opencode" ∷ "deepseek" ∷ [])
    ∷ ("hard", "codex" ∷ "minimax-code" ∷ "deepseek" ∷ [])
    ∷ ("design", "codex" ∷ "minimax-code" ∷ "opencode" ∷ "deepseek" ∷ [])
    ∷ []

abbrev pub tier_effort : List (String × String)
tier_effort =
    ("basic", "low")
    ∷ ("research", "medium")
    ∷ ("standard", "high")
    ∷ ("hard", "high")
    ∷ ("design", "high")
    ∷ []

-- `router.TIERS`.
abbrev pub tiers : List String
tiers = "basic" ∷ "research" ∷ "standard" ∷ "hard" ∷ "design" ∷ []

-- The models of a harness's offer, by its id.
abbrev pub Catalog : Type 0
Catalog = String → Option (List String)

-- The harnesses that are offered, with their runners.
unfoldable pub offered : Catalog → List (String × String)
offered catalog = keep (λ (id, runner). is_some (catalog id)) runner_of_harness

unfoldable pub subagents_of : Catalog → List (String × Subagent)
subagents_of catalog =
    map
      (λ (id, runner).
        (runner, record { enabled = not (id == "claude-code"); max = 4; model = none }))
      (offered catalog)

unfoldable pub models_of : Catalog → List (String × List String)
models_of catalog =
    map (λ (id, runner). (runner, keep (λ m. not (m == "")) (get_or (catalog id) [])))
      (offered catalog)

unfoldable pub tier_rungs : Catalog → String → List Rung
tier_rungs catalog tier =
    keep (λ (r : Rung). is_some (lookup r.runner (subagents_of catalog)))
      (map
        (λ id. record {
          runner = get_or (lookup id runner_of_harness) "";
          model = none;
          effort = lookup tier tier_effort;
        })
        (get_or (lookup tier tier_order) []))

-- `routing`, as the router takes it.
unfoldable pub routing : Catalog → Option (List (String × Row)) → ℕ → Context
routing catalog fleet now = record {
  subagents = subagents_of catalog;
  health = map (λ (id, runner). (runner, "ok")) (offered catalog);
  counts = [];
  models = models_of catalog;
  runs = [];
  ladder = map (λ tier. (tier, tier_rungs catalog tier)) tiers;
  connections = none;
  fleet = fleet;
  now = now;
}

abbrev pub is_on : Option Subagent → Bool
is_on none = false
is_on (some s) = s.enabled

-- `routing`, as the chain engine takes it.
unfoldable pub routing_options : Catalog → Options
routing_options catalog = record {
  subagents = subagents_of catalog;
  order = keep (λ r. is_on (lookup r (subagents_of catalog))) fallback_order;
  health = map (λ (id, runner). (runner, "ok")) (offered catalog);
  counts = [];
  models = models_of catalog;
  runners = map (λ (id, runner). runner) (offered catalog);
  tier = none;
}

-- A line of a job's log, as `factsOf` reads it; `failed` says that its `ok` is false.
pub data LogLine : Type 0 where
  finished : (text : Option String) (failed : Bool) → LogLine
  error_note : (text : Option String) → LogLine
  other : LogLine

pub record JobFacts : Type 0 where
  pub has_final : Bool
  pub final_text : String
  pub api_error : String

unfoldable pub read_line : LogLine → JobFacts → JobFacts
read_line (finished text failed) f =
    let said = get_or (or_else text (some f.final_text)) "" in
    record {
      has_final = true;
      final_text = said;
      api_error =
          if failed && f.api_error == ""
          then (if said == "" then "the agent ended without an answer" else said)
          else f.api_error;
    }
read_line (error_note text) f =
    if f.api_error == "" then record f { api_error = get_or text "" } else f
read_line other f = f

unfoldable pub read_lines : List LogLine → JobFacts → JobFacts
read_lines [] f = f
read_lines (line ∷ lines) f = read_lines lines (read_line line f)

-- `factsOf`.
unfoldable pub facts_of : List LogLine → JobFacts
facts_of lines = read_lines lines (record { has_final = false; final_text = ""; api_error = "" })
