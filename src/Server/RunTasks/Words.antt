-- ===== src/Server/RunTasks/Words.antt =====
-- server/domain/run-tasks.js: what is read out of a job and its result: the error, the machine, the
-- reason an attempt ended for, what it spent, and which limit it reached.
use open_vibe_codes.Prelude.{
  ℕ, zero, suc, ◌+◌, ◌-◌, String, Bool, ◌&&◌, ◌||◌, Option, none, some, List, [], ◌∷◌,
  if◌then◌else◌, ◌==◌, string_eq, ltb, get_or, or_else, truthy, template, includes, is_some,
}
use open_vibe_codes.Runtime.{Runtime}
use open_vibe_codes.Engine.Budget.{Limit, Limits, BudgetConfig, limits_for, evaluate}
use open_vibe_codes.Engine.Chain.Attempt.{Reason, reason_word, reason_of as chain_reason}
use open_vibe_codes.Server.Attempts.{Row as Attempt}
use open_vibe_codes.Server.RunTasks.{Line, Doc, JobError, said, coded, Job}

-- `detail ? ': ' + detail : ''`.
abbrev pub detail_text : Option String → String
detail_text none = ""
detail_text (some d) = if d == "" then "" else template (": " ∷ d ∷ [])

unfoldable pub error_text : Runtime → JobError → Option String
error_text js (said s) = if s == "" then none else some (js.cut 1000 s)
error_text js (coded code detail) =
    some (
      js.cut 1000
        (template (get_or (or_else code (some "run.error")) "" ∷ detail_text detail ∷ [])))

unfoldable pub error_of_job : Runtime → Option JobError → Option String
error_of_job js none = none
error_of_job js (some e) = error_text js e

-- `errorOf`.
unfoldable pub error_of : Runtime → Option Job → Option String
error_of js none = none
error_of js (some job) = error_of_job js job.error

abbrev pub cut_word : Runtime → ℕ → Option String → Option String
cut_word js n none = none
cut_word js n (some s) = if s == "" then none else some (js.cut n s)

-- `machineOf`: the worker's device, or the hosted sandbox.
unfoldable pub machine_of : Runtime → Option Job → Option String
machine_of js none = none
machine_of js (some job) =
    if truthy job.node then cut_word js 128 job.node else cut_word js 128 job.machine

abbrev pub hung_re : String
hung_re = "went quiet|hung|stale i"

abbrev pub too_long_re : String
too_long_re =
    "prompt is too long|context length|maximum context|context window|too many tokens|input too long i"

abbrev pub known_reason : Reason → String
known_reason Reason.unknown = "error"
known_reason why = reason_word why

-- `reasonOf`: why an attempt ended, from the job's state and what it said.
unfoldable pub reason_of : Runtime → String → Option String → String
reason_of js state text =
    let s = get_or text "" in
    if state == "cancelled"
    then "stopped"
    else if state == "expired"
    then "capacity"
    else if js.test hung_re s
    then "hung"
    else if js.test too_long_re s
    then "context"
    else known_reason (chain_reason js (some s))

pub record Usage : Type 0 where
  pub cost_usd : Option ℕ
  pub tokens : Option ℕ
  pub steps : Option ℕ
  pub session : Option String
  pub model : Option String

-- What the loop of `usageOf` keeps.
pub record Tally : Type 0 where
  pub tokens : ℕ
  pub steps : ℕ
  pub session : Option String
  pub model : Option String

-- The model that really ran wins over the one asked for.
unfoldable pub agent_model : Line → Option String → Option String
agent_model l model =
    if truthy l.resolved_model
    then l.resolved_model
    else if truthy model
    then model
    else or_else l.model none

unfoldable pub tally_line : Line → Tally → Tally
tally_line l c =
    if l.t == "usage"
    then record c { tokens = c.tokens + (l.input_tokens + l.output_tokens) }
    else if l.t == "tool"
    then record c { steps = suc c.steps }
    else if l.t == "agent"
    then record c {
      session = or_else c.session (or_else l.session none);
      model = agent_model l c.model;
    }
    else if l.t == "done" && truthy l.resolved_model
    then record c { model = l.resolved_model }
    else c

unfoldable pub tally_log : List Line → Tally → Tally
tally_log [] c = c
tally_log (l ∷ log) c = tally_log log (tally_line l c)

-- `n || null`.
abbrev pub count_or_null : ℕ → Option ℕ
count_or_null zero = none
count_or_null (suc n) = some (suc n)

abbrev pub log_of : Option Doc → List Line
log_of none = []
log_of (some d) = get_or d.log []

abbrev pub cost_of : Option Doc → Option ℕ
cost_of none = none
cost_of (some d) = d.cost_usd

abbrev pub model_of : Option Doc → Option String
model_of none = none
model_of (some d) = or_else d.resolved_model none

-- `usageOf`: what an attempt spent, and the session a resume needs.
unfoldable pub usage_of : Option Doc → Usage
usage_of d =
    let c =
      tally_log (log_of d) (record { tokens = 0; steps = 0; session = none; model = model_of d }) in
    record {
      cost_usd = cost_of d;
      tokens = count_or_null c.tokens;
      steps = count_or_null c.steps;
      session = c.session;
      model = c.model;
    }

-- The texts of the log's lines, each behind a line break.
unfoldable pub log_text : List Line → String
log_text [] = ""
log_text (l ∷ log) = let rest = log_text log in template ("\n" ∷ get_or l.text "" ∷ rest ∷ [])

-- `budgetText`: everything the run said.
unfoldable pub budget_text : Option Doc → Option String → String
budget_text result error = template (get_or error "" ∷ log_text (log_of result) ∷ [])

-- OpenVibe.AI's refusal of a run that is out of budget.
unfoldable pub budget_refused : Runtime → Option Doc → Option String → Bool
budget_refused js result error = js.test "ai\\.run_budget_reached " (budget_text result error)

-- Which budget ran out, in the refusal's words.
unfoldable pub budget_kind : Runtime → Option Doc → Option String → String
budget_kind js result error =
    if js.test "tokens? budget|tokens? of i" (budget_text result error) then "tokens" else "usd"

abbrev pub limit_word : Limit → String
limit_word Limit.steps = "steps"
limit_word Limit.minutes = "minutes"
limit_word Limit.usd = "usd"

abbrev pub has_limits : Limits → Bool
has_limits l = is_some l.steps || is_some l.minutes || is_some l.usd

-- The time between two stamps, when the second is later; a missing one reads as 0.
unfoldable pub time_between : Option ℕ → Option ℕ → Option ℕ
time_between started finished =
    let from = get_or started 0 in
    let to = get_or finished 0 in if ltb from to then some (to - from) else none

unfoldable pub hit_under : Limits → Attempt → Usage → Option Limit
hit_under limits attempt usage =
    if has_limits limits
    then (evaluate
        (record {
          steps = get_or usage.steps 0;
          minutes = time_between attempt.started_at attempt.finished_at;
          usd = usage.cost_usd;
        })
        limits).hit
    else none

-- `budgetHit`: the owner's limit that an attempt reached. A provider's own limit is none of them.
unfoldable pub budget_hit : BudgetConfig → Attempt → Usage → String → Option Limit
budget_hit config attempt usage reason =
    if includes ("error" ∷ "hung" ∷ "context" ∷ []) reason
    then hit_under (limits_for config (get_or attempt.agent "null") none) attempt usage
    else none
