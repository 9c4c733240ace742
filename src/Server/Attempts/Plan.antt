-- ===== src/Server/Attempts/Plan.antt =====
-- server/domain/attempts.js: what follows when an attempt ends. `nextAgent` asks the engine's router,
-- and `decide` turns the engine's step into a plan; the step and the engine's reason are arguments. A
-- prompt is reduced to the note that is put behind the task's own, a line of words to what it says.
use open_vibe_codes.Prelude.{
  ℕ, String, Bool, false, not, ◌&&◌, ◌||◌, Option, none, some, List, [], ◌∷◌, if◌then◌else◌, ◌==◌,
  string_eq, nat_eq, leb, lookup, get_or, or_else, truthy, keep, length, template,
}
use open_vibe_codes.Runtime.{Runtime}
use open_vibe_codes.Engine.Effort.{fit_effort}
use open_vibe_codes.Engine.Budget.{Limit, Action}
use open_vibe_codes.Engine.Router.Windows.{room_for}
use open_vibe_codes.Engine.Router.Classify.{classify}
use open_vibe_codes.Engine.Router.Pick.{
  Rung, Context, Choice, has_slot, is_healthy, model_for, pick,
}
use open_vibe_codes.Engine.Chain.Attempt.{Reason, reason_word}
use open_vibe_codes.Engine.Chain.Step.{Step}
use open_vibe_codes.Engine.Chain.Runner.{Takeover}
use open_vibe_codes.Server.Attempts.{Row}

abbrev pub runner_of_harness : List (String × String)
runner_of_harness =
    ("claude-code", "claude")
    ∷ ("codex", "cx")
    ∷ ("command-code", "cc")
    ∷ ("opencode", "oc")
    ∷ ("deepseek", "dsh")
    ∷ ("minimax-code", "mm")
    ∷ []

abbrev pub harness_of_runner : List (String × String)
harness_of_runner =
    ("claude", "claude-code")
    ∷ ("cx", "codex")
    ∷ ("cc", "command-code")
    ∷ ("oc", "opencode")
    ∷ ("dsh", "deepseek")
    ∷ ("mm", "minimax-code")
    ∷ []

-- `RUNNER_OF[agent] || (agent || 'auto')`.
unfoldable pub runner_of : Option String → String
runner_of none = "auto"
runner_of (some agent) =
    if agent == "" then "auto" else get_or (lookup agent runner_of_harness) agent

-- The agent that takes over.
pub record Agent : Type 0 where
  pub runner : String
  pub agent : Option String
  pub model : Option String
  pub effort : Option String
  pub tier : String
  pub why : String

-- The test of `nextAgent`: the router's, without the record of runs and the connections.
unfoldable pub is_free : Context → String → Bool
is_free ctx r =
    has_slot (lookup r ctx.subagents) (get_or (lookup r ctx.counts) 0)
    && (is_healthy (lookup r ctx.health) && room_for ctx.fleet r ctx.now)

unfoldable pub may_take : Context → String → String → Bool
may_take ctx exclude r = not (r == exclude) && is_free ctx r

-- `model || null`.
abbrev pub word_or_null : Option String → Option String
word_or_null m = if truthy m then m else none

unfoldable pub shape : Runtime → String → String → Option String → Option String → String → Agent
shape js tier runner model effort why = record {
  runner = runner;
  agent = lookup runner harness_of_runner;
  model = word_or_null model;
  effort = fit_effort js.lower runner effort;
  tier = tier;
  why = why;
}

-- The loop over the tier's rungs.
unfoldable pub first_free :
    Runtime → Context → String → String → Option String → List Rung → Option Agent
first_free js ctx exclude tier why [] = none
first_free js ctx exclude tier why (r ∷ rungs) =
    if may_take ctx exclude r.runner
    then some (
        shape js tier r.runner (model_for ctx.models r.runner r.model) r.effort
          (get_or why (template (tier ∷ " → " ∷ r.runner ∷ []))))
    else first_free js ctx exclude tier why rungs

unfoldable pub rungs_of : Context → String → List Rung
rungs_of ctx tier = get_or (lookup tier ctx.ladder) []

-- What was picked is taken when it may take the task, else the ladder is walked.
unfoldable pub picked_or_first : Runtime → Context → String → String → Option Choice → Option Agent
picked_or_first js ctx exclude tier none = first_free js ctx exclude tier none (rungs_of ctx tier)
picked_or_first js ctx exclude tier (some c) =
    if may_take ctx exclude c.runner
    then some (shape js c.tier c.runner c.model c.effort c.why)
    else first_free js ctx exclude c.tier (some c.why) (rungs_of ctx c.tier)

unfoldable pub from_pick :
    Runtime → Context → String → String → Option (Option Choice) → Option (Option Agent)
from_pick js ctx exclude tier none = none
from_pick js ctx exclude tier (some picked) = some (picked_or_first js ctx exclude tier picked)

-- `nextAgent`; `none` outside is the router's error on a tier without a ladder.
unfoldable pub next_agent : Runtime → Context → String → String → Option (Option Agent)
next_agent js ctx prompt exclude =
    from_pick js ctx exclude (classify js prompt none).tier (pick js ctx prompt none)

-- What is put behind the task's prompt.
pub data Note : Type 0 where
  wrapping_up : Limit → Note
  continuation : (words : String) → Note
  hand_over : (words : String) → Note

pub data Plan : Type 0 where
  done unfinished stopped running : Plan
  follow_up : (kind : String) (agent model session : Option String) → Note → Plan

abbrev pub is_money : Option String → Bool
is_money none = false
is_money (some hit) = hit == "usd" || hit == "tokens"

-- `ending.reason || out.reason || 'error'`.
unfoldable pub reason_of_ending : Row → Option Reason → String
reason_of_ending ending none = get_or (or_else ending.reason (some "error")) "error"
reason_of_ending ending (some why) = get_or (or_else ending.reason (some (reason_word why))) "error"

-- How many of the attempts up to the ending are automatic continues.
unfoldable pub continues : List Row → Row → ℕ
continues attempts ending = length (keep (λ r. leb r.n ending.n && r.kind == "continue") attempts)

-- The agent of a switch: the one that was found, else the engine's own choice.
unfoldable pub switch_plan : Row → String → Takeover → Option Agent → Plan
switch_plan ending reason t (some a) =
    if truthy a.agent
    then follow_up "switch" a.agent a.model none (hand_over reason)
    else unfinished
switch_plan ending reason t none =
    let agent = lookup t.runner harness_of_runner in
    if truthy agent
    then follow_up "switch" agent (word_or_null t.model) none (hand_over reason)
    else unfinished

unfoldable pub limit_plan : Row → Action → Limit → Plan
limit_plan ending Action.wrap_up_turn hit =
    follow_up "wrap-up" ending.agent ending.model (word_or_null ending.session) (wrapping_up hit)
limit_plan ending Action.stop hit = stopped

-- `decide` behind the budget's own stop; `choice` is what `nextAgent` found.
unfoldable pub plan_of : ℕ → ℕ → Row → String → Option Agent → Step → Plan
plan_of max_continues count ending reason choice (Step.nothing why) = unfinished
plan_of max_continues count ending reason choice (Step.wait why) = running
plan_of max_continues count ending reason choice (Step.done why) = done
plan_of max_continues count ending reason choice (Step.stop why) = stopped
plan_of max_continues count ending reason choice (Step.at_limit action hit prompt) =
    limit_plan ending action hit
plan_of max_continues count ending reason choice (Step.continue session why) =
    if leb max_continues count
    then unfinished
    else follow_up "continue" ending.agent ending.model (some session) (continuation reason)
plan_of max_continues count ending reason choice (Step.restart why) =
    follow_up "restart" ending.agent ending.model none (continuation reason)
plan_of max_continues count ending reason choice (Step.switch t effort) =
    switch_plan ending reason t choice
plan_of max_continues count ending reason choice (Step.failed why) = unfinished

unfoldable pub decide : ℕ → List Row → Row → Option Reason → Option Agent → Step → Plan
decide max_continues attempts ending why choice step =
    let reason = reason_of_ending ending why in
    if reason == "budget" && is_money ending.budget_hit
    then unfinished
    else plan_of max_continues (continues attempts ending) ending reason choice step
