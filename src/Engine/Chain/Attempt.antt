-- ===== src/Engine/Chain/Attempt.antt =====
-- engine/chain.js: an attempt, and the reason that a failed one stopped for. Attempts are the same
-- when their keys are; an absent text, "" included, is `none`.
use open_vibe_codes.Prelude.{
  ℕ, String, Bool, true, false, Option, List, ◌||◌, if◌then◌else◌, ◌==◌, string_eq, get_or,
}
use open_vibe_codes.Runtime.{Runtime}
use open_vibe_codes.Engine.Budget.{Status, Limit}

pub data Reason : Type 0 where
  stopped limit auth capacity refused error budget unknown : Reason
  crash timeout incomplete context hung turns : Reason

-- The reason as the source spells it.
abbrev pub reason_word : Reason → String
reason_word Reason.stopped = "stopped"
reason_word Reason.limit = "limit"
reason_word Reason.auth = "auth"
reason_word Reason.capacity = "capacity"
reason_word Reason.refused = "refused"
reason_word Reason.error = "error"
reason_word Reason.budget = "budget"
reason_word Reason.unknown = "unknown"
reason_word Reason.crash = "crash"
reason_word Reason.timeout = "timeout"
reason_word Reason.incomplete = "incomplete"
reason_word Reason.context = "context"
reason_word Reason.hung = "hung"
reason_word Reason.turns = "turns"

-- `REASON_TEXT`.
abbrev pub reason_text : Reason → String
reason_text Reason.stopped = "was cancelled before it finished"
reason_text Reason.limit = "hit its usage limit"
reason_text Reason.auth = "lost its sign-in"
reason_text Reason.capacity = "model was at capacity"
reason_text Reason.refused = "was turned off in the portal"
reason_text Reason.error = "stopped with an error"
reason_text Reason.budget = "stopped at its limit"
reason_text Reason.unknown = "stopped"
reason_text Reason.crash = "the process died without an answer"
reason_text Reason.timeout = "it ran out of time"
reason_text Reason.incomplete = "it stopped before the work was done"
reason_text Reason.context = "the context grew too big"
reason_text Reason.hung = "it went quiet for too long"
reason_text Reason.turns = "stopped at its turn cap, mid-work"

-- `SWITCHABLE`: the reasons that the runner switch owns.
abbrev pub is_switchable : Reason → Bool
is_switchable Reason.limit = true
is_switchable Reason.auth = true
is_switchable Reason.capacity = true
is_switchable Reason.refused = true
is_switchable _ = false

-- A line of a transcript, as `facts` reads it.
pub data Event : Type 0 where
  final : (text : Option String) (is_error : Bool) → Event
  failure : (text : Option String) → Event
  other : Event

pub record Facts : Type 0 where
  pub exit : Option ℕ
  pub final_text : String
  pub has_final : Bool
  pub api_error : String
  pub stop_kind : String
  pub session : Option String

-- How a failed attempt was resolved: by the owner's note, by a stop on purpose, or by another run.
pub data How : Type 0 where
  note stopped done running failed budget : How

pub record Resolved : Type 0 where
  pub how : How
  pub by : Option String

pub record Attempt : Type 0 where
  pub key : String
  pub runner : String
  pub name : String
  pub runner_name : String
  pub status : Status
  pub updated : ℕ
  pub error : Option String
  pub reason : Option Reason
  pub next : Option String
  pub prev : Option String
  pub parent : Option String
  pub resolved_note : Option String
  pub resolved : Option Resolved
  pub budget_hit : Option Limit
  pub wrap_up : Bool
  pub hung : Bool
  pub attempt : Option ℕ
  pub model : Option String
  pub effort : Option String
  pub events : List Event
  pub facts : Facts

abbrev pub no_result_re : String
no_result_re =
    "Command Code ended without a result\\s*\\(credits, rate limit or a crash: check its exit code\\) i"

abbrev pub refused_re : String
refused_re = "turned off in the agent portal|portal limit i"

abbrev pub limit_re : String
limit_re =
    "usage limit|reached your [\\w -]*limit|limit (exceeded|reached)|rate.?limit|quota|insufficient[ _]balance|insufficient_quota|plan_allowance_exhausted|out of credits|\\b402\\b|(?:HTTP(?: status)?|status(?: code)?|Request rejected)\\s*[:=(]?\\s*429\\b i"

abbrev pub auth_re : String
auth_re =
    "authenticat|log ?in again|run .?cmd login|\\b401\\b|api key (has )?expired|invalid api key|unauthori[sz]ed|not signed in i"

abbrev pub capacity_re : String
capacity_re = "at capacity|overloaded|\\b529\\b|\\b503\\b|temporarily unavailable|server is busy i"

abbrev pub mcode_re : String
mcode_re = "mcode exec failed:.*Internal server error.*\\(50[024]\\) i"

abbrev pub http_re : String
http_re = "(?:HTTP(?: status)?|status(?: code)?)\\s*[:=]?\\s*50[024]\\b i"

abbrev pub turns_re : String
turns_re = "\\bmax[_ ]turns\\b|error_max_turns|turn limit|maximum (?:number of )?turns i"

module _ (js : Runtime) where
  open js use {test, replace}

  -- The ladder of tests in `reason`, over the text without the wrapper's speculative causes.
  unfoldable pub reason_from : String → Reason
  reason_from s =
      if s == ""
      then Reason.unknown
      else if test refused_re s
      then Reason.refused
      else if test limit_re s
      then Reason.limit
      else if test auth_re s
      then Reason.auth
      else if test capacity_re s
      then Reason.capacity
      else if test mcode_re s || test http_re s
      then Reason.capacity
      else if test turns_re s
      then Reason.turns
      else Reason.error

  unfoldable pub reason_of : Option String → Reason
  reason_of text =
      reason_from (replace no_result_re "Command Code ended without a result" (get_or text ""))
