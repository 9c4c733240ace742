-- ===== src/Engine/Budget.antt =====
-- engine/budget.js: the per-task budget. Time is counted in milliseconds (a minute is 60000), and
-- dollars in millionths, so the comparisons and roundings of the source are exact here; `none` is
-- null. A limit that is not a number above 0 reads as no limit (`positive`).
pub mod Laws
use open_vibe_codes.Prelude.{
  ℕ, ◌+◌, ◌*◌, ◌/◌, String, Bool, true, false, Option, none, some, List, [], ◌∷◌, leb, ltb,
  if◌then◌else◌, lookup, get_or, ◌&&◌,
}

-- The states of a task.
pub data Status : Type 0 where
  queued running done failed interrupted stopped budget_stopped : Status

pub data Limit : Type 0 where
  steps minutes usd : Limit

-- Limits and override, and what a task spent: { steps, minutes, usd }.
pub record Limits : Type 0 where
  pub steps : Option ℕ
  pub minutes : Option ℕ
  pub usd : Option ℕ

pub record Spent : Type 0 where
  pub steps : ℕ
  pub minutes : Option ℕ
  pub usd : Option ℕ

-- The budget of the config: the default limits, and those of each runner.
pub record BudgetConfig : Type 0 where
  pub all : Limits
  pub per_runner : List (String × Limits)

abbrev pub no_limits : Limits
no_limits = record { steps = none; minutes = none; usd = none }

-- `num` of `limitsFor`.
unfoldable pub positive : Option ℕ → Option ℕ
positive none = none
positive (some n) = if ltb 0 n then some n else none

-- `per.steps != null ? per.steps : b.steps`.
abbrev pub prefer : Option ℕ → Option ℕ → Option ℕ
prefer none b = b
prefer (some n) b = some n

-- One limit: the override where it is given, else the runner's own, else the default.
unfoldable pub limit_of : Option ℕ → Option ℕ → Option ℕ → Option ℕ
unfolding positive
limit_of none per b = positive (prefer per b)
limit_of (some n) per b = positive (some n)

unfoldable pub limits_for : BudgetConfig → String → Option Limits → Limits
limits_for b runner override =
    let per = get_or (lookup runner b.per_runner) no_limits in
    let o = get_or override no_limits in
    record {
      steps = limit_of o.steps per.steps b.all.steps;
      minutes = limit_of o.minutes per.minutes b.all.minutes;
      usd = limit_of o.usd per.usd b.all.usd;
    }

abbrev pub turn_margin : ℕ
turn_margin = 25

abbrev pub minute_margin : ℕ
minute_margin = 5

abbrev pub no_turn_cap : ℕ
no_turn_cap = 100000

-- The harness's own caps; `timeout` in minutes, which the source writes with an "m" behind it.
pub record Caps : Type 0 where
  pub max_turns : ℕ
  pub timeout_ms : ℕ
  pub timeout : ℕ

-- `Math.round(minutes * 60)` of a time in milliseconds: whole seconds, a half goes up.
abbrev pub round_seconds : ℕ → ℕ
round_seconds ms = (ms + 500) / 1000

abbrev pub timeout_ms_of : Option ℕ → ℕ
timeout_ms_of none = 0
timeout_ms_of (some ms) = (round_seconds ms + minute_margin * 60) * 1000

abbrev pub max_turns_of : Option ℕ → ℕ
max_turns_of none = no_turn_cap
max_turns_of (some n) = n + turn_margin

unfoldable pub caps : Limits → Caps
unfolding positive
caps limits =
    let ms = timeout_ms_of (positive limits.minutes) in
    record {
      max_turns = max_turns_of (positive limits.steps);
      timeout_ms = ms;
      timeout = if ltb 0 ms then (ms + 59999) / 60000 else no_turn_cap;
    }

-- A limit that is set, and an amount that is known and has reached it.
abbrev pub reached : Option ℕ → Option ℕ → Bool
reached none used = false
reached (some cap) none = false
reached (some cap) (some n) = leb cap n

pub record Evaluation : Type 0 where
  pub hit : Option Limit
  pub limits : Limits
  pub used : Spent

-- `Math.round(minutes * 10) / 10`: to a tenth of a minute, a half goes up.
abbrev pub round_tenths : Option ℕ → Option ℕ
round_tenths none = none
round_tenths (some ms) = some ((ms + 3000) / 6000 * 6000)

unfoldable pub evaluate : Spent → Limits → Evaluation
evaluate used limits = record {
  hit =
      if reached limits.steps (some used.steps)
      then some Limit.steps
      else if reached limits.minutes used.minutes
      then some Limit.minutes
      else if reached limits.usd used.usd
      then some Limit.usd
      else none;
  limits = limits;
  used = record { steps = used.steps; minutes = round_tenths used.minutes; usd = used.usd };
}

-- The task's state for a status: `stopped`, like any other word, reads as done.
unfoldable pub state : Status → Status
state running = running
state queued = queued
state budget_stopped = budget_stopped
state failed = failed
state interrupted = failed
state done = done
state stopped = done

pub data Action : Type 0 where
  wrap_up_turn : Action
  stop : Action

-- One wrap-up turn after a steps or minutes stop; `prompt` is whether the wrap-up prompt is sent.
pub record WrapUp : Type 0 where
  pub action : Action
  pub prompt : Option Limit

unfoldable pub wrap_up : Option Limit → Bool → WrapUp
wrap_up (some Limit.usd) ran = record { action = stop; prompt = none }
wrap_up hit true = record { action = stop; prompt = none }
wrap_up none false = record { action = stop; prompt = none }
wrap_up (some hit) false = record { action = wrap_up_turn; prompt = some hit }
