-- ===== src/Server/RunTasks/Spending.antt =====
-- server/domain/run-tasks.js: the budget of a task: `budgetFor`, `tokenSpend`, `taskSpend`,
-- `remainingBudget` and `budgetLeftNote`. Dollars are in millionths.
use open_vibe_codes.Prelude.{
  ℕ, ◌+◌, ◌-◌, ◌*◌, ◌/◌, String, Bool, false, ◌||◌, Option, none, some, List, [], ◌∷◌,
  if◌then◌else◌, ◌==◌, string_eq, ltb, leb, get_or, is_some, keep, find, template, ◌++◌,
}
use open_vibe_codes.Runtime.{Runtime, Urls}
use open_vibe_codes.Engine.Budget.{BudgetConfig}
use open_vibe_codes.Server.Attempts.{Row as Attempt, of_task}

-- A row of codes_run_tokens.
pub record Token : Type 0 where
  pub jti : String
  pub task_id : String
  pub attempt_id : Option String
  pub created_at : ℕ

-- Dollars and tokens: a cap where it is set.
pub record Caps : Type 0 where
  pub usd : Option ℕ
  pub tokens : Option ℕ

pub record Amount : Type 0 where
  pub usd : ℕ
  pub tokens : ℕ

-- What the operations use: texts, addresses, the owner's limits and the default budget of the
-- configuration, the run tokens (none when the service mints none), what OpenVibe.AI counted for
-- one, how dollars are written with some decimals, and a whole number.
pub record Env : Type 0 where
  pub js : Runtime
  pub urls : Urls
  pub config : BudgetConfig
  pub defaults : Caps
  pub tokens : Option (List Token)
  pub counter : String → Option Amount
  pub fixed : ℕ → ℕ → String
  pub shown : ℕ → String

-- `pick`: the task's own number above 0, else the default's.
abbrev pub above_zero : Option ℕ → Option ℕ
above_zero none = none
above_zero (some n) = if ltb 0 n then some n else none

abbrev pub either : Option ℕ → Option ℕ → Option ℕ
either none b = b
either (some a) b = some a

-- `budgetFor`.
unfoldable pub budget_for : Caps → Option Caps → Caps
budget_for defaults none = record {
  usd = above_zero defaults.usd;
  tokens = above_zero defaults.tokens;
}
budget_for defaults (some limits) = record {
  usd = either (above_zero limits.usd) (above_zero defaults.usd);
  tokens = either (above_zero limits.tokens) (above_zero defaults.tokens);
}

abbrev pub of_attempt : String → Option String → Bool
of_attempt id none = false
of_attempt id (some a) = a == id

-- `ORDER BY created_at DESC LIMIT 1`.
unfoldable pub later : Token → Option Token → Token
later t none = t
later t (some u) = if ltb t.created_at u.created_at then u else t

unfoldable pub latest : List Token → Option Token
latest [] = none
latest (t ∷ tokens) = some (later t (latest tokens))

unfoldable pub spend_of : Env → Option Token → Option Amount
spend_of env none = none
spend_of env (some t) = if t.jti == "" then none else env.counter t.jti

-- `tokenSpend`: what OpenVibe.AI counted for the last token of an attempt.
unfoldable pub token_spend : Env → String → Option Amount
token_spend env attempt =
    spend_of env
      (latest (keep (λ (t : Token). of_attempt attempt t.attempt_id) (get_or env.tokens [])))

abbrev pub reported : Option Attempt → Amount
reported none = record { usd = 0; tokens = 0 }
reported (some a) = record { usd = get_or a.cost_usd 0; tokens = get_or a.tokens 0 }

abbrev pub attempt_of : List Attempt → Option String → Option Attempt
attempt_of attempts none = none
attempt_of attempts (some id) =
    if id == "" then none else find (λ (a : Attempt). a.id == id) attempts

-- What one token spent: as OpenVibe.AI counted it, else as the attempt reported it.
unfoldable pub counted_or_reported : List Attempt → Token → Option Amount → Amount
counted_or_reported attempts t (some s) = s
counted_or_reported attempts t none = reported (attempt_of attempts t.attempt_id)

abbrev pub add_amount : Amount → Amount → Amount
add_amount a b = record { usd = a.usd + b.usd; tokens = a.tokens + b.tokens }

unfoldable pub sum_tokens : Env → List Attempt → List Token → Amount
sum_tokens env attempts [] = record { usd = 0; tokens = 0 }
sum_tokens env attempts (t ∷ tokens) =
    add_amount (counted_or_reported attempts t (env.counter t.jti)) (sum_tokens env attempts tokens)

-- `taskSpend`.
unfoldable pub task_spend : Env → List Attempt → String → Amount
task_spend env attempts task_id =
    if task_id == ""
    then record { usd = 0; tokens = 0 }
    else sum_tokens env attempts (keep (λ (t : Token). t.task_id == task_id) (get_or env.tokens []))

-- `Math.round(usd * 10000) / 10000`, a half goes up.
abbrev pub round_usd : ℕ → ℕ
round_usd usd = (usd + 50) / 100 * 100

pub record Budget : Type 0 where
  pub caps : Caps
  pub spent : Amount
  pub left : Caps
  pub exhausted : Bool

abbrev pub left_usd : Option ℕ → ℕ → Option ℕ
left_usd none spent = none
left_usd (some usd) spent = some (round_usd (usd - spent))

abbrev pub left_tokens : Option ℕ → ℕ → Option ℕ
left_tokens none spent = none
left_tokens (some tokens) spent = some (tokens - spent)

abbrev pub is_zero : Option ℕ → Bool
is_zero none = false
is_zero (some n) = leb n 0

abbrev pub capped : Caps → Bool
capped c = is_some c.usd || is_some c.tokens

unfoldable pub budget_of : Caps → Amount → Budget
budget_of c spent =
    let usd = left_usd c.usd spent.usd in
    let tokens = left_tokens c.tokens spent.tokens in
    record {
      caps = c;
      spent = spent;
      left = record { usd = usd; tokens = tokens };
      exhausted = is_zero usd || is_zero tokens;
    }

-- The cap of the first attempt; of a task before the budgets, the default's.
abbrev pub first_caps : List Attempt → Caps
first_caps [] = record { usd = none; tokens = none }
first_caps (a ∷ attempts) = record { usd = a.budget_usd; tokens = a.budget_tokens }

unfoldable pub caps_of : Caps → List Attempt → Caps
caps_of defaults attempts =
    if capped (first_caps attempts) then first_caps attempts else budget_for defaults none

-- `remainingBudget` over the table of attempts; both of its callers have listed the task's attempts
-- before, so that the list has its first.
unfoldable pub remaining_budget : Env → List Attempt → String → Budget
remaining_budget env attempts task_id =
    let c = caps_of env.defaults (of_task attempts task_id) in
    budget_of c
      (if capped c then task_spend env attempts task_id else record { usd = 0; tokens = 0 })

abbrev pub joined : List String → String
joined [] = ""
joined (s ∷ []) = s
joined (s ∷ rest) = let more = joined rest in template (s ∷ ", " ∷ more ∷ [])

abbrev pub usd_part : Env → Amount → Option ℕ → List String
usd_part env spent none = []
usd_part env spent (some usd) =
    template ("$" ∷ env.fixed 4 spent.usd ∷ " of $" ∷ env.fixed 2 usd ∷ []) ∷ []

abbrev pub token_part : Env → Amount → Option ℕ → List String
token_part env spent none = []
token_part env spent (some tokens) =
    template (env.shown spent.tokens ∷ " of " ∷ env.shown tokens ∷ " tokens" ∷ []) ∷ []

unfoldable pub left_note : List String → String
left_note [] = "stopped at its budget"
left_note (s ∷ parts) = template ("stopped at its budget: " ∷ joined (s ∷ parts) ∷ " spent" ∷ [])

-- `budgetLeftNote`.
unfoldable pub budget_left_note : Env → Budget → String
budget_left_note env b =
    left_note (usd_part env b.spent b.caps.usd ++ token_part env b.spent b.caps.tokens)
