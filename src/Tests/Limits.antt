-- ===== src/Tests/Limits.antt =====
-- The levels, the models and the limits on concrete tasks.
use open_vibe_codes.Prelude.{
  ℕ, ◌≡◌, refl, ◌≢◌, inl, String, true, Option, none, some, List, [], ◌∷◌, arith, get_elem?,
  includes, string_eq,
}
use open_vibe_codes.Engine.Effort.{order, accepts, fit_effort, harness_of}
use open_vibe_codes.Engine.Effort.Nearest.{fit_effort-IsNearest, IsNearest}
use open_vibe_codes.Engine.Budget.{
  Limits, Spent, BudgetConfig, limits_for, limit_of, caps, positive, evaluate,
}
use open_vibe_codes.Engine.Budget.Laws.{Explains, evaluate-Explains, caps-after-limits}
use open_vibe_codes.Tests.Fixtures.{js}

abbrev levels : List String
levels = "none" ∷ "low" ∷ "high" ∷ "max" ∷ []

fit_effort-IsNearest_example :
    (i : ℕ) × (r : String) × (fit_effort js.lower "deepseek" (some "medium") ≡ some r)
    × (get_elem? order i ≡ some r)
    × (includes levels r ≡ true)
    × IsNearest (accepts order levels) 4 i
unfolding harness_of accepts
fit_effort-IsNearest_example =
    fit_effort-IsNearest js.lower "deepseek" "medium" levels 4 3 refl refl refl

abbrev models : Option (List (String × List String))
models = some (("cx", "gpt-a" ∷ "gpt-b" ∷ []) ∷ [])

abbrev blocked : Option (List (String × List String))
blocked = some (("cx", "gpt-a" ∷ []) ∷ [])

abbrev ten_steps : Limits
ten_steps = record { steps = some 10; minutes = some 120000; usd = none }

abbrev spent : Spent
spent = record { steps = 45; minutes = some 60000; usd = some 3 }

abbrev budget : BudgetConfig
budget = record { all = ten_steps; per_runner = [] }

evaluate-Explains_example : Explains spent ten_steps (evaluate spent ten_steps).hit
evaluate-Explains_example = evaluate-Explains spent ten_steps

caps-after-limits_example : (evaluate spent (limits_for budget "cx" none)).hit ≢ none
unfolding limits_for limit_of positive caps
caps-after-limits_example =
    caps-after-limits budget "cx" none spent 60000 (inl (λ e. cc, omega arith))
