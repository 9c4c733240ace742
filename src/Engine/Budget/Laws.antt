-- ===== src/Engine/Budget/Laws.antt =====
-- engine/budget.js: what the budget guarantees.
use native.Mathlib.Nat.{le_trans, le-add_right}
use mathlib.Core.Path.{subst}
use open_vibe_codes.Prelude.{
  ℕ, ◌*◌, ◌≤◌, ◌<◌, ◌≡◌, refl, ◌≢◌, ◌↔◌, ◌⊎◌, Bool, true, false, Option, none, some, inl, inr,
  Bool-cases, Option-cases, ◌∙◌, String, arith,
}
use open_vibe_codes.Engine.Budget.{
  Limit, Limits, Spent, BudgetConfig, positive, limit_of, limits_for, caps, evaluate, wrap_up,
  wrap_up_turn, reached, timeout_ms_of, max_turns_of,
}

-- A limit is set and the amount, which is known, is at or over it.
abbrev pub Exceeds : Option ℕ → Option ℕ → Type 0
Exceeds cap used = (c : ℕ) × (n : ℕ) × (cap ≡ some c) × (used ≡ some n) × (c ≤ n)

abbrev pub Below : Option ℕ → Option ℕ → Type 0
Below cap used = (c n : ℕ) → cap ≡ some c → used ≡ some n → n < c

reached-false : (cap used : Option ℕ) → reached cap used ≡ false → Below cap used
reached-false cap used h c n e k = ground arith

reached-true : (cap used : Option ℕ) → reached cap used ≡ true → Exceeds cap used
reached-true (some c) (some n) h = (c, n, refl, refl, ground arith)
reached-true none used h = cc
reached-true (some c) none h = cc

-- What each outcome of `evaluate` says of the amounts: the first limit reached wins.
abbrev pub Explains : Spent → Limits → Option Limit → Type 0
Explains used limits (some Limit.steps) = Exceeds limits.steps (some used.steps)
Explains used limits (some Limit.minutes) =
    Below limits.steps (some used.steps) × Exceeds limits.minutes used.minutes
Explains used limits (some Limit.usd) =
    Below limits.steps (some used.steps)
    × Below limits.minutes used.minutes
    × Exceeds limits.usd used.usd
Explains used limits none =
    Below limits.steps (some used.steps)
    × Below limits.minutes used.minutes
    × Below limits.usd used.usd

-- `evaluate` names the first limit that is reached, in the order steps, minutes, dollars, and none
-- exactly when every limit that is set leaves room; a limit that is not set, or an amount that is
-- not known, stops nothing.
pub evaluate-Explains :
    (used : Spent) (limits : Limits) → Explains used limits (evaluate used limits).hit
unfolding evaluate
evaluate-Explains used limits = elim (Bool-cases (reached limits.steps (some used.steps))) [
  | inl s ↦ rw s (reached-true _ _ s)
  | inr s ↦ elim (Bool-cases (reached limits.minutes used.minutes)) [
    | inl m ↦ rw (s, m) (reached-false _ _ s, reached-true _ _ m)
    | inr m ↦ elim (Bool-cases (reached limits.usd used.usd)) [
      | inl u ↦ rw (s, m, u) (reached-false _ _ s, reached-false _ _ m, reached-true _ _ u)
      | inr u ↦ rw (s, m, u) (reached-false _ _ s, reached-false _ _ m, reached-false _ _ u)
    ]
  ]
]

-- A limit read from the config stays what it is when it is read again.
positive-limit_of : (o per b : Option ℕ) → positive (limit_of o per b) ≡ limit_of o per b
unfolding limit_of
positive-limit_of none none none = refl
positive-limit_of none none (some n) = ground arith
positive-limit_of none (some n) b = ground arith
positive-limit_of (some n) per b = ground arith

reached_of_le :
    (cap used : Option ℕ) (c n : ℕ) → cap ≡ some c → used ≡ some n → c ≤ n → reached cap used ≡ true
reached_of_le cap used c n e k le = ground arith

steps-reached :
    (l : Limits) (used : Spent)
    → positive l.steps ≡ l.steps
    → l.steps ≢ none
    → (caps l).max_turns ≤ used.steps
    → reached l.steps (some used.steps) ≡ true
unfolding caps
steps-reached l used p set h = elim (Option-cases l.steps) [
  | inl e ↦ absurd (set e)
  | inr (n, e) ↦
      reached_of_le _ _ n used.steps e refl
        (le_trans (le-add_right n 25) (subst (λ o. max_turns_of o ≤ used.steps) (p ∙ e) h))
]

minutes-reached :
    (l : Limits) (used : Spent) (ms : ℕ)
    → positive l.minutes ≡ l.minutes
    → l.minutes ≢ none
    → used.minutes ≡ some ms
    → (caps l).timeout_ms ≤ ms
    → reached l.minutes used.minutes ≡ true
unfolding caps
minutes-reached l used ms p set known h = elim (Option-cases l.minutes) [
  | inl e ↦ absurd (set e)
  | inr (n, e) ↦
      reached_of_le _ _ n ms e known (later n (subst (λ o. timeout_ms_of o ≤ ms) (p ∙ e) h))
]
  where
    later : (n : ℕ) → timeout_ms_of (some n) ≤ ms → n ≤ ms
    later n h = omega arith

limits_for-steps :
    (b : BudgetConfig) (runner : String) (override : Option Limits)
    → positive (limits_for b runner override).steps ≡ (limits_for b runner override).steps
unfolding limits_for
limits_for-steps b runner override = search positive-limit_of

limits_for-minutes :
    (b : BudgetConfig) (runner : String) (override : Option Limits)
    → positive (limits_for b runner override).minutes ≡ (limits_for b runner override).minutes
unfolding limits_for
limits_for-minutes b runner override = search positive-limit_of

-- Where the steps or the minutes are spent, a limit is named.
evaluate-ne-none :
    (used : Spent) (l : Limits)
    → (reached l.steps (some used.steps) ≡ true) ⊎ (reached l.minutes used.minutes ≡ true)
    → (evaluate used l).hit ≢ none
unfolding evaluate
evaluate-ne-none used l h = ground arith

-- A run has reached one of the harness's own caps: on turns or on time, where that limit is set.
abbrev pub HasReachedCap : Limits → Spent → ℕ → Type 0
HasReachedCap limits used ms =
    ((limits.steps ≢ none) × ((caps limits).max_turns ≤ used.steps))
    ⊎ ((limits.minutes ≢ none) × (used.minutes ≡ some ms) × ((caps limits).timeout_ms ≤ ms))

-- The harness's own caps lie above a task's limits: when a run has reached a cap whose limit is set,
-- `evaluate` names a limit, whatever else was spent.
pub caps-after-limits :
    (b : BudgetConfig) (runner : String) (override : Option Limits) (used : Spent) (ms : ℕ)
    → HasReachedCap (limits_for b runner override) used ms
    → (evaluate used (limits_for b runner override)).hit ≢ none
caps-after-limits b runner override used ms (inl (set, h)) =
    let l = limits_for b runner override in
    evaluate-ne-none used l (inl (steps-reached l used (limits_for-steps b runner override) set h))
caps-after-limits b runner override used ms (inr (set, known, h)) =
    let l = limits_for b runner override in
    evaluate-ne-none used l
      (inr (minutes-reached l used ms (limits_for-minutes b runner override) set known h))

-- The clock in whole minutes that one harness takes is never shorter than the one in milliseconds,
-- and a task without a time limit runs without a timer.
pub caps-clock :
    (limits : Limits)
    → ((caps limits).timeout_ms ≤ (caps limits).timeout * 60000)
      × ((positive limits.minutes ≡ none) ↔ ((caps limits).timeout_ms ≡ 0))
unfolding caps
caps-clock limits = ground arith

-- A task gets a wrap-up turn exactly when its steps or its minutes ran out and it had none: never
-- after a dollar stop, and at most once.
pub wrap_up_turn_iff :
    (hit : Option Limit) (ran : Bool)
    → ((wrap_up hit ran).action ≡ wrap_up_turn)
      ↔ ((ran ≡ false) × ((hit ≡ some Limit.steps) ⊎ (hit ≡ some Limit.minutes)))
unfolding wrap_up
wrap_up_turn_iff none true = ground arith
wrap_up_turn_iff none false = ground arith
wrap_up_turn_iff (some Limit.steps) ran = ground arith
wrap_up_turn_iff (some Limit.minutes) ran = ground arith
wrap_up_turn_iff (some Limit.usd) ran = ground arith
