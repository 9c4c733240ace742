-- ===== src/Server/RunTasks/Minutes.antt =====
-- server/domain/run-tasks.js, `recordState` and `budgetHit`: which limits the end of an attempt is read for.
use mathlib.Core.Option
use mathlib.Core.Option.{some-injective}
use open_vibe_codes.Prelude.{
  ap, not, ◌&&◌, All, ◌==◌, List, ℕ, ◌≡◌, ◌≢◌, refl, String, Bool, true, false, Option, none, some,
  [], ◌∷◌, arith, includes, if◌then◌else◌, Bool-cases, inl, inr, string_eq,
}
use open_vibe_codes.Engine.Budget.{Limit, Limits, BudgetConfig, evaluate, reached}
use open_vibe_codes.Server.Attempts.{Row as Attempt}
use open_vibe_codes.Server.Attempts.Updates.{
  spend, spent_row, update, coalesce, bind, bound, end, ended_row,
}
use open_vibe_codes.Server.Outbox.Emit.{World}
use open_vibe_codes.Server.RunTasks.{Row, Db, row_of, by_job, is_state, is_terminal}
use open_vibe_codes.Server.RunTasks.Spending.{Env, Amount, token_spend}
use open_vibe_codes.Server.RunTasks.Record.{
  Next, hit_of, ending_of, spend_counted, spend_refused, follow_job, is_late, write_state,
  record_on, record_state,
}
use open_vibe_codes.Server.RunTasks.Words.{
  limit_word, budget_kind, Usage, budget_hit, hit_under, has_limits, time_between,
}

time_between-unfinished : (started : Option ℕ) → time_between started none ≡ none
unfolding time_between
time_between-unfinished none = refl
time_between-unfinished (some n) = ground arith

reached-unknown : (most : Option ℕ) → reached most none ≡ false
reached-unknown none = refl
reached-unknown (some n) = refl

evaluate-unknown_minutes :
    (limits : Limits) (steps : ℕ) (minutes usd : Option ℕ)
    → minutes ≡ none
    → (evaluate (record { steps = steps; minutes = minutes; usd = usd }) limits).hit
      ≢ some Limit.minutes
unfolding evaluate
evaluate-unknown_minutes limits steps minutes usd e =
    rw (e, reached-unknown limits.minutes)
      (by_tests (reached limits.steps (some steps)) (reached limits.usd usd))
  where
    by_tests :
        (a c : Bool)
        → (if a then some Limit.steps else if c then some Limit.usd else none) ≢ some Limit.minutes
    by_tests true c h = cc
    by_tests false true h = cc
    by_tests false false h = cc

hit_under-unfinished :
    (limits : Limits) (attempt : Attempt) (usage : Usage)
    → attempt.finished_at ≡ none
    → hit_under limits attempt usage ≢ some Limit.minutes
unfolding hit_under
hit_under-unfinished limits attempt usage e h = elim (Bool-cases (has_limits limits)) [
  | inl k ↦
      evaluate-unknown_minutes limits _ (time_between attempt.started_at attempt.finished_at) _
        (rw e (time_between-unfinished attempt.started_at)) (rw (k, hit_under) at h)
  | inr k ↦ cc (rw (k, hit_under) at h)
]

budget_hit-unfinished :
    (config : BudgetConfig) (attempt : Attempt) (usage : Usage) (reason : String)
    → attempt.finished_at ≡ none
    → budget_hit config attempt usage reason ≢ some Limit.minutes
unfolding budget_hit
budget_hit-unfinished config attempt usage reason e h =
    elim (Bool-cases (includes ("error" ∷ "hung" ∷ "context" ∷ []) reason)) [
      | inl k ↦ hit_under-unfinished _ attempt usage e (rw (k, budget_hit) at h)
      | inr k ↦ cc (rw (k, budget_hit) at h)
    ]

-- The attempt is not recorded as stopped at its minutes.
abbrev pub IsUntimed : Attempt → Type 0
IsUntimed a = a.budget_hit ≢ some "minutes"

word-minutes : (l : Limit) → limit_word l ≡ "minutes" → l ≡ Limit.minutes
word-minutes Limit.steps h = cc (ap (λ s. s == "minutes") h)
word-minutes Limit.minutes h = refl
word-minutes Limit.usd h = cc (ap (λ s. s == "minutes") h)

hit_word :
    (refused tokens : Bool) (own : Option Limit)
    → own ≢ some Limit.minutes
    → (if refused then some (if tokens then "tokens" else "usd") else Option.map limit_word own)
      ≢ some "minutes"
hit_word true true own n h = cc (ap (λ s. s == "minutes") (some-injective _ _ h))
hit_word true false own n h = cc (ap (λ s. s == "minutes") (some-injective _ _ h))
hit_word false tokens none n h = cc
hit_word false tokens (some l) n h = n (ap some (word-minutes l (some-injective _ _ h)))

hit_of-unfinished :
    (env : Env) (updated : Row) (attempt : Attempt) (usage : Usage) (why : String)
    → attempt.finished_at ≡ none
    → (hit_of env updated attempt usage why).hit ≢ some "minutes"
unfolding hit_of budget_kind
hit_of-unfinished env updated attempt usage why e =
    hit_word _ _ (budget_hit env.config attempt usage why)
      (budget_hit-unfinished env.config attempt usage why e)

update-IsUntimed :
    (f : Attempt → Attempt) (id : String) (rows : List Attempt)
    → ((a : Attempt) → IsUntimed a → IsUntimed (f a))
    → All IsUntimed rows
    → All IsUntimed (update f id rows)
unfolding update
update-IsUntimed f id [] g h = tt
update-IsUntimed f id (r ∷ rows) g (h, hs) = elim (Bool-cases (r.id == id)) [
  | inl e ↦ rw e (g r h, update-IsUntimed f id rows g hs)
  | inr e ↦ rw e (h, update-IsUntimed f id rows g hs)
]

coalesce-apart :
    (new old : Option String)
    → new ≢ some "minutes"
    → old ≢ some "minutes"
    → coalesce new old ≢ some "minutes"
coalesce-apart none old n o = o
coalesce-apart (some word) old n o = n

spend_refused-IsUntimed :
    (env : Env) (id : String) (refused : Bool) (rows : List Attempt)
    → All IsUntimed rows
    → All IsUntimed (spend_refused env id refused rows)
unfolding spend_refused spend_counted spend spent_row
spend_refused-IsUntimed env id false rows h = h
spend_refused-IsUntimed env id true rows h = by_amount (token_spend env id)
  where
    by_amount : (amount : Option Amount) → All IsUntimed (spend_counted id amount rows)
    by_amount none = h
    by_amount (some s) =
        update-IsUntimed (spent_row (some s.usd) (some s.tokens)) id rows (λ a k. k) h

follow_job-IsUntimed :
    (env : Env) (now : ℕ) (next : Next) (current updated : Row) (found : Option Attempt)
    (rows : List Attempt)
    → ((a : Attempt) → found ≡ some a → a.finished_at ≡ none)
    → All IsUntimed rows
    → All IsUntimed (follow_job env now next current updated found rows)
unfolding follow_job bind bound end ended_row ending_of
follow_job-IsUntimed env now next current updated none rows e h = h
follow_job-IsUntimed env now next current updated (some a) rows e h =
    elim (Bool-cases (not (is_terminal next.state))) [
      | inl k ↦ rw k (update-IsUntimed _ a.id rows (λ a k. k) h)
      | inr k ↦ elim (Bool-cases (current.kind == "conductor")) [
        | inl l ↦ rw (k, l) (update-IsUntimed _ a.id rows (λ a k. k) h)
        | inr l ↦
            rw (k, l)
              (spend_refused-IsUntimed env a.id _ _ (
                update-IsUntimed _ a.id rows
                  (λ b u.
                    coalesce-apart _ b.budget_hit (hit_of-unfinished env updated a _ _ (e a refl))
                      u)
                  h))
      ]
    ]

record_on-IsUntimed :
    (env : Env) (w : World) (next : Next) (current : Option Row) (db : Db)
    → ((r : Row) (a : Attempt)
        → current ≡ some r
        → by_job db.attempts r.job_id ≡ some a
        → a.finished_at ≡ none)
    → All IsUntimed db.attempts
    → All IsUntimed (record_on env w next current db).attempts
unfolding record_on write_state
record_on-IsUntimed env w next none db e h = h
record_on-IsUntimed env w next (some r) db e h = elim (Bool-cases (is_late next.state r.state)) [
  | inl k ↦ rw k h
  | inr k ↦
      rw k (follow_job-IsUntimed env w.now next r _ _ db.attempts (λ a found. e r a refl found) h)
]

-- `recordState` reads the attempt of the task's job before it writes the attempt's end: when that row
-- has no end yet, no attempt is recorded as stopped at its minutes that was not before, whatever the
-- state, the limits and the times are.
pub record_state-IsUntimed :
    (env : Env) (w : World) (id : String) (next : Next) (db : Db)
    → ((r : Row) (a : Attempt)
        → row_of db id ≡ some r
        → by_job db.attempts r.job_id ≡ some a
        → a.finished_at ≡ none)
    → All IsUntimed db.attempts
    → All IsUntimed (record_state env w id next db).attempts
unfolding record_state
record_state-IsUntimed env w id next db e h =
    elim (Bool-cases (is_state next.state && not (id == ""))) [
      | inl k ↦ rw k (record_on-IsUntimed env w next (row_of db id) db e h)
      | inr k ↦ rw k h
    ]
