-- ===== src/Server/RunTasks/Left.antt =====
-- server/domain/run-tasks.js: what is left of a task's budget, and that nothing starts without it.
use mathlib.Core.Path.{subst}
use open_vibe_codes.Prelude.{
  ℕ, ◌+◌, ◌≤◌, ◌<◌, ◌≡◌, refl, inl, inr, String, Bool, true, false, not, ◌||◌, Option, none, some,
  List, if◌then◌else◌, ◌==◌, string_eq, arith, Bool-cases, Option-cases, get_or,
}
use open_vibe_codes.Server.Attempts.{Row as Attempt, list, create, Created, wrote, seen, gave_up}
use open_vibe_codes.Server.Attempts.Plan.{
  Plan, done, unfinished, stopped, running, follow_up, decide,
}
use open_vibe_codes.Server.RunTasks.{Row, Db, row_of, store_of, with_store, is_terminal, is_ended}
use open_vibe_codes.Server.RunTasks.Spending.{
  Env, Caps, Amount, Budget, budget_of, remaining_budget, is_zero, left_usd, left_tokens,
}
use open_vibe_codes.Server.RunTasks.Follow.{Around, Followed, start_follow_up}
use open_vibe_codes.Server.RunTasks.End.{
  after_end, after_row, after_listed, after_attempt, carry_out,
}
use open_vibe_codes.Server.RunTasks.Delivered.{row_of-id}

-- Something is left under every cap that is set; dollars are in millionths, and what is left of them is
-- rounded to hundreds.
pub record IsWithin (b : Budget) : Type 0 where
  pub usd : (most : ℕ) → b.caps.usd ≡ some most → b.spent.usd + 50 ≤ most
  pub tokens : (most : ℕ) → b.caps.tokens ≡ some most → b.spent.tokens < most

usd-left : (most spent : ℕ) → is_zero (left_usd (some most) spent) ≡ false → spent + 50 ≤ most
usd-left most spent h = ground arith

tokens-left : (most spent : ℕ) → is_zero (left_tokens (some most) spent) ≡ false → spent < most
tokens-left most spent h = ground arith

or-false : (a b : Bool) → (a || b) ≡ false → (a ≡ false) × (b ≡ false)
or-false a b h = (ground arith, ground arith)

budget_of-IsWithin :
    (c : Caps) (s : Amount) → (budget_of c s).exhausted ≡ false → IsWithin (budget_of c s)
unfolding budget_of
budget_of-IsWithin c s h =
    let (usd, tokens) =
      or-false (is_zero (left_usd c.usd s.usd)) (is_zero (left_tokens c.tokens s.tokens)) h in
    record {
      usd = λ most e. usd-left most s.usd (rw e at usd);
      tokens = λ most e. tokens-left most s.tokens (rw e at tokens);
    }

remaining_budget-IsWithin :
    (env : Env) (attempts : List Attempt) (id : String)
    → (remaining_budget env attempts id).exhausted ≡ false
    → IsWithin (remaining_budget env attempts id)
unfolding remaining_budget
remaining_budget-IsWithin env attempts id h = budget_of-IsWithin _ _ h

start_follow_up-IsWithin :
    (env : Env) (o : Around) (row : Row) (ending : Attempt) (plan : Plan) (kind : String)
    (agent model session : Option String) (note : open_vibe_codes.Server.Attempts.Plan.Note)
    (db : Db) (x : String)
    → (start_follow_up env o row ending plan kind agent model session note db).asked ≡ some x
    → IsWithin (remaining_budget env db.attempts row.id)
unfolding start_follow_up
start_follow_up-IsWithin env o row ending plan kind agent model session note db x h =
    elim (Bool-cases (remaining_budget env db.attempts row.id).exhausted) [
      | inl e ↦ cc (rw (e, start_follow_up) at h)
      | inr e ↦ remaining_budget-IsWithin env db.attempts row.id e
    ]

carry_out-IsWithin :
    (env : Env) (o : Around) (row : Row) (ending : Attempt) (plan : Plan) (db : Db) (x : String)
    → (carry_out env o row ending plan db).asked ≡ some x
    → IsWithin (remaining_budget env db.attempts row.id)
unfolding carry_out
carry_out-IsWithin env o row ending running db x h = cc
carry_out-IsWithin env o row ending done db x h = cc
carry_out-IsWithin env o row ending unfinished db x h = cc
carry_out-IsWithin env o row ending stopped db x h = cc
carry_out-IsWithin env o row ending (follow_up kind agent model session note) db x h =
    start_follow_up-IsWithin env o row ending (follow_up kind agent model session note) kind agent
      model session note db x h

after_attempt-IsWithin :
    (env : Env) (o : Around) (row : Row) (attempts : List Attempt) (ending : Option Attempt)
    (db : Db) (x : String)
    → (after_attempt env o row attempts ending db).asked ≡ some x
    → IsWithin (remaining_budget env db.attempts row.id)
unfolding after_attempt
after_attempt-IsWithin env o row attempts none db x h = cc
after_attempt-IsWithin env o row attempts (some ending) db x h =
    elim (Bool-cases (is_ended ending.state)) [
      | inr e ↦ cc (rw (e, after_attempt) at h)
      | inl e ↦ carry_out-IsWithin env o row ending _ db x (rw (e, after_attempt) at h)
    ]

-- The tables once the attempts were listed.
abbrev pub listed : Env → Around → String → Db → Db
listed env o id db = with_store (list o.first_id o.world.now (store_of db) id).0 db

-- A branch that asks for nothing is not the one taken.
pub skip :
    (b : Bool) (f g : Followed) (x : String)
    → f.asked ≡ none
    → (if b then f else g).asked ≡ some x
    → g.asked ≡ some x
skip true f g x n h = cc
skip false f g x n h = h

after_row-IsWithin :
    (env : Env) (o : Around) (r : Row) (db : Db) (x : String)
    → (after_row env o (some r) db).asked ≡ some x
    → IsWithin (remaining_budget env (listed env o r.id db).attempts r.id)
unfolding after_row after_listed
after_row-IsWithin env o r db x h =
    let open_ = skip (not (is_terminal r.state)) _ _ x refl h in
    let going = skip (get_or r.outcome "" == "stopped") _ _ x refl open_ in
    let own = skip (r.kind == "conductor") _ _ x refl going in
    after_attempt-IsWithin env o r _ _ _ x (skip r.bench _ _ x refl own)

-- The engine's decision asks Run for a job only while something is left under every cap of the task's
-- budget: fewer tokens spent than the cap, and fewer dollars by at least half of a hundredth of a
-- cent. Spent is what OpenVibe.AI counted, or what the attempts reported.
pub after_end-IsWithin :
    (env : Env) (o : Around) (id : String) (db : Db) (x : String)
    → (after_end env o id db).asked ≡ some x
    → IsWithin (remaining_budget env (listed env o id db).attempts id)
unfolding after_end after_row
after_end-IsWithin env o id db x h = elim (Option-cases (row_of db id)) [
  | inl e ↦ cc (rw (e, after_end) at h)
  | inr (r, e) ↦
      subst (λ i. IsWithin (remaining_budget env (listed env o i db).attempts i))
        (row_of-id db id r e) (after_row-IsWithin env o r db x (rw (e, after_end) at h))
]
