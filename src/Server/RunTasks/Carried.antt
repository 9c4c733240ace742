-- ===== src/Server/RunTasks/Carried.antt =====
-- server/domain/run-tasks.js, `afterEnd`: an attempt that ended leaves its task with an outcome, or
-- with an attempt that carries it on.
use mathlib.Core.Option
use open_vibe_codes.Prelude.{
  ◌≡◌, String, true, false, Option, none, some, List, ◌==◌, string_eq, get_or,
}
use open_vibe_codes.Server.Attempts.{Row as Attempt, Request, Store, seen, gave_up, create, list}
use open_vibe_codes.Server.Attempts.Plan.{
  Plan, done, unfinished, stopped, running, follow_up, decide,
}
use open_vibe_codes.Server.RunTasks.{Row, Job, Db, row_of, store_of, with_store, is_terminal}
use open_vibe_codes.Server.RunTasks.Spending.{Env, remaining_budget}
use open_vibe_codes.Server.RunTasks.Follow.{request_of, Around, Followed}
use open_vibe_codes.Server.RunTasks.Settled.{outcome_at}
use open_vibe_codes.Server.RunTasks.Outcome.{outcome_of}

abbrev pub state_at : Db → String → Option String
state_at db id = Option.map (λ (r : Row). r.state) (row_of db id)

-- The row that a plan's follow-up asks to be written for an ending.
abbrev pub requested : Env → Around → Row → Attempt → Plan → Db → Option Request
requested env o row ending running db = none
requested env o row ending done db = none
requested env o row ending unfinished db = none
requested env o row ending stopped db = none
requested env o row ending (follow_up kind agent model session note) db = some (
    request_of row ending kind agent model session
      (o.words row (follow_up kind agent model session note))
      (remaining_budget env db.attempts row.id))

-- The outcome that a plan leaves; a follow-up that cannot start leaves the task unfinished.
abbrev pub outcome_for : Around → Row → Plan → String
outcome_for o row running = ""
outcome_for o row done = outcome_of (o.proof row) "done"
outcome_for o row unfinished = outcome_of (o.proof row) "unfinished"
outcome_for o row stopped = outcome_of (o.proof row) "stopped"
outcome_for o row (follow_up kind agent model session note) = "unfinished"

-- What the plan for an ended attempt leads to: its outcome; for a follow-up, a queued task for whose new
-- attempt a job was asked; or nothing but what the rounds of the follow-up's INSERT wrote of others,
-- when the ending was followed up before or no round could write the row.
pub data IsCarried (env : Env) (o : Around) (row : Row) (ending : Attempt) (plan : Plan) (db : Db)
    (f : Followed) : Type 0 where
  concluded :
      outcome_at f.db row.id ≡ some (some (outcome_for o row plan))
      → IsCarried env o row ending plan db f
  restarted :
      (q : Request) (attempt : String)
      → requested env o row ending plan db ≡ some q
      → f.asked ≡ some attempt
      → outcome_at f.db row.id ≡ some none
      → state_at f.db row.id ≡ some "queued"
      → IsCarried env o row ending plan db f
  before :
      (q : Request) (a : Attempt) (st : Store)
      → requested env o row ending plan db ≡ some q
      → create o.draws (store_of db) q ≡ seen a st
      → f ≡ record { db = with_store st db; asked = none }
      → IsCarried env o row ending plan db f
  unwritten :
      (q : Request) (st : Store)
      → requested env o row ending plan db ≡ some q
      → create o.draws (store_of db) q ≡ gave_up st
      → f ≡ record { db = with_store st db; asked = none }
      → IsCarried env o row ending plan db f

-- The plan of the engine for the last attempt.
abbrev pub plan_for : Around → Row → List Attempt → Attempt → Plan
plan_for o row attempts ending =
    let v = o.verdict row attempts ending in
    decide o.max_continues attempts ending v.why v.choice v.step

-- A task that ended, was not stopped, is no conductor's and no benchmark's.
pub record IsOpen (r : Row) : Type 0 where
  pub over : is_terminal r.state ≡ true
  pub unstopped : (get_or r.outcome "" == "stopped") ≡ false
  pub coding : (r.kind == "conductor") ≡ false
  pub asked_for : r.bench ≡ false

-- The tables behind the list of a task's attempts.
abbrev pub tables_listed : Around → String → Db → Db
tables_listed o id db = with_store (list o.first_id o.world.now (store_of db) id).0 db

-- The plan for the ending, when the attempts are listed.
abbrev pub plan_at : Around → Row → Attempt → Db → Plan
plan_at o row ending db = plan_for o row (list o.first_id o.world.now (store_of db) row.id).1 ending
