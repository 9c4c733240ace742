-- ===== src/Server/RunTasks/Follow.antt =====
-- server/domain/run-tasks.js, `startFollowUp`: the attempt that carries a task on, with `followUpArgs`.
use open_vibe_codes.Prelude.{
  ℕ, String, false, Option, none, some, List, [], ◌∷◌, if◌then◌else◌, ◌==◌, string_eq, get_or,
  or_else, template, ◌⊎◌, inl, inr,
}
use open_vibe_codes.Engine.Chain.Attempt.{Reason}
use open_vibe_codes.Engine.Chain.Step.{Step}
use open_vibe_codes.Harness.Job.{Input, Process, Parsed, refused, accepted, FileIn}
use open_vibe_codes.Harness.Job.Parse.{parse_args}
use open_vibe_codes.Server.Attempts.{
  Row as Attempt, Draw, Request, Created, wrote, seen, gave_up, create,
}
use open_vibe_codes.Server.Attempts.Updates.{bind, end, Binding, Ending}
use open_vibe_codes.Server.Attempts.Plan.{Plan, Note, Agent}
use open_vibe_codes.Server.Outbox.Emit.{World}
use open_vibe_codes.Server.RunTasks.{Row, Job, Db, update_row, store_of, with_store}
use open_vibe_codes.Server.RunTasks.Spending.{Env, Budget, remaining_budget, budget_left_note}
use open_vibe_codes.Server.RunTasks.Record.{emit}
use open_vibe_codes.Server.RunTasks.Outcome.{Item, with_outcome, record_placement, settle}

-- What the engine answers for an attempt that ended: its reason, the agent that may take over, and
-- the step of the chain.
pub record Verdict : Type 0 where
  pub why : Option Reason
  pub choice : Option Agent
  pub step : Step

-- What the operation draws and what others answer: the id of a first attempt, the rounds of the
-- attempt's INSERT, the clock and the events' ids, the engine's verdict, how a continuation's note and
-- an outcome are put in words, the process's environment, how the run is paid for, and Run's answer:
-- the job, or what it failed with.
pub record Around : Type 0 where
  pub first_id : String
  pub draws : List Draw
  pub world : World
  pub max_continues : ℕ
  pub verdict : Row → List Attempt → Attempt → Verdict
  pub proof : Row → List Item
  pub prompt_with : Row → Attempt → Note → String
  pub words : Row → Plan → String
  pub process : Process
  pub funding : String
  pub answer : String ⊎ Job

-- The tables afterwards, and the attempt for which Run was asked for a job.
pub record Followed : Type 0 where
  pub db : Db
  pub asked : Option String

-- `followUpArgs`: the task's own repository, the plan's prompt and the session to resume.
unfoldable pub follow_up_input :
    Row
    → String
    → Option String
    → Option String
    → Option String
    → Option String
    → Option String
    → List FileIn
    → Input
follow_up_input row prompt agent model effort session patch files = record {
  kind = none;
  prompt = some (if prompt == "" then row.prompt else prompt);
  effort = or_else effort none;
  agent = or_else agent none;
  model = or_else model none;
  permission = some "edit";
  repo = some row.repo;
  ref = or_else row.ref none;
  push =
      if row.push then some (record { branch = none; pull_request = row.pull_request }) else none;
  limits = none;
  attachments = files;
  resume = or_else session none;
  env = [];
  knowledge = none;
  base_patch = or_else patch none;
  folder = none;
  safety = none;
  mcp = false;
  codes_url = none;
  task_id = none;
}

-- `end(id, { state: 'failed', reason, finished_at })`.
unfoldable pub failed_ending : ℕ → String → Ending
failed_ending now reason = record {
  state = "failed";
  reason = some reason;
  why = none;
  cost_usd = none;
  tokens = none;
  steps = none;
  session = none;
  model = none;
  machine = none;
  budget_hit = none;
  finished_at = some now;
}

unfoldable pub job_binding : Option String → Option String → Option String → Binding
job_binding job_id state run_mode = record {
  job_id = job_id;
  state = state;
  machine = none;
  model = none;
  started_at = none;
  session = none;
  run_mode = run_mode;
}

-- The attempt failed before it ran: the task needs a person.
unfoldable pub give_up : Env → ℕ → Row → String → String → Db → Db
give_up env now row attempt note db =
    settle env now row "unfinished" note
      (record db { attempts = end now db.attempts attempt (failed_ending now "error") })

-- The row of a task that is carried on.
unfoldable pub carried_on : ℕ → String → Row → Row
carried_on now job_id r = record r {
  job_id = some job_id;
  state = "queued";
  outcome = none;
  outcome_note = none;
  error = none;
  finished_at = none;
  updated_at = now;
}

unfoldable pub submitted : Env → Around → Row → String → String ⊎ Job → Db → Db
submitted env o row attempt (inl why) db =
    give_up env o.world.now row attempt (template ("the next attempt could not start: " ∷ why ∷ []))
      db
submitted env o row attempt (inr job) db =
    let bound = record db {
      attempts = bind db.attempts attempt (job_binding (some job.id) (some "queued") none);
    } in
    let updated = carried_on o.world.now job.id row in
    emit env o.world updated (some row.state)
      (update_row (carried_on o.world.now job.id) row.id bound)

-- The job of the attempt, when its input is accepted.
unfoldable pub prepared : Env → Around → Row → String → Parsed → Db → Followed
prepared env o row attempt (refused why) db = record {
  db =
      give_up env o.world.now row attempt
        (template ("the next attempt could not be prepared: " ∷ why ∷ [])) db;
  asked = none;
}
prepared env o row attempt (accepted args) db = record {
  db =
      submitted env o row attempt o.answer (record db {
        attempts = bind db.attempts attempt (job_binding none none (some o.funding));
      });
  asked = some attempt;
}

-- One ending starts at most one follow-up: a second one finds the attempt of the first.
unfoldable pub started : Env → Around → Row → Input → Created → Db → Followed
started env o row input (gave_up st) db = record { db = with_store st db; asked = none }
started env o row input (seen a st) db = record { db = with_store st db; asked = none }
started env o row input (wrote a st) db =
    prepared env o row a.id (parse_args env.js env.urls o.process input) (with_store st db)

unfoldable pub request_of :
    Row
    → Attempt
    → String
    → Option String
    → Option String
    → Option String
    → String
    → Budget
    → Request
request_of row ending kind agent model session why budget = record {
  task_id = row.id;
  agent = or_else agent none;
  model = or_else model none;
  machine = none;
  session = or_else session none;
  effort = none;
  why = or_else (some why) none;
  kind = if kind == "" then "manual" else kind;
  state = "queued";
  follow_up_of = some ending.id;
  usd = get_or budget.left.usd 0;
  token_cap = get_or budget.left.tokens 0;
}

unfoldable pub out_of_budget : Env → ℕ → Row → Budget → Db → Db
out_of_budget env now row budget db =
    let note = budget_left_note env budget in
    record_placement (with_outcome now "unfinished" note row)
      (update_row (with_outcome now "unfinished" note) row.id db)

-- `startFollowUp` of a plan that carries the task on.
unfoldable pub start_follow_up :
    Env
    → Around
    → Row
    → Attempt
    → Plan
    → String
    → Option String
    → Option String
    → Option String
    → Note
    → Db
    → Followed
start_follow_up env o row ending plan kind agent model session note db =
    let budget = remaining_budget env db.attempts row.id in
    if budget.exhausted
    then record { db = out_of_budget env o.world.now row budget db; asked = none }
    else started env o row
        (follow_up_input row (o.prompt_with row ending note) agent model none session none [])
        (create o.draws (store_of db)
          (request_of row ending kind agent model session (o.words row plan) budget))
        db
