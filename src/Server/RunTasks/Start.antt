-- ===== src/Server/RunTasks/Start.antt =====
-- server/domain/run-tasks.js, `start`: a new task, its first attempt and its job. The files of a
-- message, the recalled knowledge and the sharing system are left out, and the placement that is
-- explained with the task is an argument.
use open_vibe_codes.Prelude.{
  ℕ, String, Bool, true, false, Option, none, some, [], ◌∷◌, ◌++◌, ◌⊎◌, inl, inr, if◌then◌else◌,
  get_or, or_else, truthy, template,
}
use open_vibe_codes.Engine.Router.Pick.{Context}
use open_vibe_codes.Harness.Job.{Args, PushIn}
use open_vibe_codes.Server.Attempts.{Request, Created, wrote, seen, gave_up, create}
use open_vibe_codes.Server.Attempts.Updates.{bind, end, coalesce}
use open_vibe_codes.Server.Attempts.Plan.{Agent, next_agent}
use open_vibe_codes.Server.RunTasks.{
  Row, Job, Db, needs_notice, is_state, update_row, store_of, with_store,
}
use open_vibe_codes.Server.RunTasks.Spending.{Env, Caps, budget_for}
use open_vibe_codes.Server.RunTasks.Record.{emit}
use open_vibe_codes.Server.RunTasks.Follow.{Around, Followed, failed_ending, job_binding}
use open_vibe_codes.Server.RunTasks.Outcome.{record_placement}

-- What a person asks for, with the ids and the placement of the task.
pub record Asked : Type 0 where
  pub id : String
  pub subject : String
  pub project : String
  pub args : Args
  pub limits : Option Caps
  pub bench : Bool
  pub placement_key : Option String
  pub placement_kind : Option String
  pub context : Context
  pub no_agent : String

-- The agent that takes the task, or why there is none.
pub record Chosen : Type 0 where
  pub agent : Option String
  pub model : Option String
  pub why : String
  pub refusal : Option String

abbrev pub first_why : String
first_why = "the first try, with the agent that fits the task"

-- A task with no agent named is routed.
unfoldable pub routed : Asked → Option Agent → Chosen
routed q none = record {
  agent = none;
  model = or_else q.args.model none;
  why = first_why;
  refusal = some q.no_agent;
}
routed q (some a) = record {
  agent = a.agent;
  model = or_else a.model none;
  why = get_or (or_else (some a.why) (some first_why)) "";
  refusal = none;
}

unfoldable pub named : Asked → String → Chosen
named q agent = record {
  agent = some agent;
  model = or_else q.args.model none;
  why = template ("the first try, with " ∷ agent ∷ []);
  refusal = none;
}

abbrev pub route_of : Asked → Option (Option Agent) → Option Chosen
route_of q none = none
route_of q (some found) = some (routed q found)

-- `none` is the router's error on a tier without a ladder.
unfoldable pub chosen : Env → Asked → Option Chosen
chosen env q =
    if truthy q.args.agent
    then some (named q (get_or q.args.agent ""))
    else route_of q (next_agent env.js q.context q.args.prompt "")

abbrev pub wants_pull_request : Option PushIn → Bool
wants_pull_request none = false
wants_pull_request (some p) = p.pull_request

abbrev pub pushes : Option PushIn → Bool
pushes none = false
pushes (some p) = true

-- The INSERT into run_tasks.
unfoldable pub inserted : ℕ → Asked → Chosen → Row
inserted now q c = record {
  id = q.id;
  subject = q.subject;
  project_id = q.project;
  repo = get_or (or_else q.args.repo (some "bench://")) "";
  ref = q.args.ref;
  prompt = q.args.prompt;
  agent = c.agent;
  push = pushes q.args.push;
  pull_request = wants_pull_request q.args.push;
  kind = "task";
  bench = q.bench;
  state = "queued";
  job_id = none;
  outcome = none;
  outcome_note = none;
  error = none;
  result = none;
  started_at = none;
  finished_at = none;
  session_complete_at = none;
  placement_option_key = if truthy c.agent then q.placement_key else none;
  placement_step_kind = if truthy c.agent then q.placement_kind else none;
  placement_recorded = false;
  attempts_count = 0;
  created_at = now;
  updated_at = now;
}

unfoldable pub first_request : Env → Asked → Chosen → Request
first_request env q c =
    let budget = budget_for env.defaults q.limits in
    record {
      task_id = q.id;
      agent = or_else c.agent none;
      model = or_else c.model none;
      machine = none;
      session = none;
      effort = or_else q.args.effort none;
      why = some c.why;
      kind = "first";
      state = "queued";
      follow_up_of = none;
      usd = get_or budget.usd 0;
      token_cap = get_or budget.tokens 0;
    }

-- The task could not start.
unfoldable pub unstarted : ℕ → String → Row → Row
unstarted now why r = record r {
  state = "failed";
  error = some why;
  outcome = some "unfinished";
  outcome_note = some (template ("the task could not start: " ∷ why ∷ []));
  finished_at = some now;
  updated_at = now;
}

unfoldable pub fail_start : Env → Around → Row → String → String → String → Db → Db
fail_start env o row attempt reason why db =
    let now = o.world.now in
    let ended = record db { attempts = end now db.attempts attempt (failed_ending now reason) } in
    let failed = unstarted now why row in
    let told =
      emit env o.world failed (some "queued") (update_row (unstarted now why) row.id ended) in
    record_placement failed (record told {
      notices =
          told.notices
          ++ needs_notice row.id (template ("the task could not start: " ∷ why ∷ [])) ∷ [];
    })

unfoldable pub begun : ℕ → Job → Row → Row
begun now job r = record r {
  job_id = some job.id;
  state = if is_state job.state then job.state else "queued";
  started_at = coalesce job.started_at r.started_at;
  updated_at = now;
}

unfoldable pub answered : Env → Around → Row → String → String ⊎ Job → Db → Db
answered env o row attempt (inl why) db = fail_start env o row attempt "error" why db
answered env o row attempt (inr job) db =
    let bound = record db {
      attempts = bind db.attempts attempt (job_binding (some job.id) (some "queued") none);
    } in
    emit env o.world (begun o.world.now job row) (some "queued")
      (update_row (begun o.world.now job) row.id bound)

unfoldable pub with_attempt : Env → Around → Row → Option String → Created → Db → Followed
with_attempt env o row refusal (gave_up st) db = record { db = with_store st db; asked = none }
with_attempt env o row refusal (seen a st) db = record { db = with_store st db; asked = none }
with_attempt env o row (some why) (wrote a st) db = record {
  db = fail_start env o row a.id "refused" why (with_store st db);
  asked = none;
}
with_attempt env o row none (wrote a st) db =
    let paid = record (with_store st db) {
      attempts = bind st.attempts a.id (job_binding none none (some o.funding));
    } in
    record { db = answered env o row a.id o.answer paid; asked = some a.id }

unfoldable pub start_with : Env → Around → Asked → Chosen → Db → Followed
start_with env o q c db =
    let row = inserted o.world.now q c in
    let written = emit env o.world row none (record db { rows = db.rows ++ row ∷ [] }) in
    with_attempt env o row c.refusal (create o.draws (store_of written) (first_request env q c))
      written

abbrev pub start_chosen : Env → Around → Asked → Option Chosen → Db → Option Followed
start_chosen env o q none db = none
start_chosen env o q (some c) db = some (start_with env o q c db)

-- `start`; `none` is a throw before anything is written.
unfoldable pub start : Env → Around → Asked → Db → Option Followed
start env o q db = start_chosen env o q (chosen env q) db
