-- ===== src/Server/RunTasks/Turns.antt =====
-- server/domain/run-tasks.js, `continueTask`: a turn of the owner's. Its words are an argument, as are
-- the files that its message claims.
use open_vibe_codes.Prelude.{
  ℕ, String, Bool, not, Option, none, some, List, [], ◌∷◌, inl, inr, ◌⊎◌, if◌then◌else◌, ◌==◌,
  string_eq, get_or, or_else, truthy, template, is_some, ◌++◌,
}
use open_vibe_codes.Harness.Job.{Parsed, refused, accepted, FileIn}
use open_vibe_codes.Harness.Job.Parse.{parse_args}
use open_vibe_codes.Server.Attempts.{
  Row as Attempt, Request, Created, wrote, seen, gave_up, create, list,
}
use open_vibe_codes.Server.Attempts.Updates.{bind, end}
use open_vibe_codes.Server.RunTasks.{
  Doc, Row, Job, Db, is_terminal, is_ended, row_of, update_row, store_of, with_store,
}
use open_vibe_codes.Server.RunTasks.Spending.{Env, Budget, remaining_budget}
use open_vibe_codes.Server.RunTasks.Record.{emit}
use open_vibe_codes.Server.RunTasks.Follow.{
  Around, follow_up_input, failed_ending, job_binding, out_of_budget,
}
use open_vibe_codes.Server.RunTasks.End.{last}
use open_vibe_codes.Server.RunTasks.Outcome.{record_placement, notices_of}

-- How a manual turn ends.
pub data Turn : Type 0 where
  error : (why : String) → Turn
  live : (attempt : String) → Turn
  ran : (attempt : String) → Turn

pub record Turned : Type 0 where
  pub db : Db
  pub turn : Turn
  pub asked : Option String

-- The owner's request: the agent to switch to, when one is named, and the words.
pub record Manual : Type 0 where
  pub agent : Option String
  pub model : Option String
  pub effort : Option String
  pub prompt : String
  pub why : String
  pub files : List FileIn

-- A patch that was kept whole.
unfoldable pub base_patch : Option Doc → Option String
base_patch none = none
base_patch (some d) = if d.patch_truncated then none else or_else d.patch none

abbrev pub is_live : Attempt → Bool
is_live a = not (is_ended a.state)

-- The last attempt that is still live.
unfoldable pub last_live : List Attempt → Option Attempt
last_live [] = none
last_live (a ∷ attempts) =
    let rest = last_live attempts in
    if is_some rest then rest else if is_live a then some a else none

abbrev pub manual_agent : Manual → Attempt → Option String
manual_agent m ending = if truthy m.agent then m.agent else ending.agent

abbrev pub manual_model : Manual → Attempt → Option String
manual_model m ending =
    if truthy m.agent then or_else m.model none else or_else m.model ending.model

abbrev pub manual_effort : Manual → Attempt → Option String
manual_effort m ending =
    if truthy m.agent then or_else m.effort none else or_else m.effort (or_else ending.effort none)

unfoldable pub manual_request : Row → Manual → Attempt → Budget → Request
manual_request row m ending budget = record {
  task_id = row.id;
  agent = manual_agent m ending;
  model = manual_model m ending;
  machine = none;
  session = none;
  effort = manual_effort m ending;
  why = some m.why;
  kind = if truthy m.agent then "switch" else "manual";
  state = "queued";
  follow_up_of = none;
  usd = get_or budget.left.usd 0;
  token_cap = get_or budget.left.tokens 0;
}

-- The guards on the row, made before the lock and again under it.
unfoldable pub refusal : Option Row → Option String
refusal none = some "no such task"
refusal (some current) =
    if not (is_terminal current.state)
    then some "the task is still running"
    else if get_or current.outcome "" == "stopped"
    then some "the task was stopped on purpose"
    else none

-- The locked UPDATE.
unfoldable pub requeued : ℕ → Row → Row
requeued now r = record r {
  state = "queued";
  outcome = none;
  outcome_note = none;
  error = none;
  job_id = none;
  finished_at = none;
  updated_at = now;
}

unfoldable pub not_started : ℕ → String → Row → Row
not_started now why r = record r {
  state = "failed";
  error = some why;
  outcome = some "unfinished";
  outcome_note = some (template ("the next attempt could not start: " ∷ why ∷ []));
  finished_at = some now;
  updated_at = now;
}

unfoldable pub turn_failed : Env → ℕ → Row → String → String → Db → Db
turn_failed env now row attempt why db =
    let ended = record db { attempts = end now db.attempts attempt (failed_ending now "error") } in
    let written = update_row (not_started now why) row.id ended in
    let saved = not_started now why row in
    record_placement saved (record written { notices = written.notices ++ notices_of env saved })

unfoldable pub with_job : ℕ → String → Row → Row
with_job now job_id r = record r { job_id = some job_id; updated_at = now }

-- Run's answer for the attempt of the turn.
unfoldable pub turn_answered : Env → Around → Row → String → String ⊎ Job → Db → Turned
turn_answered env o row attempt (inl why) db = record {
  db = turn_failed env o.world.now row attempt why db;
  turn = error why;
  asked = some attempt;
}
turn_answered env o row attempt (inr job) db = record {
  db = emit env o.world (with_job o.world.now job.id (requeued o.world.now row)) (some row.state) (
      update_row (with_job o.world.now job.id) row.id (record db {
        attempts = bind db.attempts attempt (job_binding (some job.id) (some "queued") none);
      }));
  turn = ran attempt;
  asked = some attempt;
}

unfoldable pub turn_parsed : Env → Around → Row → String → Parsed → Db → Turned
turn_parsed env o row attempt (refused why) db = record {
  db = turn_failed env o.world.now row attempt why db;
  turn = error why;
  asked = none;
}
turn_parsed env o row attempt (accepted args) db = turn_answered env o row attempt o.answer db

-- The attempt of the turn is paid for, and then its job is asked for.
unfoldable pub turn_made : Env → Around → Row → Manual → Attempt → String → Db → Turned
turn_made env o row m ending attempt db =
    turn_parsed env o row attempt
      (parse_args env.js env.urls o.process (
        follow_up_input row m.prompt (manual_agent m ending) (manual_model m ending)
          (manual_effort m ending) none (base_patch row.result) m.files))
      (record db { attempts = bind db.attempts attempt (job_binding none none (some o.funding)) })

unfoldable pub turn_created : Env → Around → Row → Manual → Attempt → Created → Db → Turned
turn_created env o row m ending (gave_up st) db = record {
  db = db;
  turn = error "the attempt could not be written";
  asked = none;
}
turn_created env o row m ending (seen a st) db = record {
  db = db;
  turn = error "the attempt could not be written";
  asked = none;
}
turn_created env o row m ending (wrote a st) db =
    turn_made env o row m ending a.id (update_row (requeued o.world.now) row.id (with_store st db))

unfoldable pub turn_guarded : Env → Around → Row → Manual → Attempt → Option String → Db → Turned
turn_guarded env o row m ending (some why) db = record { db = db; turn = error why; asked = none }
turn_guarded env o row m ending none db =
    let budget = remaining_budget env db.attempts row.id in
    if budget.exhausted
    then record {
      db = out_of_budget env o.world.now row budget db;
      turn = error "the task has no budget left";
      asked = none;
    }
    else turn_created env o row m ending
        (create o.draws (store_of db) (manual_request row m ending budget)) db

unfoldable pub turn_unless_live :
    Env → Around → Row → Manual → Attempt → Option Attempt → Db → Turned
turn_unless_live env o row m ending (some a) db = record { db = db; turn = live a.id; asked = none }
turn_unless_live env o row m ending none db =
    turn_guarded env o row m ending (refusal (row_of db row.id)) db

unfoldable pub turn_listed :
    Env → Around → Row → Manual → List Attempt → Option Attempt → Db → Turned
turn_listed env o row m attempts none db = record {
  db = db;
  turn = error "the task has no attempt to carry on";
  asked = none;
}
turn_listed env o row m attempts (some ending) db =
    turn_unless_live env o row m ending (last_live attempts) db

-- `continueTask`, when nothing runs between its reads and its writes.
unfoldable pub continue_task : Env → Around → Row → Manual → Db → Turned
continue_task env o row m db =
    if row.id == ""
    then record { db = db; turn = error "no such task"; asked = none }
    else (let (st, attempts) = list o.first_id o.world.now (store_of db) row.id in
        turn_listed env o row m attempts (last attempts) (with_store st db))
