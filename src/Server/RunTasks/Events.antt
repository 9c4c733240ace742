-- ===== src/Server/RunTasks/Events.antt =====
-- server/domain/run-tasks.js: `applyJob`, `applyEvent` and `refresh`: what Run says of a job.
use open_vibe_codes.Prelude.{
  ℕ, ◌+◌, String, Bool, not, ◌&&◌, ◌||◌, Option, none, some, if◌then◌else◌, string_eq, leb, or_else,
  truthy,
}
use open_vibe_codes.Server.RunTasks.{Doc, Row, Job, Db, is_state, is_terminal}
use open_vibe_codes.Server.RunTasks.Words.{error_of}
use open_vibe_codes.Server.RunTasks.Spending.{Env}
use open_vibe_codes.Server.RunTasks.Record.{Next, record_state}
use open_vibe_codes.Server.RunTasks.Follow.{Around, Followed}
use open_vibe_codes.Server.RunTasks.End.{after_end}

abbrev pub stale_ms : ℕ
stale_ms = 600000

abbrev pub result_of : String → Option Job → Option Doc
result_of state none = none
result_of state (some job) = if is_terminal state then job.result else none

abbrev pub error_at : String → Option String → Option String
error_at state error = if is_terminal state then error else none

unfoldable pub next_of_job : Env → Job → Next
next_of_job env job = record {
  state = job.state;
  result = result_of job.state (some job);
  error = error_at job.state (error_of env.js (some job));
  started_at = job.started_at;
  finished_at = job.finished_at;
  job = some job;
}

-- `applyJob`: a job's document as the row, and what follows.
unfoldable pub apply_job : Env → Around → String → Job → Db → Followed
apply_job env o id job db =
    if is_state job.state
    then after_end env o id (record_state env o.world id (next_of_job env job) db)
    else record { db = db; asked = none }

-- A delivery of run.job.*: its state, the job that was read for an end, its error and its times.
pub record Delivery : Type 0 where
  pub state : String
  pub job : Option Job
  pub error : Option String
  pub started_at : Option ℕ
  pub finished_at : Option ℕ

unfoldable pub next_of_event : Env → Delivery → Next
next_of_event env e = record {
  state = e.state;
  result = result_of e.state e.job;
  error = error_at e.state (or_else e.error (error_of env.js e.job));
  started_at = e.started_at;
  finished_at = e.finished_at;
  job = none;
}

-- `applyEvent`.
unfoldable pub apply_event : Env → Around → String → Delivery → Db → Db
apply_event env o id e db =
    if is_state e.state then record_state env o.world id (next_of_event env e) db else db

unfoldable pub is_stale : Row → ℕ → Bool
is_stale row now = leb (row.updated_at + stale_ms) now

-- What Run answers to a read; `none` is a failure.
unfoldable pub read_job : Env → Around → String → Option Job → Db → Followed
read_job env o id none db = record { db = db; asked = none }
read_job env o id (some job) db = apply_job env o id job db

-- `refresh`: the fallback of a task that was quiet for ten minutes.
unfoldable pub refresh : Env → Around → Bool → Row → Option Job → Db → Followed
refresh env o force row read db =
    let due = force || is_stale row o.world.now in
    if not (truthy row.job_id)
    then record { db = db; asked = none }
    else if is_terminal row.state
    then (if not (truthy row.outcome) && due
        then after_end env o row.id db
        else record { db = db; asked = none })
    else if not due
    then record { db = db; asked = none }
    else read_job env o row.id read db
