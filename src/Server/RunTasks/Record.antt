-- ===== src/Server/RunTasks/Record.antt =====
-- server/domain/run-tasks.js, `recordState`: one change of a task's state, with the event it announces
-- and the attempt of its job, in one transaction. What a benchmark publishes is left out.
use mathlib.Core.Option
use open_vibe_codes.Prelude.{
  ℕ, String, Bool, true, false, not, ◌&&◌, ◌||◌, Option, none, some, List, if◌then◌else◌, ◌==◌,
  string_eq, ltb, get_or, is_some, lookup, length,
}
use open_vibe_codes.Server.Attempts.{Row as Attempt}
use open_vibe_codes.Server.Attempts.Updates.{coalesce, bind, end, spend, Binding, Ending}
use open_vibe_codes.Server.Outbox.Emit.{Task as Announced, World, emit_task, repo_slug}
use open_vibe_codes.Server.RunTasks.{
  Doc, Job, Row, Db, is_state, is_terminal, rank, attempt_state, row_of, update_row, by_job,
}
use open_vibe_codes.Server.RunTasks.Spending.{Env, Amount, token_spend}
use open_vibe_codes.Server.RunTasks.Words.{
  Usage, usage_of, reason_of, budget_hit, budget_refused, budget_kind, limit_word, machine_of,
  cost_of,
}

-- A new state, with what came with it.
pub record Next : Type 0 where
  pub state : String
  pub result : Option Doc
  pub error : Option String
  pub started_at : Option ℕ
  pub finished_at : Option ℕ
  pub job : Option Job

abbrev pub files_of : Option Doc → Option ℕ
files_of none = none
files_of (some d) = Option.map length d.files

-- The row as the outbox reads it.
unfoldable pub announced : Env → Row → Announced
announced env r = record {
  id = r.id;
  subject = some r.subject;
  state = r.state;
  agent = r.agent;
  repo = repo_slug env.js env.urls r.repo;
  cost = cost_of r.result;
  files = files_of r.result;
  created_at = some r.created_at;
  updated_at = some r.updated_at;
  started_at = r.started_at;
  finished_at = r.finished_at;
  error = r.error;
}

-- `outbox.emitTask(row, previous)`.
unfoldable pub emit : Env → World → Row → Option String → Db → Db
emit env w r previous db = record db {
  outbox = (emit_task env.js w db.outbox (some (announced env r)) previous).0;
}

abbrev pub started_of : Option Job → Option ℕ
started_of none = none
started_of (some job) = job.started_at

abbrev pub finished_of : Option Job → Option ℕ
finished_of none = none
finished_of (some job) = job.finished_at

-- The UPDATE of the row.
unfoldable pub recorded : ℕ → Next → Row → Row
recorded now next r = record r {
  state = next.state;
  result = coalesce next.result r.result;
  error = coalesce next.error r.error;
  started_at = coalesce (coalesce next.started_at (started_of next.job)) r.started_at;
  finished_at =
      coalesce
        (coalesce (coalesce next.finished_at (finished_of next.job))
          (if is_terminal next.state then some now else none))
        r.finished_at;
  updated_at = now;
}

-- `complete`: the session of a task that ended is marked once.
unfoldable pub completed : ℕ → Row → Row
completed now r = record r { session_complete_at = some (get_or r.session_complete_at now) }

-- A terminal turn of a conductor: its attempt waits for the person.
unfoldable pub waiting : Env → Next → Row → Usage → Binding
waiting env next updated usage = record {
  job_id = none;
  state = some "waiting";
  machine = machine_of env.js next.job;
  model = usage.model;
  started_at = updated.started_at;
  session = usage.session;
  run_mode = none;
}

-- The limit an attempt ended at: the owner's, or the one OpenVibe.AI refused it for.
pub record Hit : Type 0 where
  pub hit : Option String
  pub refused : Bool

unfoldable pub hit_of : Env → Row → Attempt → Usage → String → Hit
hit_of env updated attempt usage why =
    let own = budget_hit env.config attempt usage why in
    let refused = not (is_some own) && budget_refused env.js updated.result updated.error in
    record {
      hit =
          if refused
          then some (budget_kind env.js updated.result updated.error)
          else Option.map limit_word own;
      refused = refused;
    }

unfoldable pub ending_of : Env → ℕ → Next → Row → Attempt → Ending
ending_of env now next updated attempt =
    let usage = usage_of updated.result in
    let why = reason_of env.js next.state updated.error in
    let h = hit_of env updated attempt usage why in
    record {
      state =
          if is_some h.hit
          then "budget-stopped"
          else get_or (lookup next.state attempt_state) "failed";
      reason = some (if is_some h.hit then "budget" else why);
      why = none;
      cost_usd = usage.cost_usd;
      tokens = usage.tokens;
      steps = usage.steps;
      session = usage.session;
      model = usage.model;
      machine = machine_of env.js next.job;
      budget_hit = h.hit;
      finished_at = some (get_or updated.finished_at now);
    }

unfoldable pub going_on : Env → Next → Row → Row → Binding
going_on env next current updated = record {
  job_id = none;
  state = some (
      if current.kind == "conductor"
      then "running"
      else get_or (lookup next.state attempt_state) "queued");
  machine = machine_of env.js next.job;
  model = none;
  started_at = updated.started_at;
  session = none;
  run_mode = none;
}

-- What a refused run really spent is written behind its end.
unfoldable pub spend_counted : String → Option Amount → List Attempt → List Attempt
spend_counted id none attempts = attempts
spend_counted id (some s) attempts = spend attempts id (some s.usd) (some s.tokens)

unfoldable pub spend_refused : Env → String → Bool → List Attempt → List Attempt
spend_refused env id false attempts = attempts
spend_refused env id true attempts = spend_counted id (token_spend env id) attempts

-- The attempt of the job follows the job.
unfoldable pub follow_job :
    Env → ℕ → Next → Row → Row → Option Attempt → List Attempt → List Attempt
follow_job env now next current updated none attempts = attempts
follow_job env now next current updated (some a) attempts =
    let usage = usage_of updated.result in
    let why = reason_of env.js next.state updated.error in
    if not (is_terminal next.state)
    then bind attempts a.id (going_on env next current updated)
    else if current.kind == "conductor"
    then bind attempts a.id (waiting env next updated usage)
    else spend_refused env a.id (hit_of env updated a usage why).refused
        (end now attempts a.id (ending_of env now next updated a))

-- A changed state is announced.
unfoldable pub tell : Bool → Env → World → Row → String → Db → Db
tell true env w updated before db = db
tell false env w updated before db = emit env w updated (some before) db

-- The session of a task that ended is marked.
unfoldable pub mark : Bool → ℕ → String → Db → Db
mark true now id db = update_row (completed now) id db
mark false now id db = db

-- The rows of the change, its event, and the session's mark.
unfoldable pub write_row : Env → World → Next → Row → Db → Db
write_row env w next current db =
    let updated = recorded w.now next current in
    mark (is_terminal next.state && not (is_some updated.session_complete_at)) w.now current.id (
      tell (current.state == next.state) env w updated current.state
        (update_row (recorded w.now next) current.id db))

unfoldable pub write_state : Env → World → Next → Row → Db → Db
write_state env w next current db =
    let after = write_row env w next current db in
    record after {
      attempts =
          follow_job env w.now next current (recorded w.now next current)
            (by_job db.attempts current.job_id) db.attempts;
    }

-- `RANK[state] < RANK[current.state]`.
abbrev pub is_lower : Option ℕ → Option ℕ → Bool
is_lower none b = false
is_lower (some a) none = false
is_lower (some a) (some b) = ltb a b

-- A late state never moves a task back, and a terminal state is final.
unfoldable pub is_late : String → String → Bool
is_late state current =
    is_lower (rank state) (rank current) || (is_terminal current && not (current == state))

unfoldable pub record_on : Env → World → Next → Option Row → Db → Db
record_on env w next none db = db
record_on env w next (some current) db =
    if is_late next.state current.state then db else write_state env w next current db

-- `recordState`.
unfoldable pub record_state : Env → World → String → Next → Db → Db
record_state env w id next db =
    if is_state next.state && not (id == "") then record_on env w next (row_of db id) db else db
