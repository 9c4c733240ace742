-- ===== src/Server/RunTasks.antt =====
-- server/domain/run-tasks.js: a coding task on a person's machine. The rows of run_tasks, the jobs
-- that Run answers with, and the tables that a task's operations change. A job's result is a document
-- whose fields of the wrong type read as missing; its numbers are whole, money in micro-dollars, times
-- in milliseconds.
pub mod Words
pub mod Spending
pub mod Record
pub mod Outcome
pub mod Follow
pub mod End
pub mod Events
pub mod Turns
pub mod Stop
pub mod Shown
pub mod Start
pub mod Connected
pub mod Funding
pub mod Funded
pub mod Machine
pub mod Rows
pub mod Advance
pub mod Delivered
pub mod Ordered
pub mod Left
pub mod Settled
pub mod Carried
pub mod Apart
pub mod Begun
pub mod Minutes
use mathlib.Core.Option
use open_vibe_codes.Prelude.{
  ℕ, String, Bool, true, false, Option, none, some, List, [], ◌∷◌, map, find, if◌then◌else◌, ◌==◌,
  string_eq, includes, lookup, is_some,
}
use open_vibe_codes.Server.Attempts.{Row as Attempt, Task as Counted, Store}
use open_vibe_codes.Server.Attempts.Updates.{coalesce}
use open_vibe_codes.Server.Outbox.Emit.{Row as Event}

-- A line of the job's log; `size` is its length as JSON.
pub record Line : Type 0 where
  pub t : String
  pub text : Option String
  pub session : Option String
  pub model : Option String
  pub resolved_model : Option String
  pub input_tokens : ℕ
  pub output_tokens : ℕ
  pub size : ℕ

pub record File : Type 0 where
  pub path : String
  pub added : Option ℕ
  pub removed : Option ℕ

pub record Push : Type 0 where
  pub pushed : Bool
  pub branch : Option String
  pub branch_url : Option String
  pub pull_request : Option String
  pub pull_request_error : Option String
  pub reason : Option String

-- The job's result document.
pub record Doc : Type 0 where
  pub ok : Bool
  pub agents : Option (List String)
  pub summary : Option String
  pub files : Option (List File)
  pub patch : Option String
  pub patch_truncated : Bool
  pub push : Option Push
  pub cost_usd : Option ℕ
  pub duration_ms : Option ℕ
  pub error : Option String
  pub resolved_model : Option String
  pub log : Option (List Line)

-- What a job says of its failure: a text, or a code with its detail.
pub data JobError : Type 0 where
  said : String → JobError
  coded : (code detail : Option String) → JobError

-- A job of Run; `node` is its placement's.
pub record Job : Type 0 where
  pub id : String
  pub state : String
  pub result : Option Doc
  pub error : Option JobError
  pub node : Option String
  pub machine : Option String
  pub started_at : Option ℕ
  pub finished_at : Option ℕ

-- A row of run_tasks; `bench` is whether its actor_ref names a benchmark.
pub record Row : Type 0 where
  pub id : String
  pub subject : String
  pub project_id : String
  pub repo : String
  pub ref : Option String
  pub prompt : String
  pub agent : Option String
  pub push : Bool
  pub pull_request : Bool
  pub kind : String
  pub bench : Bool
  pub state : String
  pub job_id : Option String
  pub outcome : Option String
  pub outcome_note : Option String
  pub error : Option String
  pub result : Option Doc
  pub started_at : Option ℕ
  pub finished_at : Option ℕ
  pub session_complete_at : Option ℕ
  pub placement_option_key : Option String
  pub placement_step_kind : Option String
  pub placement_recorded : Bool
  pub attempts_count : ℕ
  pub created_at : ℕ
  pub updated_at : ℕ

-- What a person is told of a task, and what is learned about where it ran.
pub data Notice : Type 0 where
  done_notice : (task text : String) → Notice
  needs_notice : (task text : String) → Notice

pub record Learned : Type 0 where
  pub person : String
  pub key : String
  pub kind : String
  pub ok : Bool

-- The tables that a task's operations change, with what was handed to the notices and to the
-- placement's outcomes.
pub record Db : Type 0 where
  pub rows : List Row
  pub attempts : List Attempt
  pub outbox : List Event
  pub notices : List Notice
  pub learned : List Learned

abbrev pub state_label : List (String × String)
state_label =
    ("queued", "Waiting for your machine")
    ∷ ("placed", "Sent to your machine")
    ∷ ("running", "Running")
    ∷ ("succeeded", "Finished")
    ∷ ("failed", "Failed")
    ∷ ("cancelled", "Cancelled")
    ∷ ("expired", "Expired (no machine took it in time)")
    ∷ []

-- `STATES.has`.
unfoldable pub is_state : String → Bool
is_state s = is_some (lookup s state_label)

-- `TERMINAL.has`.
unfoldable pub is_terminal : String → Bool
is_terminal s = includes ("succeeded" ∷ "failed" ∷ "cancelled" ∷ "expired" ∷ []) s

abbrev pub ranks : List (String × ℕ)
ranks =
    ("queued", 0)
    ∷ ("placed", 1)
    ∷ ("running", 2)
    ∷ ("succeeded", 3)
    ∷ ("failed", 3)
    ∷ ("cancelled", 3)
    ∷ ("expired", 3)
    ∷ []

-- `RANK[state]`.
unfoldable pub rank : String → Option ℕ
rank s = lookup s ranks

-- An attempt's state when it ended.
unfoldable pub is_ended : String → Bool
is_ended s = includes ("done" ∷ "failed" ∷ "stopped" ∷ "budget-stopped" ∷ "interrupted" ∷ []) s

abbrev pub attempt_state : List (String × String)
attempt_state =
    ("queued", "queued")
    ∷ ("placed", "queued")
    ∷ ("running", "running")
    ∷ ("succeeded", "done")
    ∷ ("failed", "failed")
    ∷ ("cancelled", "stopped")
    ∷ ("expired", "failed")
    ∷ []

-- `SELECT * FROM run_tasks WHERE id = $1`.
unfoldable pub row_of : Db → String → Option Row
row_of db id = find (λ r. r.id == id) db.rows

-- `UPDATE run_tasks … WHERE id = $1`.
unfoldable pub update_row : (Row → Row) → String → Db → Db
update_row f id db = record db { rows = map (λ r. if r.id == id then f r else r) db.rows }

-- `SELECT * FROM codes_attempts WHERE job_id = $1`.
abbrev pub has_job : String → Option String → Bool
has_job id none = false
has_job id (some job) = job == id

unfoldable pub by_job : List Attempt → Option String → Option Attempt
by_job attempts none = none
by_job attempts (some id) =
    if id == "" then none else find (λ (a : Attempt). has_job id a.job_id) attempts

-- The two tables as the attempts' operations read and write them.
unfoldable pub counted : Row → Counted
counted r = record {
  id = r.id;
  agent = r.agent;
  job_id = r.job_id;
  state = r.state;
  started_at = r.started_at;
  finished_at = r.finished_at;
  attempts_count = r.attempts_count;
}

unfoldable pub store_of : Db → Store
store_of db = record { attempts = db.attempts; tasks = map counted db.rows }

abbrev pub with_count : Option Counted → Row → Row
with_count none r = r
with_count (some t) r = record r { attempts_count = t.attempts_count }

unfoldable pub recounted : List Counted → Row → Row
recounted tasks r = with_count (find (λ (t : Counted). t.id == r.id) tasks) r

unfoldable pub with_store : Store → Db → Db
with_store st db = record db { attempts = st.attempts; rows = map (recounted st.tasks) db.rows }
