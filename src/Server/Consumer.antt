-- ===== src/Server/Consumer.antt =====
-- server/events-consumer.js: `handleRun`, a delivered run.job.* event. The event's id is claimed in
-- the inbox in the transaction that applies it, so that a redelivery changes nothing. The signature
-- of the delivery and the account's events are handled elsewhere.
pub mod Redelivered
pub mod Touched
use open_vibe_codes.Prelude.{
  ℕ, String, Bool, true, false, not, ◌&&◌, ◌||◌, Option, none, some, List, [], ◌∷◌, ◌++◌,
  if◌then◌else◌, ◌==◌, string_eq, any, find, lookup, get_or, truthy,
}
use open_vibe_codes.Server.RunTasks.{Row, Job, JobError, Db, is_state, is_terminal, has_job}
use open_vibe_codes.Server.RunTasks.Words.{error_of_job}
use open_vibe_codes.Server.RunTasks.Spending.{Env}
use open_vibe_codes.Server.RunTasks.Follow.{Around, Followed}
use open_vibe_codes.Server.RunTasks.End.{after_end}
use open_vibe_codes.Server.RunTasks.Events.{Delivery, apply_event}

-- A row of codes_events_inbox.
pub record Seen : Type 0 where
  pub event_id : String
  pub event_type : String
  pub task_id : Option String
  pub outcome : String

pub record Tables : Type 0 where
  pub db : Db
  pub inbox : List Seen

-- The payload of run.job.*; a state of the wrong type reads as missing.
pub record Payload : Type 0 where
  pub job_id : String
  pub state : Option String
  pub requester : Option String
  pub project_id : Option String
  pub error : Option JobError
  pub started_at : Option ℕ
  pub finished_at : Option ℕ

pub record Event : Type 0 where
  pub event_id : String
  pub event_type : String
  pub payload : Option Payload

-- What the handler answers, with the attempt for which a job was asked; `failed` is a throw, behind
-- which the event is delivered again.
pub data Handled : Type 0 where
  failed : Handled
  answered : Tables → (duplicate : Bool) → (outcome asked : Option String) → Handled

abbrev pub state_of_topic : List (String × String)
state_of_topic =
    ("run.job.queued", "queued")
    ∷ ("run.job.started", "running")
    ∷ ("run.job.succeeded", "succeeded")
    ∷ ("run.job.failed", "failed")
    ∷ ("run.job.cancelled", "cancelled")
    ∷ ("run.job.expired", "expired")
    ∷ []

abbrev pub job_re : String
job_re = "^job_[0-9A-HJKMNP-TV-Z]{26}$ "

unfoldable pub has_seen : List Seen → String → Bool
has_seen inbox id = any (λ (s : Seen). s.event_id == id) inbox

-- `INSERT … ON CONFLICT (event_id) DO NOTHING`, behind a test of the id.
abbrev pub seen_row : Event → Option String → String → Seen
seen_row e task outcome = record {
  event_id = e.event_id;
  event_type = e.event_type;
  task_id = task;
  outcome = outcome;
}

-- `ignore`: an event without an effect; a replay answers duplicate.
unfoldable pub ignore : Event → String → Option String → Tables → Handled
ignore e outcome task t =
    if has_seen t.inbox e.event_id
    then answered t true none none
    else answered (record t { inbox = t.inbox ++ seen_row e task outcome ∷ [] }) false
        (some outcome) none

-- The payload's own state, else the topic's.
unfoldable pub topic_state : Option String → Option String
topic_state none = none
topic_state (some topic) = lookup topic state_of_topic

abbrev pub known_state : Option String → Bool
known_state none = false
known_state (some s) = is_state s

unfoldable pub state_in : Event → Payload → Option String
state_in e p = if known_state p.state then p.state else topic_state (some e.event_type)

-- `SELECT * FROM run_tasks WHERE job_id = $1`.
unfoldable pub row_with_job : Db → String → Option Row
row_with_job db job = find (λ (r : Row). has_job job r.job_id) db.rows

-- A name that is given and is another one.
abbrev pub other : Option String → String → Bool
other none own = false
other (some name) own = not (name == "") && not (name == own)

-- What other processes do to the tables: between the SELECT of the row and the transaction, while Run
-- is read, and between the transaction and the decision.
pub record Meanwhile : Type 0 where
  pub reading : Tables → Tables
  pub deciding : Db → Db

-- The transaction claims the event's id and applies the state; then, outside it, what follows an end is
-- decided.
unfoldable pub applied :
    Env → Around → Meanwhile → Event → Payload → String → Row → Option Job → Tables → Handled
applied env o m e p state row job t =
    let db =
      apply_event env o row.id
        (record {
          state = state;
          job = job;
          error = error_of_job env.js p.error;
          started_at = p.started_at;
          finished_at = p.finished_at;
        })
        t.db in
    let next = after_end env o row.id (m.deciding db) in
    if has_seen t.inbox e.event_id
    then answered t true none none
    else answered (record { db = next.db; inbox = t.inbox ++ seen_row e (some row.id) state ∷ [] })
        false (some state) next.asked

-- An end reads its job first; a failure of the read throws.
unfoldable pub with_result :
    Env → Around → Meanwhile → Event → Payload → String → Row → Option Job → Tables → Handled
with_result env o m e p state row none t =
    if is_terminal state then failed else applied env o m e p state row none t
with_result env o m e p state row (some job) t =
    applied env o m e p state row (if is_terminal state then some job else none) t

unfoldable pub for_row :
    Env → Around → Meanwhile → Event → Payload → String → Option Row → Option Job → Tables → Handled
for_row env o m e p state none read t = ignore e "ignored:not_a_codes_task" none t
for_row env o m e p state (some row) read t =
    if other p.requester row.subject
    then ignore e "ignored:another_subject" (some row.id) t
    else if other p.project_id row.project_id
    then ignore e "ignored:another_project" (some row.id) t
    else with_result env o m e p state row read t

unfoldable pub for_state :
    Env → Around → Meanwhile → Event → Payload → Option String → Option Job → Tables → Handled
for_state env o m e p none read t = ignore e "ignored:payload" none t
for_state env o m e p (some state) read t =
    if has_seen t.inbox e.event_id
    then answered t true none none
    else for_row env o m e p state (row_with_job t.db p.job_id) read (m.reading t)

unfoldable pub for_payload :
    Env → Around → Meanwhile → Event → Option Payload → Option Job → Tables → Handled
for_payload env o m e none read t = ignore e "ignored:payload" none t
for_payload env o m e (some p) read t =
    if env.js.test job_re p.job_id
    then for_state env o m e p (state_in e p) read t
    else ignore e "ignored:payload" none t

-- `handleRun`, with what Run answers to the read of the job, and what others do meanwhile: the row is
-- the one that the SELECT found, and what is written then goes to the tables as they stand by then.
unfoldable pub handle_run : Env → Around → Meanwhile → Event → Option Job → Tables → Handled
handle_run env o m e read t = for_payload env o m e e.payload read t
