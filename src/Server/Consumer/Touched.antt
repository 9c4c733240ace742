-- ===== src/Server/Consumer/Touched.antt =====
-- server/events-consumer.js, `handleRun`: which task an event changes.
use open_vibe_codes.Prelude.{
  ◌≡◌, refl, ◌⊎◌, inl, inr, String, Bool, true, false, Option, none, some, Bool-cases, find_sound,
  string_eq,
}
use open_vibe_codes.Server.RunTasks.{Row, Job, Db, is_terminal, has_job}
use open_vibe_codes.Server.RunTasks.Spending.{Env}
use open_vibe_codes.Server.RunTasks.Follow.{Around}
use open_vibe_codes.Server.RunTasks.Apart.{Leaves, apply_event-Leaves, after_end-Leaves}
use open_vibe_codes.Server.Consumer.{
  Meanwhile, job_re, Tables, Payload, Event, Handled, failed, answered, has_seen, ignore, state_in,
  row_with_job, other, applied, with_result, for_row, for_state, for_payload, handle_run,
}

-- The event is about the row as it was found: its job is the row's then, and who asked for the job and
-- where are the row's own, when they are given.
pub record IsAbout (p : Payload) (row : Row) : Type 0 where
  pub job : has_job p.job_id row.job_id ≡ true
  pub subject : other p.requester row.subject ≡ false
  pub project : other p.project_id row.project_id ≡ false

-- What an answer leaves of the tasks: the transaction and the decision, between which others write,
-- each change no task but the row's.
pub data Changes (m : Meanwhile) (t : Tables) (row : Row) (h : Handled) : Type 0 where
  unchanged :
      (after : Tables) (duplicate : Bool) (outcome asked : Option String)
      → h ≡ answered after duplicate outcome asked
      → after.db ≡ (m.reading t).db
      → Changes m t row h
  thrown : h ≡ failed → Changes m t row h
  changed :
      (after : Tables) (duplicate : Bool) (outcome asked : Option String) (written : Db)
      → h ≡ answered after duplicate outcome asked
      → Leaves row.id (m.reading t).db written
      → Leaves row.id (m.deciding written) after.db
      → Changes m t row h

-- The tasks are as they were found, or as others left them while Run was read; or the event is about
-- the row that was found.
pub data Touches (m : Meanwhile) (t : Tables) (payload : Option Payload) (h : Handled)
    : Type 0 where
  nothing :
      (after : Tables) (duplicate : Bool) (outcome asked : Option String)
      → h ≡ answered after duplicate outcome asked
      → (after.db ≡ t.db) ⊎ (after.db ≡ (m.reading t).db)
      → Touches m t payload h
  own :
      (p : Payload) (row : Row)
      → payload ≡ some p
      → row_with_job t.db p.job_id ≡ some row
      → IsAbout p row
      → Changes m t row h
      → Touches m t payload h

module _ (env : Env) (o : Around) (m : Meanwhile) (e : Event) where
  ignore-before :
      (outcome : String) (task : Option String) (t : Tables) (payload : Option Payload)
      → Touches m t payload (ignore e outcome task t)
  unfolding ignore
  ignore-before outcome task t payload = elim (Bool-cases (has_seen t.inbox e.event_id)) [
    | inl k ↦ rw k (Touches.nothing t true none none refl (inl refl))
    | inr k ↦ rw k (Touches.nothing _ false (some outcome) none refl (inl refl))
  ]

  ignore-behind :
      (outcome : String) (task : Option String) (t : Tables) (payload : Option Payload)
      → Touches m t payload (ignore e outcome task (m.reading t))
  unfolding ignore
  ignore-behind outcome task t payload =
      elim (Bool-cases (has_seen (m.reading t).inbox e.event_id)) [
        | inl k ↦ rw k (Touches.nothing (m.reading t) true none none refl (inr refl))
        | inr k ↦ rw k (Touches.nothing _ false (some outcome) none refl (inr refl))
      ]

  applied-Changes :
      (p : Payload) (state : String) (row : Row) (job : Option Job) (t : Tables)
      → Changes m t row (applied env o m e p state row job (m.reading t))
  unfolding applied
  applied-Changes p state row job t = elim (Bool-cases (has_seen (m.reading t).inbox e.event_id)) [
    | inl k ↦ rw k (Changes.unchanged (m.reading t) true none none refl refl)
    | inr k ↦ rw k (
        Changes.changed _ false (some state) _ _ refl
          (apply_event-Leaves env o row.id _ (m.reading t).db) (after_end-Leaves env o row.id _))
  ]

  with_result-Changes :
      (p : Payload) (state : String) (row : Row) (job : Option Job) (t : Tables)
      → Changes m t row (with_result env o m e p state row job (m.reading t))
  unfolding with_result
  with_result-Changes p state row (some job) t = applied-Changes p state row _ t
  with_result-Changes p state row none t = elim (Bool-cases (is_terminal state)) [
    | inl k ↦ rw k (Changes.thrown refl)
    | inr k ↦ rw k (applied-Changes p state row none t)
  ]

  for_row-Touches :
      (p : Payload) (state : String) (row : Option Row) (read : Option Job) (t : Tables)
      → row_with_job t.db p.job_id ≡ row
      → Touches m t (some p) (for_row env o m e p state row read (m.reading t))
  unfolding for_row row_with_job
  for_row-Touches p state none read t h = ignore-behind _ _ t (some p)
  for_row-Touches p state (some row) read t h = elim (Bool-cases (other p.requester row.subject)) [
    | inl k ↦ rw k (ignore-behind _ _ t (some p))
    | inr k ↦ elim (Bool-cases (other p.project_id row.project_id)) [
      | inl l ↦ rw (k, l) (ignore-behind _ _ t (some p))
      | inr l ↦
          rw (k, l)
            (Touches.own p row refl h
              (record { job = (find_sound _ t.db.rows h).0; subject = k; project = l })
              (with_result-Changes p state row read t))
    ]
  ]

  for_state-Touches :
      (p : Payload) (state : Option String) (read : Option Job) (t : Tables)
      → Touches m t (some p) (for_state env o m e p state read t)
  unfolding for_state
  for_state-Touches p none read t = ignore-before _ _ t (some p)
  for_state-Touches p (some state) read t = elim (Bool-cases (has_seen t.inbox e.event_id)) [
    | inl k ↦ rw k (Touches.nothing t true none none refl (inl refl))
    | inr k ↦ rw k (for_row-Touches p state (row_with_job t.db p.job_id) read t refl)
  ]

  for_payload-Touches :
      (payload : Option Payload) (read : Option Job) (t : Tables)
      → Touches m t payload (for_payload env o m e payload read t)
  unfolding for_payload
  for_payload-Touches none read t = ignore-before _ _ t none
  for_payload-Touches (some p) read t = elim (Bool-cases (env.js.test job_re p.job_id)) [
    | inl k ↦ rw k (for_state-Touches p (state_in e p) read t)
    | inr k ↦ rw k (ignore-before _ _ t (some p))
  ]

-- A run.job event changes no task unless, when it was looked up, its job was a task's present one, for
-- the person and the project that the event names, when it names them. Then the transaction and the
-- decision, whatever others write before each, leave the state, the job and the outcome of every other
-- task as they find them. (That the row still has that job when it is written is not said.)
pub handle_run-Touches :
    (env : Env) (o : Around) (m : Meanwhile) (e : Event) (read : Option Job) (t : Tables)
    → Touches m t e.payload (handle_run env o m e read t)
unfolding handle_run
handle_run-Touches env o m e read t = for_payload-Touches env o m e e.payload read t
