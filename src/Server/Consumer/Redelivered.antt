-- ===== src/Server/Consumer/Redelivered.antt =====
-- server/events-consumer.js, `handleRun`: what a redelivery changes.
use mathlib.Core.Path.{subst}
use open_vibe_codes.Prelude.{
  ◌≡◌, refl, inl, inr, String, Bool, true, Option, none, some, List, [], ◌∷◌, ◌++◌, arith,
  string_eq, ==_refl, any, Bool-cases,
}
use open_vibe_codes.Server.RunTasks.{Row, Job, is_terminal}
use open_vibe_codes.Server.RunTasks.Spending.{Env}
use open_vibe_codes.Server.RunTasks.Follow.{Around}
use open_vibe_codes.Server.Consumer.{
  Meanwhile, job_re, Seen, Tables, Payload, Event, Handled, failed, answered, has_seen, seen_row,
  ignore, state_in, row_with_job, other, applied, with_result, for_row, for_state, for_payload,
  handle_run,
}

-- The tables behind an answer.
abbrev pub tables_of : Tables → Handled → Tables
tables_of t failed = t
tables_of t (answered after duplicate outcome asked) = after

-- The event is known to the inbox.
abbrev pub Knows : Event → Handled → Type 0
Knows e failed = Unit
Knows e (answered after duplicate outcome asked) = has_seen after.inbox e.event_id ≡ true

any-append_one :
    (p : Seen → Bool) (inbox : List Seen) (s : Seen) → p s ≡ true → any p (inbox ++ s ∷ []) ≡ true
any-append_one p [] s h = rw h refl
any-append_one p (x ∷ inbox) s h = ground (arith, any-append_one p inbox s h)

has_seen-row :
    (e : Event) (task : Option String) (outcome : String) (inbox : List Seen)
    → has_seen (inbox ++ seen_row e task outcome ∷ []) e.event_id ≡ true
unfolding has_seen
has_seen-row e task outcome inbox = any-append_one _ inbox _ (==_refl e.event_id)

module _ (env : Env) (o : Around) (m : Meanwhile) (e : Event) where
  ignore-silent :
      (outcome : String) (task : Option String) (t : Tables)
      → has_seen t.inbox e.event_id ≡ true
      → ignore e outcome task t ≡ answered t true none none
  unfolding ignore
  ignore-silent outcome task t h = rw h refl

  for_state-silent :
      (p : Payload) (state : Option String) (read : Option Job) (t : Tables)
      → has_seen t.inbox e.event_id ≡ true
      → for_state env o m e p state read t ≡ answered t true none none
  unfolding for_state
  for_state-silent p none read t h = ignore-silent _ _ t h
  for_state-silent p (some state) read t h = rw h refl

  for_payload-silent :
      (payload : Option Payload) (read : Option Job) (t : Tables)
      → has_seen t.inbox e.event_id ≡ true
      → for_payload env o m e payload read t ≡ answered t true none none
  unfolding for_payload
  for_payload-silent none read t h = ignore-silent _ _ t h
  for_payload-silent (some p) read t h = elim (Bool-cases (env.js.test job_re p.job_id)) [
    | inl k ↦ rw k (for_state-silent p _ read t h)
    | inr k ↦ rw k (ignore-silent _ _ t h)
  ]

  ignore-Knows :
      (outcome : String) (task : Option String) (t : Tables) → Knows e (ignore e outcome task t)
  unfolding ignore
  ignore-Knows outcome task t = elim (Bool-cases (has_seen t.inbox e.event_id)) [
    | inl k ↦ rw k k
    | inr k ↦ rw k (has_seen-row e task outcome t.inbox)
  ]

  applied-Knows :
      (p : Payload) (state : String) (row : Row) (job : Option Job) (t : Tables)
      → Knows e (applied env o m e p state row job t)
  unfolding applied
  applied-Knows p state row job t = elim (Bool-cases (has_seen t.inbox e.event_id)) [
    | inl k ↦ rw k k
    | inr k ↦ rw k (has_seen-row e (some row.id) state t.inbox)
  ]

  with_result-Knows :
      (p : Payload) (state : String) (row : Row) (job : Option Job) (t : Tables)
      → Knows e (with_result env o m e p state row job t)
  unfolding with_result
  with_result-Knows p state row (some job) t = applied-Knows p state row _ t
  with_result-Knows p state row none t = elim (Bool-cases (is_terminal state)) [
    | inl k ↦ rw k tt
    | inr k ↦ rw k (applied-Knows p state row none t)
  ]

  for_row-Knows :
      (p : Payload) (state : String) (row : Option Row) (job : Option Job) (t : Tables)
      → Knows e (for_row env o m e p state row job t)
  unfolding for_row
  for_row-Knows p state none job t = ignore-Knows _ _ t
  for_row-Knows p state (some row) job t = elim (Bool-cases (other p.requester row.subject)) [
    | inl k ↦ rw k (ignore-Knows _ _ t)
    | inr k ↦ elim (Bool-cases (other p.project_id row.project_id)) [
      | inl l ↦ rw (k, l) (ignore-Knows _ _ t)
      | inr l ↦ rw (k, l) (with_result-Knows p state row job t)
    ]
  ]

  for_state-Knows :
      (p : Payload) (state : Option String) (read : Option Job) (t : Tables)
      → Knows e (for_state env o m e p state read t)
  unfolding for_state
  for_state-Knows p none read t = ignore-Knows _ _ t
  for_state-Knows p (some state) read t = elim (Bool-cases (has_seen t.inbox e.event_id)) [
    | inl k ↦ rw k k
    | inr k ↦ rw k (for_row-Knows p state (row_with_job t.db p.job_id) read (m.reading t))
  ]

  for_payload-Knows :
      (payload : Option Payload) (read : Option Job) (t : Tables)
      → Knows e (for_payload env o m e payload read t)
  unfolding for_payload
  for_payload-Knows none read t = ignore-Knows _ _ t
  for_payload-Knows (some p) read t = elim (Bool-cases (env.js.test job_re p.job_id)) [
    | inl k ↦ rw k (for_state-Knows p (state_in e p) read t)
    | inr k ↦ rw k (ignore-Knows _ _ t)
  ]

-- A delivery that was answered, delivered again, with whatever Run then answers, is a duplicate that
-- changes no table and asks for no job, whatever others did while the first was handled: one run.job
-- event is applied at most once.
pub handle_run-once :
    (env : Env) (o again : Around) (m n : Meanwhile) (e : Event) (read reread : Option Job)
    (t after : Tables) (duplicate : Bool) (outcome asked : Option String)
    → handle_run env o m e read t ≡ answered after duplicate outcome asked
    → handle_run env again n e reread after ≡ answered after true none none
unfolding handle_run
handle_run-once env o again m n e read reread t after duplicate outcome asked h =
    for_payload-silent env again n e e.payload reread after
      (subst (Knows e) h (for_payload-Knows env o m e e.payload read t))
