-- ===== src/Server/Outbox/Emit.antt =====
-- server/events/outbox.js: which event a task's change announces, and the rows it writes. Times are
-- milliseconds, a cost is in whole micro-dollars, and a row of run_tasks comes with its repository's
-- slug (`repo_slug`), its cost and its number of files as they were read out of it.
use open_vibe_codes.Prelude.{
  ℕ, String, Bool, false, Option, none, some, List, [], ◌∷◌, ◌++◌, if◌then◌else◌, ◌==◌, string_eq,
  template, truthy, get_or, not, ◌&&◌, keep,
}
use open_vibe_codes.Runtime.{Runtime, Url, Urls}

-- The five states that are announced; of any other text, none.
unfoldable pub group_of : String → Option String
group_of state =
    if state == "queued"
    then some "queued"
    else if state == "placed"
    then some "running"
    else if state == "running"
    then some "running"
    else if state == "succeeded"
    then some "succeeded"
    else if state == "failed"
    then some "failed"
    else if state == "expired"
    then some "failed"
    else if state == "cancelled"
    then some "cancelled"
    else none

abbrev pub same_group : Option String → String → Bool
same_group none g = false
same_group (some h) g = h == g

unfoldable pub topic_of : Option String → Option String → Option String
topic_of none before = none
topic_of (some g) before =
    if same_group before g then none else some (template ("codes.task." ∷ g ∷ []))

-- `topicFor`; the state before is null on a new task.
unfoldable pub topic_for : String → Option String → Option String
topic_for state previous =
    topic_of (group_of state) (elim previous [ none ↦ none | some before ↦ group_of before ])

-- The first two parts of the path.
unfoldable pub slug_of : Runtime → List String → Option String
slug_of js [] = none
slug_of js (owner ∷ []) = none
slug_of js (owner ∷ name ∷ rest) = some (js.cut 300 (template (owner ∷ "/" ∷ name ∷ [])))

unfoldable pub slug_at : Runtime → Option Url → Option String
slug_at js none = none
slug_at js (some u) =
    if not (u.protocol == "https:") && not (u.protocol == "http:")
    then none
    else slug_of js (
        keep (λ part. not (part == ""))
          (js.split "/" (js.replace "\\.git$ i" "" (js.replace "^\\/+|\\/+$ g" "" u.pathname))))

-- `repoSlug`: owner/name of a repository's address.
unfoldable pub repo_slug : Runtime → Urls → String → Option String
repo_slug js urls url = slug_at js (urls.parse url)

-- A row of run_tasks.
pub record Task : Type 0 where
  pub id : String
  pub subject : Option String
  pub state : String
  pub agent : Option String
  pub repo : Option String
  pub cost : Option ℕ
  pub files : Option ℕ
  pub created_at : Option ℕ
  pub updated_at : Option ℕ
  pub started_at : Option ℕ
  pub finished_at : Option ℕ
  pub error : Option String

pub record TaskPayload : Type 0 where
  pub task_id : String
  pub state : String
  pub agent : Option String
  pub repo : Option String
  pub cost_usd : Option ℕ
  pub files_changed : Option ℕ
  pub started_at : Option ℕ
  pub finished_at : Option ℕ
  pub error : Option String

-- The agent's step, less its constant fields.
pub record StepPayload : Type 0 where
  pub step_id : String
  pub title : String
  pub status : String
  pub started_at : Option ℕ
  pub ended_at : Option ℕ
  pub cost_usd : Option ℕ
  pub reason : Option String

pub data Payload : Type 0 where
  task : TaskPayload → Payload
  step : StepPayload → Payload

-- A row of codes_outbox.
pub record Row : Type 0 where
  pub event_id : String
  pub topic : String
  pub subject : String
  pub payload : Payload
  pub created_at : ℕ
  pub next_attempt_at : ℕ
  pub attempts : ℕ
  pub claimed_at : Option ℕ
  pub claimed_by : Option String
  pub published_at : Option ℕ
  pub dead_at : Option ℕ
  pub dead_reason : Option String
  pub last_error : Option String

-- `x == null ? null : String(x).slice(0, n)`.
abbrev pub cut_or_null : Runtime → ℕ → Option String → Option String
cut_or_null js n none = none
cut_or_null js n (some s) = some (js.cut n s)

unfoldable pub payload_of : Runtime → Task → TaskPayload
payload_of js t = record {
  task_id = t.id;
  state = get_or (group_of t.state) t.state;
  agent = cut_or_null js 80 t.agent;
  repo = t.repo;
  cost_usd = t.cost;
  files_changed = t.files;
  started_at = t.started_at;
  finished_at = t.finished_at;
  error = cut_or_null js 500 t.error;
}

abbrev pub title_of : Option String → String
title_of none = "Coding task"
title_of (some repo) = template ("Coding task on " ∷ repo ∷ [])

unfoldable pub agent_step_of : Runtime → Task → String → StepPayload
agent_step_of js t status = record {
  step_id = t.id;
  title = title_of t.repo;
  status = status;
  started_at = t.created_at;
  ended_at = if status == "running" then none else t.updated_at;
  cost_usd = t.cost;
  reason = if status == "failed" then cut_or_null js 240 t.error else none;
}

-- The row as the INSERT leaves it: due at once, with the table's defaults.
unfoldable pub insert : String → String → String → Payload → ℕ → Row
insert event_id topic subject payload at = record {
  event_id = event_id;
  topic = topic;
  subject = subject;
  payload = payload;
  created_at = at;
  next_attempt_at = at;
  attempts = 0;
  claimed_at = none;
  claimed_by = none;
  published_at = none;
  dead_at = none;
  dead_reason = none;
  last_error = none;
}

-- The topic and the status of the agent's step for a group.
unfoldable pub step_type : Option String → Option (String × String)
step_type none = none
step_type (some g) =
    if g == "running"
    then some ("agent.step.started", "running")
    else if g == "succeeded"
    then some ("agent.step.ended", "done")
    else if g == "failed"
    then some ("agent.step.ended", "failed")
    else if g == "cancelled"
    then some ("agent.step.ended", "stopped")
    else none

-- What the emission draws: two fresh ids and the clock.
pub record World : Type 0 where
  pub event : String
  pub step : String
  pub now : ℕ

-- `emitAgentStep`: the rows that it writes, one or none.
unfoldable pub step_rows : Runtime → World → Task → String → Option (String × String) → List Row
step_rows js w t subject none = []
step_rows js w t subject (some (topic, status)) =
    insert w.step topic subject (step (agent_step_of js t status)) w.now ∷ []

unfoldable pub emit_agent_step : Runtime → World → Task → String → List Row
emit_agent_step js w t subject = step_rows js w t subject (step_type (group_of t.state))

unfoldable pub emit_topic :
    Runtime → World → List Row → Task → String → Option String → List Row × Option String
emit_topic js w rows t subject none = (rows, none)
emit_topic js w rows t subject (some topic) = (
  rows
      ++ insert w.event topic subject (task (payload_of js t)) w.now
        ∷ emit_agent_step js w t subject,
  some w.event,
)

-- `emitTask`: the table after it, and the event's id or null.
unfoldable pub emit_task :
    Runtime → World → List Row → Option Task → Option String → List Row × Option String
emit_task js w rows none previous = (rows, none)
emit_task js w rows (some t) previous =
    if t.id == ""
    then (rows, none)
    else if truthy t.subject
    then emit_topic js w rows t (get_or t.subject "") (topic_for t.state previous)
    else (rows, none)
