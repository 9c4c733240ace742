-- ===== src/Server/Attempts.antt =====
-- server/domain/attempts.js: the attempts of a task, and the fence that one ending starts at most one
-- follow-up. The table codes_attempts is a list of rows in the order of insertion; an INSERT with
-- `ON CONFLICT DO NOTHING` refuses a row that clashes with one of its three unique keys
-- (migrations/0010_task_attempts.sql). Times are milliseconds, costs whole micro-dollars.
pub mod Updates
pub mod Fence
pub mod Plan
pub mod Followed
pub mod Routing
use open_vibe_codes.Prelude.{
  ℕ, zero, suc, ◌+◌, max, String, Bool, true, false, ◌&&◌, ◌||◌, Option, none, some, List, [], ◌∷◌,
  ◌++◌, map, if◌then◌else◌, ◌==◌, string_eq, nat_eq, any, find, keep, lookup, get_or, or_else, leb,
}

pub record Row : Type 0 where
  pub id : String
  pub task_id : String
  pub n : ℕ
  pub agent : Option String
  pub model : Option String
  pub machine : Option String
  pub session : Option String
  pub job_id : Option String
  pub state : String
  pub reason : Option String
  pub why : Option String
  pub kind : String
  pub follow_up_of : Option String
  pub effort : Option String
  pub run_mode : Option String
  pub budget_usd : Option ℕ
  pub budget_tokens : Option ℕ
  pub budget_hit : Option String
  pub cost_usd : Option ℕ
  pub tokens : Option ℕ
  pub steps : Option ℕ
  pub started_at : Option ℕ
  pub finished_at : Option ℕ
  pub created_at : ℕ

-- A row of run_tasks, as the attempts read it.
pub record Task : Type 0 where
  pub id : String
  pub agent : Option String
  pub job_id : Option String
  pub state : String
  pub started_at : Option ℕ
  pub finished_at : Option ℕ
  pub attempts_count : ℕ

pub record Store : Type 0 where
  pub attempts : List Row
  pub tasks : List Task

-- Two rows follow the same attempt up.
abbrev pub same_follow_up : Option String → Option String → Bool
same_follow_up none b = false
same_follow_up (some a) none = false
same_follow_up (some a) (some b) = a == b

-- Two rows share a key: the id, the place on the timeline, or what they follow up.
unfoldable pub clash : Row → Row → Bool
clash r s =
    r.id == s.id
    || (r.task_id == s.task_id && r.n == s.n)
    || same_follow_up r.follow_up_of s.follow_up_of

unfoldable pub clashes : List Row → Row → Bool
clashes rows row = any (λ r. clash r row) rows

-- `INSERT … ON CONFLICT DO NOTHING RETURNING *`.
unfoldable pub insert : List Row → Row → List Row × Bool
insert rows row = if clashes rows row then (rows, false) else (rows ++ row ∷ [], true)

-- `COALESCE(MAX(n), 0) + 1` over the task's rows.
unfoldable pub next_n : List Row → String → ℕ
next_n [] task_id = 1
next_n (r ∷ rows) task_id =
    let rest = next_n rows task_id in if r.task_id == task_id then max (r.n + 1) rest else rest

abbrev task_states : List (String × String)
task_states =
    ("queued", "queued")
    ∷ ("placed", "queued")
    ∷ ("running", "running")
    ∷ ("succeeded", "done")
    ∷ ("failed", "failed")
    ∷ ("cancelled", "stopped")
    ∷ ("expired", "failed")
    ∷ []

-- What an attempt starts with.
pub record Request : Type 0 where
  pub task_id : String
  pub agent : Option String
  pub model : Option String
  pub machine : Option String
  pub session : Option String
  pub effort : Option String
  pub why : Option String
  pub kind : String
  pub state : String
  pub follow_up_of : Option String
  pub usd : ℕ
  pub token_cap : ℕ

-- One round of the loop draws an id and the clock, and other processes may insert rows between its
-- read of the next place and its own INSERT.
pub record Draw : Type 0 where
  pub id : String
  pub now : ℕ
  pub raced : List Row

abbrev pub positive : ℕ → Option ℕ
positive zero = none
positive (suc n) = some (suc n)

unfoldable pub new_row : Draw → ℕ → Request → Row
new_row d n q = record {
  id = d.id;
  task_id = q.task_id;
  n = n;
  agent = q.agent;
  model = q.model;
  machine = q.machine;
  session = q.session;
  job_id = none;
  state = q.state;
  reason = none;
  why = q.why;
  kind = q.kind;
  follow_up_of = q.follow_up_of;
  effort = or_else q.effort none;
  run_mode = none;
  budget_usd = positive q.usd;
  budget_tokens = positive q.token_cap;
  budget_hit = none;
  cost_usd = none;
  tokens = none;
  steps = none;
  started_at = none;
  finished_at = none;
  created_at = d.now;
}

-- The rows that others insert.
unfoldable pub insert_all : List Row → List Row → List Row
insert_all rows [] = rows
insert_all rows (r ∷ others) = insert_all (insert rows r).0 others

unfoldable pub count : String → ℕ → List Task → List Task
count task_id n tasks =
    map (λ t. if t.id == task_id then record t { attempts_count = n } else t) tasks

pub data Created : Type 0 where
  wrote : Row → Store → Created
  seen : Row → Store → Created
  gave_up : Store → Created

-- `SELECT * FROM codes_attempts WHERE follow_up_of = $1`.
abbrev pub names : Option String → String → Bool
names none id = false
names (some f) id = f == id

abbrev pub follows : String → Row → Bool
follows id r = names r.follow_up_of id

unfoldable pub follow_up : List Row → Option String → Option Row
follow_up rows none = none
follow_up rows (some id) = find (follows id) rows

-- How a round ends: its row was written, or another's answers, or the next round is tried.
unfoldable pub ended : Store → Row → Bool → Option Row → Created → Created
ended st row true other again = wrote row (record st { tasks = count row.task_id row.n st.tasks })
ended st row false (some other) again = seen other st
ended st row false none again = again

-- The loop, over what its rounds draw; the source makes five of them.
unfoldable pub create : List Draw → Store → Request → Created
create [] st q = gave_up st
create (d ∷ draws) st q =
    let row = new_row d (next_n st.attempts q.task_id) q in
    let raced = insert_all st.attempts d.raced in
    let (rows, inserted) = insert raced row in
    let after = record st { attempts = rows } in
    ended after row inserted (follow_up rows q.follow_up_of) (create draws after q)

-- `ORDER BY n ASC`.
unfoldable pub insert_by_n : Row → List Row → List Row
insert_by_n r [] = r ∷ []
insert_by_n r (s ∷ rows) = if leb r.n s.n then r ∷ s ∷ rows else s ∷ insert_by_n r rows

unfoldable pub by_n : List Row → List Row
by_n [] = []
by_n (r ∷ rows) = insert_by_n r (by_n rows)

unfoldable pub of_task : List Row → String → List Row
of_task rows task_id = by_n (keep (λ r. r.task_id == task_id) rows)

-- The first attempt of a task that was written before the attempts.
unfoldable pub first_row : String → ℕ → Task → Row
first_row id now t = record {
  id = id;
  task_id = t.id;
  n = 1;
  agent = or_else t.agent none;
  model = none;
  machine = none;
  session = none;
  job_id = or_else t.job_id none;
  state = get_or (lookup t.state task_states) "failed";
  reason = none;
  why = some "the first attempt of this task";
  kind = "first";
  follow_up_of = none;
  effort = none;
  run_mode = none;
  budget_usd = none;
  budget_tokens = none;
  budget_hit = none;
  cost_usd = none;
  tokens = none;
  steps = none;
  started_at = t.started_at;
  finished_at = t.finished_at;
  created_at = now;
}

unfoldable pub list_found : String → ℕ → Store → String → List Row → Option Task → Store × List Row
list_found id now st task_id (r ∷ rows) task = (st, r ∷ rows)
list_found id now st task_id [] none = (st, [])
list_found id now st task_id [] (some t) =
    let rows = (insert st.attempts (first_row id now t)).0 in
    (record st { attempts = rows }, of_task rows task_id)

-- `list`: the attempts of a task in order; a task without one gets its first.
unfoldable pub list : String → ℕ → Store → String → Store × List Row
list id now st task_id =
    if task_id == ""
    then (st, [])
    else list_found id now st task_id (of_task st.attempts task_id)
        (find (λ (t : Task). t.id == task_id) st.tasks)
