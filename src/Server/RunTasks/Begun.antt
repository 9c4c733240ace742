-- ===== src/Server/RunTasks/Begun.antt =====
-- server/domain/run-tasks.js, `start`: a new task runs, or is failed and needs a person.
use mathlib.Core.Option
use mathlib.Core.Path.{subst}
use open_vibe_codes.Prelude.{
  ◌≢◌, Bool, true, false, ◌≡◌, refl, ap, ◌∙◌, ◌⊎◌, inl, inr, String, Option, none, some, List, [],
  ◌∷◌, ◌++◌, ◌==◌, string_eq, ==_refl, find, Bool-cases,
}
use open_vibe_codes.Server.Attempts.{
  Draw, follow_up, ended, new_row, next_n, insert, insert_all, Request, Created, Store, wrote, seen,
  gave_up, create, Row as Attempt,
}
use open_vibe_codes.Server.RunTasks.{
  store_of, Row, Job, Db, row_of, update_row, with_store, recounted,
}
use open_vibe_codes.Server.RunTasks.Spending.{Env}
use open_vibe_codes.Server.RunTasks.Record.{emit}
use open_vibe_codes.Server.RunTasks.Follow.{Around, Followed}
use open_vibe_codes.Server.RunTasks.Start.{
  first_request, Asked, Chosen, start_with, with_attempt, answered, fail_start, begun, unstarted,
  inserted,
}
use open_vibe_codes.Server.RunTasks.Rows.{row_of-update_row, row_of-with_store, recounted-keeps}
use open_vibe_codes.Server.RunTasks.Settled.{
  outcome_at, outcome_at-record_placement, outcome_at-put,
}

row_of-insert :
    (rows : List Row) (row : Row)
    → find (λ r. r.id == row.id) rows ≡ none
    → find (λ r. r.id == row.id) (rows ++ row ∷ []) ≡ some row
row_of-insert [] row h = rw (==_refl row.id) refl
row_of-insert (r ∷ rows) row h = elim (Bool-cases (r.id == row.id)) [
  | inl e ↦ cc (rw e at h)
  | inr e ↦ rw e (row_of-insert rows row (rw e at h))
]

-- The tables with the task's row, behind its event.
abbrev pub registered : Env → Around → Asked → Chosen → Db → Db
registered env o q c db =
    emit env o.world (inserted o.world.now q c) none
      (record db { rows = db.rows ++ inserted o.world.now q c ∷ [] })

-- How a start ends: an agent takes the task and Run answered its job; or no agent takes it, or Run
-- failed, and it is unfinished; or the rounds were not enough to write its first attempt, and nothing
-- but what they read and others wrote is behind the task's row.
pub data IsBegun (env : Env) (o : Around) (q : Asked) (c : Chosen) (db : Db) (f : Followed)
    : Type 0 where
  asked_for :
      (attempt : String) (job : Job)
      → c.refusal ≡ none
      → o.answer ≡ inr job
      → f.asked ≡ some attempt
      → Option.map (λ (r : Row). r.job_id) (row_of f.db q.id) ≡ some (some job.id)
      → outcome_at f.db q.id ≡ some none
      → IsBegun env o q c db f
  unstarted_for :
      (why : String)
      → (c.refusal ≡ some why) ⊎ ((c.refusal ≡ none) × (o.answer ≡ inl why))
      → outcome_at f.db q.id ≡ some (some "unfinished")
      → IsBegun env o q c db f
  unwritten :
      (st : Store)
      → create o.draws (store_of (registered env o q c db)) (first_request env q c) ≡ gave_up st
      → f ≡ record { db = with_store st (registered env o q c db); asked = none }
      → IsBegun env o q c db f

by_insert :
    (a row : Attempt) (after st' : Store) (inserted : Bool) (again : Created)
    → again ≢ seen a st'
    → ended after row inserted none again ≢ seen a st'
unfolding ended
by_insert a row after st' true again n h = cc
by_insert a row after st' false again n h = n h

-- An attempt that follows up no ending never answers another's row.
create-not_seen :
    (draws : List Draw) (st : Store) (q : Request) (a : Attempt) (st' : Store)
    → q.follow_up_of ≡ none
    → create draws st q ≢ seen a st'
unfolding create follow_up
create-not_seen [] st q a st' n h = cc
create-not_seen (d ∷ draws) st q a st' n h =
    let row = new_row d (next_n st.attempts q.task_id) q in
    let (rows, inserted) = insert (insert_all st.attempts d.raced) row in
    let after = record st { attempts = rows } in
    by_insert a row after st' inserted (create draws after q)
      (create-not_seen draws after q a st' n)
      (subst (λ f. ended after row inserted (follow_up rows f) (create draws after q) ≡ seen a st')
        n h)

module _ (env : Env) (o : Around) (row : Row) where
  fail_start-unfinished :
      (attempt reason why : String) (db : Db) (r : Row)
      → row_of db row.id ≡ some r
      → outcome_at (fail_start env o row attempt reason why db) row.id ≡ some (some "unfinished")
  unfolding fail_start unstarted emit row_of update_row
  fail_start-unfinished attempt reason why db r h =
      outcome_at-record_placement (unstarted o.world.now why row) _
      ∙ outcome_at-put (unstarted o.world.now why) row.id db r (some "unfinished") (λ s. refl)
          (λ s. refl) h

module _ (env : Env) (o : Around) (q : Asked) (c : Chosen) (db : Db) where
  answered-IsBegun :
      (attempt : String) (answer : String ⊎ Job) (tables : Db) (r : Row)
      → c.refusal ≡ none
      → o.answer ≡ answer
      → row_of tables q.id ≡ some r
      → r.outcome ≡ none
      → IsBegun env o q c db (record {
        db = answered env o (inserted o.world.now q c) attempt answer tables;
        asked = some attempt;
      })
  unfolding answered emit row_of update_row begun inserted
  answered-IsBegun attempt (inl why) tables r k e h n =
      IsBegun.unstarted_for why (inr (k, e))
        (fail_start-unfinished env o (inserted o.world.now q c) attempt "error" why tables r h)
  answered-IsBegun attempt (inr job) tables r k e h n =
      let put = row_of-update_row (begun o.world.now job) q.id tables (λ s. refl) in
      IsBegun.asked_for attempt job k e refl
        (ap (Option.map (λ (r : Row). r.job_id)) (put ∙ ap (Option.map _) h))
        (ap (Option.map (λ (r : Row). r.outcome)) (put ∙ ap (Option.map _) h) ∙ ap some n)

  with_attempt-IsBegun :
      (refusal : Option String) (made : Created) (r : Row)
      → c.refusal ≡ refusal
      → create o.draws (store_of (registered env o q c db)) (first_request env q c) ≡ made
      → row_of (registered env o q c db) q.id ≡ some r
      → r.outcome ≡ none
      → IsBegun env o q c db
          (with_attempt env o (inserted o.world.now q c) refusal made (registered env o q c db))
  unfolding with_attempt row_of first_request inserted
  with_attempt-IsBegun none (gave_up st) r k e h n = IsBegun.unwritten st e refl
  with_attempt-IsBegun (some why) (gave_up st) r k e h n = IsBegun.unwritten st e refl
  with_attempt-IsBegun none (seen a st) r k e h n =
      absurd (create-not_seen o.draws _ (first_request env q c) a st refl e)
  with_attempt-IsBegun (some why) (seen a st) r k e h n =
      absurd (create-not_seen o.draws _ (first_request env q c) a st refl e)
  with_attempt-IsBegun (some why) (wrote a st) r k e h n = IsBegun.unstarted_for why (inl k) (
      fail_start-unfinished env o (inserted o.world.now q c) a.id "refused" why
        (with_store st (registered env o q c db)) (recounted st.tasks r)
        (row_of-with_store st q.id _ ∙ ap (Option.map (recounted st.tasks)) h))
  with_attempt-IsBegun none (wrote a st) r k e h n =
      let (id, state, outcome) = recounted-keeps st.tasks r in
      answered-IsBegun a.id o.answer _ (recounted st.tasks r) k refl
        (row_of-with_store st q.id _ ∙ ap (Option.map (recounted st.tasks)) h) (outcome ∙ n)

-- A task that is started under a fresh id ends in one of three ways: an agent takes it, Run answered a
-- job, which the row names, and the task has no outcome yet; no agent takes it, or Run failed, and it is
-- unfinished; or every round to write its first attempt failed, and no job was asked for.
pub start_with-IsBegun :
    (env : Env) (o : Around) (q : Asked) (c : Chosen) (db : Db)
    → row_of db q.id ≡ none
    → IsBegun env o q c db (start_with env o q c db)
unfolding start_with row_of emit inserted
start_with-IsBegun env o q c db fresh =
    with_attempt-IsBegun env o q c db c.refusal _ (inserted o.world.now q c) refl refl
      (row_of-insert db.rows (inserted o.world.now q c) fresh) refl
