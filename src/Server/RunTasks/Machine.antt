-- ===== src/Server/RunTasks/Machine.antt =====
-- server/domain/run-tasks.js: the operations on one task, one after another, each on the row as it
-- stands. A task that the person stopped stays stopped, and no job is asked for it.
use mathlib.Core.Option
use mathlib.Core.Option.{some-injective}
use mathlib.Core.Path.{subst}
use open_vibe_codes.Prelude.{
  ℕ, ◌≡◌, refl, ap, sym, ◌∙◌, inl, inr, String, Bool, true, false, not, ◌&&◌, ◌||◌, Option, none,
  some, List, [], ◌∷◌, find, ◌==◌, string_eq, ==_iff, Bool-cases, truthy, All, arith,
}
use open_vibe_codes.Server.Attempts.{Row as Attempt, Store, list}
use open_vibe_codes.Server.Outbox.Emit.{World}
use open_vibe_codes.Server.RunTasks.{
  Row, Job, Db, is_terminal, is_state, row_of, update_row, with_store, recounted, store_of, rank,
}
use open_vibe_codes.Server.RunTasks.Spending.{Env}
use open_vibe_codes.Server.RunTasks.Record.{
  Next, record_state, write_row, write_state, recorded, completed, mark, tell, emit, is_late,
  record_on, is_lower,
}
use open_vibe_codes.Server.RunTasks.Follow.{Around, Followed}
use open_vibe_codes.Server.RunTasks.End.{after_end, after_row, last}
use open_vibe_codes.Server.RunTasks.Turns.{
  Manual, Turned, continue_task, turn_listed, turn_unless_live, turn_guarded, refusal, last_live,
}
use open_vibe_codes.Server.RunTasks.Stop.{stop_task, stop_row}
use open_vibe_codes.Server.RunTasks.Events.{refresh}
use open_vibe_codes.Server.RunTasks.Rows.{row_of-update_row, row_of-with_store, recounted-keeps}
use open_vibe_codes.Server.RunTasks.Delivered.{row_of-id}

-- What happens to a task: a state arrives, its end is decided on, it is read again, the owner carries
-- it on, or stops it.
pub data Act : Type 0 where
  arrives : World → Next → Act
  decided : Around → Act
  read_again : Around → (force : Bool) → Option Job → Act
  carried_on : Around → Manual → Act
  halted : Around → Act

abbrev on_row : (Row → Db → Followed) → Option Row → Db → Followed
on_row f none db = record { db = db; asked = none }
on_row f (some r) db = f r db

abbrev of_turn : Turned → Followed
of_turn t = record { db = t.db; asked = t.asked }

abbrev pub act : Env → String → Act → Db → Followed
act env id (arrives w next) db = record { db = record_state env w id next db; asked = none }
act env id (decided o) db = after_end env o id db
act env id (read_again o force job) db =
    on_row (λ r db. refresh env o force r job db) (row_of db id) db
act env id (carried_on o m) db =
    on_row (λ r db. of_turn (continue_task env o r m db)) (row_of db id) db
act env id (halted o) db = record { db = (stop_task env o id db).db; asked = none }

abbrev pub run : Env → String → List Act → Db → Db
run env id [] db = db
run env id (a ∷ acts) db = run env id acts (act env id a db).db

-- The attempts for which a job is asked, one place for each act.
abbrev pub asked : Env → String → List Act → Db → List (Option String)
asked env id [] db = []
asked env id (a ∷ acts) db = let done = act env id a db in done.asked ∷ asked env id acts done.db

-- The person stopped the task.
pub record IsStopped (db : Db) (id : String) : Type 0 where
  pub row : Row
  pub found : row_of db id ≡ some row
  pub state : row.state ≡ "cancelled"
  pub outcome : row.outcome ≡ some "stopped"

-- The tables after an act on a stopped task.
record StaysStopped (f : Followed) (id : String) : Type 0 where
  stopped : IsStopped f.db id
  unasked : f.asked ≡ none

put-IsStopped :
    (f : Row → Row) (id : String) (db : Db)
    → ((r : Row) → (f r).id ≡ r.id)
    → ((r : Row) → r.state ≡ "cancelled" → (f r).state ≡ "cancelled")
    → ((r : Row) → (f r).outcome ≡ r.outcome)
    → IsStopped db id
    → IsStopped (update_row f id db) id
put-IsStopped f id db same keeps kept h = record {
  row = f h.row;
  found = row_of-update_row f id db same ∙ ap (Option.map f) h.found;
  state = keeps h.row h.state;
  outcome = kept h.row ∙ h.outcome;
}

rows-IsStopped :
    (db after : Db) (id : String) → after.rows ≡ db.rows → IsStopped db id → IsStopped after id
unfolding row_of
rows-IsStopped db after id same h = record {
  row = h.row;
  found = ap (find (λ r. r.id == id)) same ∙ h.found;
  state = h.state;
  outcome = h.outcome;
}

-- Only the same end is not late for a task that was cancelled.
not_late-cancelled : (state : String) → is_late state "cancelled" ≡ false → state ≡ "cancelled"
unfolding is_late is_terminal
not_late-cancelled state h = elim (Bool-cases ("cancelled" == state)) [
  | inl e ↦ sym ((==_iff "cancelled" state).0 e)
  | inr e ↦
      let k =
        or-false_right (is_lower (rank state) (rank "cancelled"))
          (is_terminal "cancelled" && not ("cancelled" == state)) h in
      cc (rw e at k)
]
  where
    or-false_right : (a b : Bool) → (a || b) ≡ false → b ≡ false
    or-false_right a b k = ground arith

tell-IsStopped :
    (same : Bool) (env : Env) (w : World) (r : Row) (before : String) (db : Db) (id : String)
    → IsStopped db id
    → IsStopped (tell same env w r before db) id
unfolding tell emit
tell-IsStopped true env w r before db id h = h
tell-IsStopped false env w r before db id h = rows-IsStopped db _ id refl h

mark-IsStopped :
    (due : Bool) (now : ℕ) (id : String) (db : Db)
    → IsStopped db id
    → IsStopped (mark due now id db) id
unfolding mark completed
mark-IsStopped false now id db h = h
mark-IsStopped true now id db h =
    put-IsStopped (completed now) id db (λ r. refl) (λ r e. e) (λ r. refl) h

write_state-IsStopped :
    (env : Env) (w : World) (next : Next) (r : Row) (db : Db)
    → next.state ≡ "cancelled"
    → IsStopped db r.id
    → IsStopped (write_state env w next r db) r.id
unfolding write_state write_row recorded
write_state-IsStopped env w next r db is h =
    rows-IsStopped (write_row env w next r db) _ r.id refl (
      mark-IsStopped _ w.now r.id _ (
        tell-IsStopped _ env w _ r.state _ r.id
          (put-IsStopped (recorded w.now next) r.id db (λ s. refl) (λ s e. is) (λ s. refl) h)))

record_state-IsStopped :
    (env : Env) (w : World) (id : String) (next : Next) (db : Db)
    → IsStopped db id
    → IsStopped (record_state env w id next db) id
unfolding record_state record_on
record_state-IsStopped env w id next db h =
    elim (Bool-cases (is_state next.state && not (id == ""))) [
      | inr e ↦ rw e h
      | inl e ↦
          rw (e, h.found)
            (elim (Bool-cases (is_late next.state h.row.state)) [
              | inl k ↦ rw k h
              | inr k ↦ rw k (
                  subst (λ i. IsStopped (write_state env w next h.row db) i)
                    (row_of-id db id h.row h.found)
                    (write_state-IsStopped env w next h.row db
                      (not_late-cancelled _ (rw h.state at k))
                      (subst (IsStopped db) (sym (row_of-id db id h.row h.found)) h)))
            ])
    ]

after_end-StaysStopped :
    (env : Env) (o : Around) (id : String) (db : Db)
    → IsStopped db id
    → StaysStopped (after_end env o id db) id
unfolding after_end after_row is_terminal
after_end-StaysStopped env o id db h =
    rw (h.found, h.state, h.outcome) (record { stopped = h; unasked = refl })

recounted-IsStopped :
    (st : Store) (db : Db) (id : String) → IsStopped db id → IsStopped (with_store st db) id
unfolding with_store
recounted-IsStopped st db id h =
    let (same, state, outcome) = recounted-keeps st.tasks h.row in
    record {
      row = recounted st.tasks h.row;
      found = row_of-with_store st id db ∙ ap (Option.map (recounted st.tasks)) h.found;
      state = state ∙ h.state;
      outcome = outcome ∙ h.outcome;
    }

-- The attempts are listed before a turn and before a stop.
abbrev listed : Env → Around → String → Db → Db
listed env o id db = with_store (list o.first_id o.world.now (store_of db) id).0 db

stop_task-IsStopped :
    (env : Env) (o : Around) (id : String) (db : Db)
    → IsStopped db id
    → IsStopped (stop_task env o id db).db id
unfolding stop_task stop_row is_terminal
stop_task-IsStopped env o id db h = elim (Bool-cases (id == "")) [
  | inl e ↦ rw e h
  | inr e ↦
      let k = recounted-IsStopped (list o.first_id o.world.now (store_of db) id).0 db id h in
      rw (e, k.found, k.state, k.outcome) k
]

continue_task-StaysStopped :
    (env : Env) (o : Around) (m : Manual) (r : Row) (db : Db)
    → IsStopped db r.id
    → StaysStopped (of_turn (continue_task env o r m db)) r.id
unfolding continue_task turn_listed turn_unless_live turn_guarded refusal is_terminal
continue_task-StaysStopped env o m r db h = elim (Bool-cases (r.id == "")) [
  | inl e ↦ rw e (record { stopped = h; unasked = refl })
  | inr e ↦
      let k = recounted-IsStopped (list o.first_id o.world.now (store_of db) r.id).0 db r.id h in
      rw e (turn _ (last (list o.first_id o.world.now (store_of db) r.id).1) _ k)
]
  where
    guarded :
        (attempts : List Attempt) (ending : Attempt) (live : Option Attempt) (db : Db)
        → IsStopped db r.id
        → StaysStopped (of_turn (turn_unless_live env o r m ending live db)) r.id
    guarded attempts ending (some a) db k = record { stopped = k; unasked = refl }
    guarded attempts ending none db k =
        rw (k.found, k.state, k.outcome) (record { stopped = k; unasked = refl })

    turn :
        (attempts : List Attempt) (ending : Option Attempt) (db : Db)
        → IsStopped db r.id
        → StaysStopped (of_turn (turn_listed env o r m attempts ending db)) r.id
    turn attempts none db k = record { stopped = k; unasked = refl }
    turn attempts (some ending) db k = guarded attempts ending (last_live attempts) db k

refresh-StaysStopped :
    (env : Env) (o : Around) (force : Bool) (r : Row) (job : Option Job) (db : Db)
    → r.state ≡ "cancelled"
    → r.outcome ≡ some "stopped"
    → IsStopped db r.id
    → StaysStopped (refresh env o force r job db) r.id
unfolding refresh is_terminal
refresh-StaysStopped env o force r job db is out h = elim (Bool-cases (truthy r.job_id)) [
  | inl e ↦ rw (e, is, out) (record { stopped = h; unasked = refl })
  | inr e ↦ rw e (record { stopped = h; unasked = refl })
]

act-StaysStopped :
    (env : Env) (id : String) (a : Act) (db : Db)
    → IsStopped db id
    → StaysStopped (act env id a db) id
act-StaysStopped env id (arrives w next) db h = record {
  stopped = record_state-IsStopped env w id next db h;
  unasked = refl;
}
act-StaysStopped env id (decided o) db h = after_end-StaysStopped env o id db h
act-StaysStopped env id (halted o) db h = record {
  stopped = stop_task-IsStopped env o id db h;
  unasked = refl;
}
act-StaysStopped env id (read_again o force job) db h = rw h.found (
    subst (StaysStopped (refresh env o force h.row job db)) (row_of-id db id h.row h.found) (
      refresh-StaysStopped env o force h.row job db h.state h.outcome
        (subst (IsStopped db) (sym (row_of-id db id h.row h.found)) h)))
act-StaysStopped env id (carried_on o m) db h = rw h.found (
    subst (StaysStopped (of_turn (continue_task env o h.row m db))) (row_of-id db id h.row h.found)
      (continue_task-StaysStopped env o m h.row db
        (subst (IsStopped db) (sym (row_of-id db id h.row h.found)) h)))

-- Once the person stopped a task, no sequence of arriving states, decisions, reads, turns of the owner
-- and stops changes that it is cancelled and stopped, and none of them asks Run for a job; each act
-- runs on the row as it stands.
pub run-StaysStopped :
    (env : Env) (id : String) (acts : List Act) (db : Db)
    → IsStopped db id
    → IsStopped (run env id acts db) id × All (λ a. a ≡ none) (asked env id acts db)
run-StaysStopped env id [] db h = (h, tt)
run-StaysStopped env id (a ∷ acts) db h =
    let k = act-StaysStopped env id a db h in
    let (stays, unasked) = run-StaysStopped env id acts (act env id a db).db k.stopped in
    (stays, (k.unasked, unasked))
