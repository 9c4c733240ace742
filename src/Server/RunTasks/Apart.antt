-- ===== src/Server/RunTasks/Apart.antt =====
-- server/domain/run-tasks.js, `afterEnd`: what an operation on one task leaves of the others.
use mathlib.Core.Option
use mathlib.Core.Path.{subst}
use open_vibe_codes.Prelude.{
  [], ◌∷◌, ℕ, ◌≡◌, refl, ap, ◌∙◌, ◌⊎◌, inl, inr, String, Bool, true, false, not, ◌&&◌, Option, none,
  some, List, ◌==◌, string_eq, if◌then◌else◌, Bool-cases, get_or, truthy, ◌++◌,
}
use open_vibe_codes.Harness.Job.{Input, Parsed, refused, accepted}
use open_vibe_codes.Server.Attempts.{
  Task as Counted, Row as Attempt, Created, Store, wrote, seen, gave_up,
}
use open_vibe_codes.Server.Attempts.Plan.{Plan, Note, done, unfinished, stopped, running, follow_up}
use open_vibe_codes.Server.RunTasks.{
  is_state, Row, Job, Db, row_of, update_row, with_store, is_terminal, is_ended, recounted,
  with_count,
}
use open_vibe_codes.Server.RunTasks.Spending.{Env, Budget, remaining_budget}
use open_vibe_codes.Server.Outbox.Emit.{World}
use open_vibe_codes.Server.RunTasks.Record.{
  emit, Next, record_state, record_on, write_state, is_late,
}
use open_vibe_codes.Server.RunTasks.Events.{Delivery, apply_event, next_of_event}
use open_vibe_codes.Server.RunTasks.Outcome.{
  settle, with_outcome, record_placement, placement_on, claim_placement, learned_of, counts,
}
use open_vibe_codes.Server.RunTasks.Follow.{
  Around, Followed, start_follow_up, started, prepared, submitted, give_up, carried_on,
  out_of_budget,
}
use open_vibe_codes.Server.RunTasks.End.{
  after_end, after_row, after_listed, after_attempt, after_bench, carry_out,
}
use open_vibe_codes.Server.RunTasks.Delivered.{row_of-id, row_of-write_row_other}
use open_vibe_codes.Server.RunTasks.Rows.{row_of-update_other, row_of-with_store}

-- A task's state, job and outcome.
abbrev pub face : Row → String × Option String × Option String
face r = (r.state, r.job_id, r.outcome)

abbrev pub face_at : Db → String → Option (String × Option String × Option String)
face_at db id = Option.map face (row_of db id)

-- Every other task has the state, the job and the outcome that it had.
abbrev pub Leaves : String → Db → Db → Type 0
Leaves id db after =
    (other : String) → (id == other) ≡ false → face_at after other ≡ face_at db other

then_Leaves : (id : String) (a b c : Db) → Leaves id a b → Leaves id b c → Leaves id a c
then_Leaves id a b c h k other differ = k other differ ∙ h other differ

update_row-Leaves :
    (f : Row → Row) (id : String) (db : Db)
    → ((r : Row) → (f r).id ≡ r.id)
    → Leaves id db (update_row f id db)
update_row-Leaves f id db same other differ =
    ap (Option.map face) (row_of-update_other f id other db same differ)

with_count-face : (o : Option Counted) (r : Row) → face (with_count o r) ≡ face r
with_count-face none r = refl
with_count-face (some t) r = refl

with_store-Leaves : (st : Store) (id : String) (db : Db) → Leaves id db (with_store st db)
unfolding recounted
with_store-Leaves st id db other differ =
    ap (Option.map face) (row_of-with_store st other db) ∙ same (row_of db other)
  where
    same :
        (o : Option Row) → Option.map face (Option.map (recounted st.tasks) o) ≡ Option.map face o
    same none = refl
    same (some r) = ap some (with_count-face _ r)

placement_on-Leaves :
    (row : Row) (o : Option Row) (db : Db) → Leaves row.id db (placement_on row o db)
unfolding placement_on row_of claim_placement
placement_on-Leaves row none db other differ = refl
placement_on-Leaves row (some current) db other differ =
    by_claim current.placement_recorded (counts row)
  where
    claimed : face_at (update_row claim_placement row.id db) other ≡ face_at db other
    claimed = update_row-Leaves claim_placement row.id db (λ r. refl) other differ

    by_claim :
        (recorded counted : Bool)
        → face_at
            (if recorded
              then db
              else (if counted
                  then record (update_row claim_placement row.id db) {
                    learned = (update_row claim_placement row.id db).learned ++ learned_of row ∷ [];
                  }
                  else update_row claim_placement row.id db))
            other
          ≡ face_at db other
    by_claim true counted = refl
    by_claim false true = claimed
    by_claim false false = claimed

record_placement-Leaves : (row : Row) (db : Db) → Leaves row.id db (record_placement row db)
unfolding record_placement
record_placement-Leaves row db other differ =
    elim (Bool-cases (truthy row.placement_option_key && truthy row.placement_step_kind)) [
      | inl e ↦ rw e (placement_on-Leaves row (row_of db row.id) db other differ)
      | inr e ↦ rw e refl
    ]

settle-Leaves :
    (env : Env) (now : ℕ) (row : Row) (outcome note : String) (db : Db)
    → Leaves row.id db (settle env now row outcome note db)
unfolding settle with_outcome row_of
settle-Leaves env now row outcome note db other differ =
    record_placement-Leaves (with_outcome now outcome note row) _ other differ
    ∙ update_row-Leaves (with_outcome now outcome note) row.id db (λ r. refl) other differ

module _ (env : Env) (o : Around) (row : Row) where
  give_up-Leaves :
      (attempt note : String) (db : Db)
      → Leaves row.id db (give_up env o.world.now row attempt note db)
  unfolding give_up row_of
  give_up-Leaves attempt note db other differ =
      settle-Leaves env o.world.now row "unfinished" note _ other differ

  submitted-Leaves :
      (attempt : String) (answer : String ⊎ Job) (db : Db)
      → Leaves row.id db (submitted env o row attempt answer db)
  unfolding submitted emit row_of carried_on update_row
  submitted-Leaves attempt (inl why) db other differ = give_up-Leaves attempt _ db other differ
  submitted-Leaves attempt (inr job) db other differ =
      update_row-Leaves (carried_on o.world.now job.id) row.id db (λ r. refl) other differ

  prepared-Leaves :
      (attempt : String) (args : Parsed) (db : Db)
      → Leaves row.id db (prepared env o row attempt args db).db
  unfolding prepared row_of
  prepared-Leaves attempt (refused why) db other differ = give_up-Leaves attempt _ db other differ
  prepared-Leaves attempt (accepted args) db other differ =
      submitted-Leaves attempt o.answer _ other differ

  started-Leaves :
      (input : Input) (c : Created) (db : Db) → Leaves row.id db (started env o row input c db).db
  unfolding started
  started-Leaves input (gave_up st) db other differ = with_store-Leaves st row.id db other differ
  started-Leaves input (seen a st) db other differ = with_store-Leaves st row.id db other differ
  started-Leaves input (wrote a st) db other differ =
      prepared-Leaves a.id _ (with_store st db) other differ
      ∙ with_store-Leaves st row.id db other differ

  out_of_budget-Leaves :
      (b : Budget) (db : Db) → Leaves row.id db (out_of_budget env o.world.now row b db)
  unfolding out_of_budget with_outcome
  out_of_budget-Leaves b db other differ =
      record_placement-Leaves (with_outcome o.world.now "unfinished" _ row) _ other differ
      ∙ update_row-Leaves (with_outcome o.world.now "unfinished" _) row.id db (λ r. refl) other
          differ

  start_follow_up-Leaves :
      (ending : Attempt) (plan : Plan) (kind : String) (agent model session : Option String)
      (note : Note) (db : Db)
      → Leaves row.id db (start_follow_up env o row ending plan kind agent model session note db).db
  unfolding start_follow_up
  start_follow_up-Leaves ending plan kind agent model session note db other differ =
      elim (Bool-cases (remaining_budget env db.attempts row.id).exhausted) [
        | inl e ↦ rw e (out_of_budget-Leaves _ db other differ)
        | inr e ↦ rw e (started-Leaves _ _ db other differ)
      ]

  carry_out-Leaves :
      (ending : Attempt) (plan : Plan) (db : Db)
      → Leaves row.id db (carry_out env o row ending plan db).db
  unfolding carry_out
  carry_out-Leaves ending running db other differ = refl
  carry_out-Leaves ending done db other differ = settle-Leaves env _ row _ _ db other differ
  carry_out-Leaves ending unfinished db other differ = settle-Leaves env _ row _ _ db other differ
  carry_out-Leaves ending stopped db other differ = settle-Leaves env _ row _ _ db other differ
  carry_out-Leaves ending (follow_up kind agent model session note) db other differ =
      start_follow_up-Leaves ending _ kind agent model session note db other differ

  after_attempt-Leaves :
      (attempts : List Attempt) (last : Option Attempt) (db : Db)
      → Leaves row.id db (after_attempt env o row attempts last db).db
  unfolding after_attempt
  after_attempt-Leaves attempts none db other differ = refl
  after_attempt-Leaves attempts (some a) db other differ = elim (Bool-cases (is_ended a.state)) [
    | inl e ↦ rw e (carry_out-Leaves a _ db other differ)
    | inr e ↦ rw e refl
  ]

  after_listed-Leaves : (db : Db) → Leaves row.id db (after_listed env o row db).db
  unfolding after_listed
  after_listed-Leaves db other differ =
      after_attempt-Leaves _ _ _ other differ ∙ with_store-Leaves _ row.id db other differ

  after_bench-Leaves : (db : Db) → Leaves row.id db (after_bench env o row db)
  unfolding after_bench
  after_bench-Leaves db other differ =
      settle-Leaves env _ row _ _ _ other differ ∙ with_store-Leaves _ row.id db other differ

  pick_Leaves :
      (b : Bool) (db : Db) (f g : Followed)
      → Leaves row.id db f.db
      → Leaves row.id db g.db
      → Leaves row.id db (if b then f else g).db
  pick_Leaves true db f g h k = h
  pick_Leaves false db f g h k = k

  after_row-Leaves : (db : Db) → Leaves row.id db (after_row env o (some row) db).db
  unfolding after_row
  after_row-Leaves db =
      pick_Leaves (not (is_terminal row.state)) db _ _ (λ other d. refl)
        (pick_Leaves (get_or row.outcome "" == "stopped") db _ _ (λ other d. refl)
          (pick_Leaves (row.kind == "conductor") db _ _ (λ other d. refl)
            (pick_Leaves row.bench db _ _ (after_bench-Leaves db) (after_listed-Leaves db))))

-- The decision on a task's end leaves every other task's state, job and outcome.
pub after_end-Leaves :
    (env : Env) (o : Around) (id : String) (db : Db) → Leaves id db (after_end env o id db).db
unfolding after_end after_row
after_end-Leaves env o id db = by_row (row_of db id) refl
  where
    by_row :
        (found : Option Row) → row_of db id ≡ found → Leaves id db (after_row env o found db).db
    by_row none e = λ other differ. refl
    by_row (some r) e =
        subst (λ i. Leaves i db (after_row env o (some r) db).db) (row_of-id db id r e)
          (after_row-Leaves env o r db)

record_state-Leaves :
    (env : Env) (w : World) (id : String) (next : Next) (db : Db)
    → Leaves id db (record_state env w id next db)
unfolding record_state record_on write_state row_of
record_state-Leaves env w id next db other differ =
    elim (Bool-cases (is_state next.state && not (id == ""))) [
      | inl k ↦ rw k (by_row (row_of db id) refl)
      | inr k ↦ rw k refl
    ]
  where
    by_row :
        (found : Option Row)
        → row_of db id ≡ found
        → face_at (record_on env w next found db) other ≡ face_at db other
    by_row none e = refl
    by_row (some r) e = elim (Bool-cases (is_late next.state r.state)) [
      | inl k ↦ rw k refl
      | inr k ↦ rw k (
          ap (Option.map face)
            (row_of-write_row_other env w next r db other (rw (row_of-id db id r e) differ)))
    ]

-- An applied event leaves every other task's state, job and outcome.
pub apply_event-Leaves :
    (env : Env) (o : Around) (id : String) (e : Delivery) (db : Db)
    → Leaves id db (apply_event env o id e db)
unfolding apply_event
apply_event-Leaves env o id e db other differ = elim (Bool-cases (is_state e.state)) [
  | inl k ↦ rw k (record_state-Leaves env o.world id (next_of_event env e) db other differ)
  | inr k ↦ rw k refl
]
