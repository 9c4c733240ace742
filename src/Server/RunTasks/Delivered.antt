-- ===== src/Server/RunTasks/Delivered.antt =====
-- server/domain/run-tasks.js, `recordState`: deliveries refine the states by themselves, whatever
-- their order and however often they come.
use mathlib.Core.Option
use mathlib.Core.Option.{some-injective}
use mathlib.Core.Path.{subst}
use open_vibe_codes.Prelude.{
  ◌≡◌, refl, ap, sym, ◌∙◌, ◌⊎◌, inl, inr, String, Bool, true, false, not, ◌&&◌, Option, none, some,
  if◌then◌else◌, ◌==◌, string_eq, ==_iff, Bool-cases, is_some, find_sound, ℕ,
}
use open_vibe_codes.Server.Outbox.Emit.{World}
use open_vibe_codes.Server.RunTasks.{Row, Db, is_state, is_terminal, row_of, update_row}
use open_vibe_codes.Server.RunTasks.Spending.{Env}
use open_vibe_codes.Server.RunTasks.Record.{
  Next, record_state, record_on, write_state, write_row, recorded, completed, emit, is_late, tell,
  mark,
}
use open_vibe_codes.Server.RunTasks.Rows.{row_of-update_row, row_of-update_other}
use open_vibe_codes.Server.RunTasks.Advance.{
  Phase, word, arrive, advance, advance-word, is_state-word,
}

-- The state of a task's row.
abbrev pub state_of : Db → String → Option String
state_of db id = Option.map (λ (r : Row). r.state) (row_of db id)

pub row_of-id : (db : Db) (id : String) (r : Row) → row_of db id ≡ some r → r.id ≡ id
unfolding row_of
row_of-id db id r h = (==_iff r.id id).0 (find_sound _ db.rows h).0

pub row_of-tell :
    (same : Bool) (env : Env) (w : World) (r : Row) (before : String) (db : Db) (id : String)
    → row_of (tell same env w r before db) id ≡ row_of db id
unfolding tell emit row_of
row_of-tell true env w r before db id = refl
row_of-tell false env w r before db id = refl

state_of-mark :
    (due : Bool) (now : ℕ) (id : String) (db : Db)
    → state_of (mark due now id db) id ≡ state_of db id
unfolding mark completed
state_of-mark false now id db = refl
state_of-mark true now id db =
    rw (row_of-update_row (completed now) id db (λ r. refl)) (same (row_of db id))
  where
    same :
        (o : Option Row)
        → Option.map (λ (r : Row). r.state) (Option.map (completed now) o)
          ≡ Option.map (λ (r : Row). r.state) o
    same none = refl
    same (some r) = refl

state_of-write_row :
    (env : Env) (w : World) (next : Next) (current : Row) (db : Db)
    → row_of db current.id ≡ some current
    → state_of (write_row env w next current db) current.id ≡ some next.state
unfolding write_row recorded
state_of-write_row env w next current db h =
    state_of-mark _ w.now current.id _
    ∙ rw
        (
          row_of-tell _ env w _ current.state _ current.id,
          row_of-update_row (recorded w.now next) current.id db (λ r. refl),
          h,
        )
        refl

state_of-write_state :
    (env : Env) (w : World) (next : Next) (r : Row) (db : Db) (id : String)
    → row_of db id ≡ some r
    → state_of (write_state env w next r db) id ≡ some next.state
unfolding write_state row_of
state_of-write_state env w next r db id h =
    let same = row_of-id db id r h in
    subst (λ i. state_of (write_row env w next r db) i ≡ some next.state) same
      (state_of-write_row env w next r db (subst (λ i. row_of db i ≡ some r) (sym same) h))

pub record_state-found :
    (env : Env) (w : World) (id : String) (next : Next) (db : Db) (r : Row)
    → (id == "") ≡ false
    → is_state next.state ≡ true
    → row_of db id ≡ some r
    → record_state env w id next db
      ≡ (if is_late next.state r.state then db else write_state env w next r db)
unfolding record_state record_on
record_state-found env w id next db r named known h = rw (known, named, h) refl

-- Where a row stands once a state was recorded.
pub state_of-record_state :
    (env : Env) (w : World) (id : String) (next : Next) (db : Db) (r : Row)
    → (id == "") ≡ false
    → is_state next.state ≡ true
    → row_of db id ≡ some r
    → state_of (record_state env w id next db) id ≡ some (advance r.state next.state)
unfolding advance
state_of-record_state env w id next db r named known h =
    rw (record_state-found env w id next db r named known h)
      (elim (Bool-cases (is_late next.state r.state)) [
        | inl e ↦ rw (e, h) refl
        | inr e ↦ rw e (state_of-write_state env w next r db id h)
      ])

pub row_of-write_row_other :
    (env : Env) (w : World) (next : Next) (current : Row) (db : Db) (other : String)
    → (current.id == other) ≡ false
    → row_of (write_row env w next current db) other ≡ row_of db other
unfolding write_row mark recorded completed
row_of-write_row_other env w next current db other differ =
    marked
      (is_terminal next.state && not (is_some (recorded w.now next current).session_complete_at)) _
    ∙ (row_of-tell _ env w _ current.state _ other
        ∙ row_of-update_other (recorded w.now next) current.id other db (λ r. refl) differ)
  where
    marked : (due : Bool) (db : Db) → row_of (mark due w.now current.id db) other ≡ row_of db other
    marked true db = row_of-update_other (completed w.now) current.id other db (λ r. refl) differ
    marked false db = refl

arrive-not_late : (p q : Phase) → is_late (word q) (word p) ≡ false → word (arrive p q) ≡ word q
unfolding advance
arrive-not_late p q e = sym (advance-word p q) ∙ rw e refl

-- The tables behind a state that was recorded, against the states by themselves.
pub record Refines (db after : Db) (id : String) (p q : Phase) : Type 0 where
  pub state : state_of after id ≡ some (word (arrive p q))
  pub others : (other : String) → (id == other) ≡ false → row_of after other ≡ row_of db other
  pub silent : arrive p q ≡ p → after.outbox ≡ db.outbox

outbox-mark :
    (due : Bool) (now : ℕ) (id : String) (db : Db) → (mark due now id db).outbox ≡ db.outbox
unfolding mark update_row
outbox-mark true now id db = refl
outbox-mark false now id db = refl

outbox-write_row :
    (env : Env) (w : World) (next : Next) (current : Row) (db : Db)
    → (current.state == next.state) ≡ true
    → (write_row env w next current db).outbox ≡ db.outbox
unfolding write_row update_row tell
outbox-write_row env w next current db same = outbox-mark _ w.now current.id _ ∙ rw same refl

-- A state that `recordState` is given moves the task as the states by themselves move: an end is
-- final, and nothing moves back. No other task's row changes, and a state that moves nothing, a
-- repeated one with it, announces nothing.
pub record_state-Refines :
    (env : Env) (w : World) (id : String) (next : Next) (db : Db) (p q : Phase)
    → (id == "") ≡ false
    → state_of db id ≡ some (word p)
    → next.state ≡ word q
    → Refines db (record_state env w id next db) id p q
unfolding write_state row_of arrive
record_state-Refines env w id next db p q named at is =
    let (r, found, stands) = (Option.map-eq-some_iff _ _).0 at in
    let known : is_state next.state ≡ true = rw is (is_state-word q) in
    let run = record_state-found env w id next db r named known found in
    record {
      state =
          rw (← advance-word p q, ← stands, ← is)
            (state_of-record_state env w id next db r named known found);
      others = λ other differ.
          rw run (unmoved r found other differ (Bool-cases (is_late next.state r.state)));
      silent = λ stays. rw run (quiet r stands stays (Bool-cases (is_late next.state r.state)));
    }
  where
    same :
        (r : Row)
        → r.state ≡ word p
        → arrive p q ≡ p
        → is_late next.state r.state ≡ false
        → (r.state == next.state) ≡ true
    same r stands stays e =
        let kept = arrive-not_late p q (rw (stands, is) at e) in
        (==_iff r.state next.state).1 (stands ∙ (ap word (sym stays) ∙ (kept ∙ sym is)))

    unmoved :
        (r : Row)
        → row_of db id ≡ some r
        → (other : String) → (id == other) ≡ false
        → ((is_late next.state r.state ≡ true) ⊎ (is_late next.state r.state ≡ false))
        → row_of (if is_late next.state r.state then db else write_state env w next r db) other
          ≡ row_of db other
    unmoved r found other differ (inl e) = rw e refl
    unmoved r found other differ (inr e) =
        rw e (row_of-write_row_other env w next r db other (rw (row_of-id db id r found) differ))

    quiet :
        (r : Row)
        → r.state ≡ word p
        → arrive p q ≡ p
        → ((is_late next.state r.state ≡ true) ⊎ (is_late next.state r.state ≡ false))
        → (if is_late next.state r.state then db else write_state env w next r db).outbox
          ≡ db.outbox
    quiet r stands stays (inl e) = rw e refl
    quiet r stands stays (inr e) = rw e (outbox-write_row env w next r db (same r stands stays e))
