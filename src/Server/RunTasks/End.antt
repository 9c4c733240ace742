-- ===== src/Server/RunTasks/End.antt =====
-- server/domain/run-tasks.js, `afterEnd`: what happens when an attempt ended. The knowledge, the rows of the proof and the session report are written elsewhere and change nothing here.
use open_vibe_codes.Prelude.{
  String, not, Option, none, some, List, [], ◌∷◌, if◌then◌else◌, ◌==◌, string_eq, get_or,
}
use open_vibe_codes.Server.Attempts.{Row as Attempt, list}
use open_vibe_codes.Server.Attempts.Plan.{
  Plan, done, unfinished, stopped, running, follow_up, decide,
}
use open_vibe_codes.Server.RunTasks.{Row, Db, is_terminal, is_ended, row_of, store_of, with_store}
use open_vibe_codes.Server.RunTasks.Spending.{Env}
use open_vibe_codes.Server.RunTasks.Outcome.{settle, outcome_of}
use open_vibe_codes.Server.RunTasks.Follow.{Around, Followed, start_follow_up}

-- What the plan says is carried out.
unfoldable pub carry_out : Env → Around → Row → Attempt → Plan → Db → Followed
carry_out env o row ending running db = record { db = db; asked = none }
carry_out env o row ending done db = record {
  db = settle env o.world.now row (outcome_of (o.proof row) "done") (o.words row done) db;
  asked = none;
}
carry_out env o row ending unfinished db = record {
  db =
      settle env o.world.now row (outcome_of (o.proof row) "unfinished") (o.words row unfinished)
        db;
  asked = none;
}
carry_out env o row ending stopped db = record {
  db = settle env o.world.now row (outcome_of (o.proof row) "stopped") (o.words row stopped) db;
  asked = none;
}
carry_out env o row ending (follow_up kind agent model session note) db =
    start_follow_up env o row ending (follow_up kind agent model session note) kind agent model
      session note db

-- `attempts[attempts.length - 1]`.
abbrev pub last {ℓ} : {A : Type ℓ} → List A → Option A
last [] = none
last (x ∷ []) = some x
last (x ∷ y ∷ xs) = last (y ∷ xs)

unfoldable pub after_attempt : Env → Around → Row → List Attempt → Option Attempt → Db → Followed
after_attempt env o row attempts none db = record { db = db; asked = none }
after_attempt env o row attempts (some ending) db =
    let v = o.verdict row attempts ending in
    if is_ended ending.state
    then carry_out env o row ending (decide o.max_continues attempts ending v.why v.choice v.step)
        db
    else record { db = db; asked = none }

-- The attempts are listed first; a task without one gets its first.
unfoldable pub after_listed : Env → Around → Row → Db → Followed
after_listed env o row db =
    let (st, attempts) = list o.first_id o.world.now (store_of db) row.id in
    after_attempt env o row attempts (last attempts) (with_store st db)

-- A benchmark's task ends with its attempt.
unfoldable pub after_bench : Env → Around → Row → Db → Db
after_bench env o row db =
    let verdict = if row.state == "succeeded" then done else unfinished in
    settle env o.world.now row (if row.state == "succeeded" then "done" else "unfinished")
      (o.words row verdict) (with_store (list o.first_id o.world.now (store_of db) row.id).0 db)

unfoldable pub after_row : Env → Around → Option Row → Db → Followed
after_row env o none db = record { db = db; asked = none }
after_row env o (some row) db =
    if not (is_terminal row.state)
    then record { db = db; asked = none }
    else if get_or row.outcome "" == "stopped"
    then record { db = db; asked = none }
    else if row.kind == "conductor"
    then record { db = db; asked = none }
    else if row.bench
    then record { db = after_bench env o row db; asked = none }
    else after_listed env o row db

-- `afterEnd`; a conductor's turn is the conductor's own.
unfoldable pub after_end : Env → Around → String → Db → Followed
after_end env o id db = after_row env o (row_of db id) db
