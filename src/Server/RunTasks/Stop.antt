-- ===== src/Server/RunTasks/Stop.antt =====
-- server/domain/run-tasks.js, `stopTask`.
use open_vibe_codes.Prelude.{
  ℕ, String, ◌&&◌, Option, none, some, List, if◌then◌else◌, ◌==◌, string_eq, get_or, truthy,
}
use open_vibe_codes.Server.Attempts.{Row as Attempt, list}
use open_vibe_codes.Server.Attempts.Updates.{end, Ending}
use open_vibe_codes.Server.RunTasks.{Row, Db, is_terminal, row_of, update_row, store_of, with_store}
use open_vibe_codes.Server.RunTasks.Spending.{Env}
use open_vibe_codes.Server.RunTasks.Record.{emit}
use open_vibe_codes.Server.RunTasks.Follow.{Around, failed_ending}
use open_vibe_codes.Server.RunTasks.Turns.{last_live}

unfoldable pub stopped_row : ℕ → Row → Row
stopped_row now r = record r {
  state = "cancelled";
  outcome = some "stopped";
  outcome_note = some "the task was stopped on purpose";
  finished_at = some (get_or r.finished_at now);
  updated_at = now;
}

unfoldable pub stopped_ending : ℕ → Ending
stopped_ending now = record (failed_ending now "stopped") { state = "stopped" }

abbrev pub end_live : ℕ → Option Attempt → List Attempt → List Attempt
end_live now none attempts = attempts
end_live now (some a) attempts = end now attempts a.id (stopped_ending now)

-- The tables after a stop, and whether it was refused.
pub record Halted : Type 0 where
  pub db : Db
  pub refused : Option String

unfoldable pub stop_row : Env → Around → Option Attempt → Option Row → Db → Halted
stop_row env o running none db = record { db = db; refused = some "no such task" }
stop_row env o running (some current) db =
    if is_terminal current.state && truthy current.outcome
    then record { db = db; refused = some "the task has already ended" }
    else (let told =
          emit env o.world (stopped_row o.world.now current) (some current.state)
            (update_row (stopped_row o.world.now) current.id db) in
        record {
          db = record told { attempts = end_live o.world.now running told.attempts };
          refused = none;
        })

-- `stopTask`; what Run answers to the cancel is only logged.
unfoldable pub stop_task : Env → Around → String → Db → Halted
stop_task env o id db =
    if id == ""
    then record { db = db; refused = some "no such task" }
    else (let (st, attempts) = list o.first_id o.world.now (store_of db) id in
        let listed = with_store st db in
        stop_row env o (last_live attempts) (row_of listed id) listed)
