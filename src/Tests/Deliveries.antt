-- ===== src/Tests/Deliveries.antt =====
-- Deliveries of Run's events and the limits of an attempt, on concrete rows.
use mathlib.Core.Option.{some-injective}
use mathlib.Core.Path.{subst}
use open_vibe_codes.Server.RunTasks.{Row, Db, by_job}
use open_vibe_codes.Prelude.{ap, sym, ◌≡◌, refl, String, false, none, some, [], ◌∷◌, true, All}
use open_vibe_codes.Engine.Budget.{no_limits}
use open_vibe_codes.Server.RunTasks.Minutes.{IsUntimed, record_state-IsUntimed}
use open_vibe_codes.Server.RunTasks.Record.{Next}
use open_vibe_codes.Server.RunTasks.Spending.{Env}
use open_vibe_codes.Server.Consumer.{Event, Tables, handle_run, answered, Meanwhile}
use open_vibe_codes.Server.Consumer.Touched.{Touches, handle_run-Touches}
use open_vibe_codes.Server.Consumer.Redelivered.{tables_of, handle_run-once}
use open_vibe_codes.Server.Attempts.{Row as Attempt, Draw, first_row, Task as Counted}
use open_vibe_codes.Server.RunTasks.{Row, Job, Db, Doc}
use open_vibe_codes.Server.RunTasks.Record.{Next}
use open_vibe_codes.Server.RunTasks.End.{after_end}
use open_vibe_codes.Tests.Tasks.{env, task, tables, around, world}

abbrev job_id : String
job_id = "^job_[0-9A-HJKMNP-TV-Z]{26}$ "

abbrev started_event : Event
started_event = record {
  event_id = "evt1";
  event_type = "run.job.started";
  payload = some (record {
    job_id = job_id;
    state = none;
    requester = some "ana";
    project_id = none;
    error = none;
    started_at = some 5;
    finished_at = none;
  });
}

abbrev inbox_tables : Tables
inbox_tables = record {
  db = record (tables "queued" none) {
    rows = record (task "queued" none) { job_id = some job_id } ∷ [];
  };
  inbox = [];
}

-- Nobody else writes.
abbrev alone : Meanwhile
alone = record { reading = λ t. t; deciding = λ db. db }

handle_run-Touches_example :
    Touches alone inbox_tables started_event.payload
      (handle_run env around alone started_event none inbox_tables)
handle_run-Touches_example = handle_run-Touches env around alone started_event none inbox_tables

abbrev applied_tables : Tables
applied_tables =
    tables_of inbox_tables (handle_run env around alone started_event none inbox_tables)

handle_run-once_example :
    handle_run env around alone started_event none applied_tables
    ≡ answered applied_tables true none none
unfolding open_vibe_codes.Server.Consumer.handle_run open_vibe_codes.Server.Consumer.for_payload
    open_vibe_codes.Server.Consumer.for_state open_vibe_codes.Server.Consumer.for_row
    open_vibe_codes.Server.Consumer.with_result open_vibe_codes.Server.Consumer.applied
    open_vibe_codes.Server.Consumer.state_in open_vibe_codes.Server.Consumer.topic_state
    open_vibe_codes.Server.Consumer.has_seen open_vibe_codes.Server.Consumer.row_with_job
    open_vibe_codes.Server.RunTasks.is_state open_vibe_codes.Server.RunTasks.is_terminal
    open_vibe_codes.Server.RunTasks.End.after_end open_vibe_codes.Server.RunTasks.End.after_row
    open_vibe_codes.Server.RunTasks.row_of open_vibe_codes.Server.RunTasks.Events.apply_event
    open_vibe_codes.Server.RunTasks.Record.record_state
    open_vibe_codes.Server.RunTasks.Events.next_of_event
    open_vibe_codes.Server.RunTasks.Record.record_on open_vibe_codes.Server.RunTasks.Record.is_late
    open_vibe_codes.Server.RunTasks.rank open_vibe_codes.Server.RunTasks.Record.write_state
    open_vibe_codes.Server.RunTasks.Record.write_row open_vibe_codes.Server.RunTasks.Record.mark
    open_vibe_codes.Server.RunTasks.Record.tell open_vibe_codes.Server.RunTasks.Record.emit
    open_vibe_codes.Server.RunTasks.update_row open_vibe_codes.Server.RunTasks.Record.recorded
handle_run-once_example =
    handle_run-once env around around alone alone started_event none none inbox_tables
      applied_tables false (some "running") none refl

-- A minute is the limit, the attempt began an hour ago, and its job fails now.
abbrev limited : Env
limited = record env {
  config = record { all = record no_limits { minutes = some 60000 }; per_runner = [] };
}

abbrev failing : Next
failing = record {
  state = "failed";
  result = none;
  error = some "it broke";
  started_at = none;
  finished_at = none;
  job = none;
}

abbrev runs : Db
runs = record (tables "running" none) {
  rows = record (task "running" none) { job_id = some job_id } ∷ [];
  attempts =
      record (first_row "a1" 9 (open_vibe_codes.Server.RunTasks.counted (task "running" none))) {
        job_id = some job_id;
        started_at = some 1;
      }
      ∷ [];
}

record_state-IsUntimed_example :
    All IsUntimed
      (open_vibe_codes.Server.RunTasks.Record.record_state limited world "t1" failing runs).attempts
unfolding open_vibe_codes.Server.Attempts.first_row open_vibe_codes.Server.RunTasks.counted
    open_vibe_codes.Server.RunTasks.row_of open_vibe_codes.Server.RunTasks.by_job
record_state-IsUntimed_example =
    record_state-IsUntimed limited world "t1" failing runs
      (λ r a found at. sym (
        ap (λ (b : Attempt). b.finished_at)
          (some-injective _ _ (
            subst (λ (x : Row). by_job runs.attempts x.job_id ≡ some a)
              (sym (some-injective _ _ found)) at))))
      ((λ h. cc), tt)
