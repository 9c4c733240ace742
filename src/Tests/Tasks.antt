-- ===== src/Tests/Tasks.antt =====
-- The theorems on run tasks, on a task with one attempt.
use mathlib.Core.List.Perm
use open_vibe_codes.Prelude.{◌≡◌, refl, String, false, Option, none, some, [], ◌∷◌, inr, All}
use open_vibe_codes.Tests.Fixtures.{js}
use open_vibe_codes.Server.RunTasks.Start.{Asked, named, start_with}
use open_vibe_codes.Server.RunTasks.Begun.{IsBegun, start_with-IsBegun}
use open_vibe_codes.Engine.Budget.{no_limits}
use open_vibe_codes.Engine.Chain.Step.{Step}
use open_vibe_codes.Harness.Job.{Input, Args, Process, PushIn}
use open_vibe_codes.Server.Attempts.{Row as Attempt, Draw, first_row, Task as Counted}
use open_vibe_codes.Server.Outbox.Emit.{World}
use open_vibe_codes.Server.RunTasks.{Row, Job, Db, Doc}
use open_vibe_codes.Server.RunTasks.Spending.{Env, remaining_budget}
use open_vibe_codes.Server.RunTasks.Record.{Next}
use open_vibe_codes.Server.RunTasks.Follow.{Around, Verdict}
use open_vibe_codes.Server.RunTasks.End.{after_end}
use open_vibe_codes.Server.RunTasks.Advance.{queued, running, ended, succeeded}
use open_vibe_codes.Server.RunTasks.Delivered.{Refines, record_state-Refines, state_of}
use open_vibe_codes.Server.RunTasks.Ordered.{Sent, deliver, deliver-any_order}
use open_vibe_codes.Server.RunTasks.Machine.{
  decided, arrives, halted, IsStopped, run, asked, run-StaysStopped,
}
use open_vibe_codes.Server.RunTasks.Left.{IsWithin, listed, after_end-IsWithin}

abbrev pub env : Env
env = record {
  js = js;
  urls = record {
    parse = λ url. some (record {
      href = url;
      protocol = "https:";
      username = "";
      password = "";
      pathname = "/a/b";
    });
  };
  config = record { all = no_limits; per_runner = [] };
  defaults = record { usd = none; tokens = none };
  tokens = none;
  counter = λ jti. none;
  fixed = λ digits n. "1.00";
  shown = λ n. "1";
}

abbrev pub task : String → Option String → Row
task state outcome = record {
  id = "t1";
  subject = "ana";
  project_id = "p1";
  repo = "https://git/a/b";
  ref = none;
  prompt = "fix it";
  agent = some "codex";
  push = false;
  pull_request = false;
  kind = "task";
  bench = false;
  state = state;
  job_id = some "job1";
  outcome = outcome;
  outcome_note = none;
  error = none;
  result = none;
  started_at = none;
  finished_at = none;
  session_complete_at = none;
  placement_option_key = none;
  placement_step_kind = none;
  placement_recorded = false;
  attempts_count = 1;
  created_at = 1;
  updated_at = 1;
}

abbrev pub tables : String → Option String → Db
tables state outcome = record {
  rows = task state outcome ∷ [];
  attempts = [];
  outbox = [];
  notices = [];
  learned = [];
}

abbrev pub world : World
world = record { event = "e1"; step = "s1"; now = 9 }

abbrev plain : Next
plain = record {
  state = "running";
  result = none;
  error = none;
  started_at = none;
  finished_at = none;
  job = none;
}

abbrev pub around : Around
around = record {
  first_id = "a1";
  draws = record { id = "a2"; now = 9; raced = [] } ∷ [];
  world = world;
  max_continues = 3;
  verdict = λ r attempts ending. record {
    why = none;
    choice = none;
    step = Step.continue "s1" "carry on";
  };
  proof = λ r. [];
  prompt_with = λ r ending note. "fix it, still";
  words = λ r plan. "carried on";
  process = record { allow_file_repo = false; resume = none };
  funding = "plan";
  answer = inr (record {
    id = "job2";
    state = "queued";
    result = none;
    error = none;
    node = none;
    machine = none;
    started_at = none;
    finished_at = none;
  });
}

record_state-Refines_example :
    Refines
      (tables "running" none)
      (open_vibe_codes.Server.RunTasks.Record.record_state env world "t1"
        (record plain { state = "succeeded" })
        (tables "running" none))
      "t1"
      running
      (ended succeeded)
unfolding open_vibe_codes.Server.RunTasks.row_of
record_state-Refines_example =
    record_state-Refines env world "t1" (record plain { state = "succeeded" })
      (tables "running" none) running (ended succeeded) refl refl refl

abbrev early : Sent
early = record { world = world; phase = running; rest = plain }

abbrev late : Sent
late = record { world = world; phase = ended succeeded; rest = plain }

deliver-any_order_example :
    state_of (deliver env "t1" (early ∷ late ∷ []) (tables "queued" none)) "t1"
    ≡ state_of (deliver env "t1" (late ∷ early ∷ []) (tables "queued" none)) "t1"
unfolding open_vibe_codes.Server.RunTasks.row_of
deliver-any_order_example =
    deliver-any_order env "t1" succeeded (early ∷ late ∷ []) (late ∷ early ∷ [])
      (tables "queued" none) queued refl refl (Perm.swap late early []) refl

run-StaysStopped_example :
    IsStopped
      (run env "t1"
        (arrives world plain ∷ decided around ∷ halted around ∷ [])
        (tables "cancelled" (some "stopped")))
      "t1"
    × All
        (λ a. a ≡ none)
        (asked env "t1"
          (arrives world plain ∷ decided around ∷ halted around ∷ [])
          (tables "cancelled" (some "stopped")))
unfolding open_vibe_codes.Server.RunTasks.row_of
run-StaysStopped_example =
    run-StaysStopped env "t1" (arrives world plain ∷ decided around ∷ halted around ∷ [])
      (tables "cancelled" (some "stopped"))
      (record {
        row = task "cancelled" (some "stopped");
        found = refl;
        state = refl;
        outcome = refl;
      })

after_end-IsWithin_example :
    IsWithin (remaining_budget env (listed env around "t1" (tables "failed" none)).attempts "t1")
unfolding open_vibe_codes.Server.RunTasks.row_of open_vibe_codes.Server.RunTasks.store_of
    open_vibe_codes.Server.RunTasks.counted open_vibe_codes.Server.RunTasks.is_ended
    open_vibe_codes.Server.RunTasks.with_store open_vibe_codes.Server.RunTasks.recounted
    open_vibe_codes.Server.RunTasks.is_terminal open_vibe_codes.Server.RunTasks.update_row
    open_vibe_codes.Server.Attempts.list open_vibe_codes.Server.Attempts.list_found
    open_vibe_codes.Server.Attempts.first_row open_vibe_codes.Server.Attempts.of_task
    open_vibe_codes.Server.Attempts.by_n open_vibe_codes.Server.Attempts.insert_by_n
    open_vibe_codes.Server.Attempts.insert open_vibe_codes.Server.Attempts.clashes
    open_vibe_codes.Server.Attempts.clash open_vibe_codes.Server.Attempts.Plan.decide
    open_vibe_codes.Server.Attempts.Plan.reason_of_ending
    open_vibe_codes.Server.Attempts.Plan.plan_of open_vibe_codes.Server.Attempts.Plan.continues
    open_vibe_codes.Server.RunTasks.End.after_end open_vibe_codes.Server.RunTasks.End.after_row
    open_vibe_codes.Server.RunTasks.End.after_listed
    open_vibe_codes.Server.RunTasks.End.after_attempt open_vibe_codes.Server.RunTasks.End.carry_out
    open_vibe_codes.Server.RunTasks.Follow.start_follow_up
    open_vibe_codes.Server.RunTasks.Follow.started open_vibe_codes.Server.RunTasks.Follow.prepared
    open_vibe_codes.Server.RunTasks.Follow.follow_up_input
    open_vibe_codes.Server.RunTasks.Follow.request_of
    open_vibe_codes.Server.RunTasks.Spending.remaining_budget
    open_vibe_codes.Server.RunTasks.Spending.caps_of
    open_vibe_codes.Server.RunTasks.Spending.budget_for
    open_vibe_codes.Server.RunTasks.Spending.budget_of open_vibe_codes.Server.Attempts.create
    open_vibe_codes.Server.Attempts.new_row open_vibe_codes.Server.Attempts.next_n
    open_vibe_codes.Server.Attempts.insert_all open_vibe_codes.Server.Attempts.ended
    open_vibe_codes.Server.Attempts.follow_up open_vibe_codes.Server.Attempts.count
    open_vibe_codes.Harness.Job.Parse.parse_args open_vibe_codes.Harness.Job.Parse.kind_of
    open_vibe_codes.Harness.Job.Parse.checked_repo open_vibe_codes.Harness.Job.Parse.checked_url
    open_vibe_codes.Harness.Job.Parse.allowed_scheme
    open_vibe_codes.Harness.Job.Parse.has_credentials open_vibe_codes.Harness.Job.Parse.ref_refusal
    open_vibe_codes.Harness.Job.Parse.push_refusal open_vibe_codes.Harness.Job.Parse.parse_job
    open_vibe_codes.Harness.Job.Parse.args_of open_vibe_codes.Harness.Job.Parse.session_of
    open_vibe_codes.Harness.Job.Parse.resume_of open_vibe_codes.Harness.Job.Parse.model_of
    open_vibe_codes.Harness.Job.Parse.agent_of open_vibe_codes.Harness.Job.Parse.limits_of
    open_vibe_codes.Harness.Job.Parse.permission_of
    open_vibe_codes.Harness.Job.Parse.job_attachments
    open_vibe_codes.Harness.Job.Parse.attachments_of open_vibe_codes.Harness.Job.Parse.job_env
after_end-IsWithin_example = after_end-IsWithin env around "t1" (tables "failed" none) "a2" refl

abbrev first_attempt : Attempt
first_attempt = first_row "a1" 9 (open_vibe_codes.Server.RunTasks.counted (task "failed" none))

abbrev request : Asked
request = record {
  id = "t2";
  subject = "ana";
  project = "p1";
  args = record {
    kind = "code";
    repo = some "https://git/a/b";
    ref = none;
    prompt = "fix it";
    permission = "edit";
    push = none;
    attachments = [];
    limits = none;
    resume = none;
    env = [];
    agent = some "codex";
    model = none;
    effort = none;
    knowledge = none;
    base_patch = none;
    folder = none;
    safety = none;
    mcp = false;
    codes_url = none;
    task_id = none;
  };
  limits = none;
  bench = false;
  placement_key = none;
  placement_kind = none;
  context = record {
    subagents = [];
    health = [];
    counts = [];
    models = [];
    runs = [];
    ladder = [];
    connections = none;
    fleet = none;
    now = 9;
  };
  no_agent = "no agent may take it";
}

start_with-IsBegun_example :
    IsBegun env around request
      (named request "codex")
      (tables "queued" none)
      (start_with env around request (named request "codex") (tables "queued" none))
unfolding open_vibe_codes.Server.RunTasks.row_of
start_with-IsBegun_example =
    start_with-IsBegun env around request (named request "codex") (tables "queued" none) refl
