-- ===== src/Tests/Events.antt =====
-- The outbox and the attempts on concrete rows.
use open_vibe_codes.Prelude.{
  zero, suc, ◌≤◌, ◌≡◌, refl, true, false, none, some, List, [], ◌∷◌, arith, keep, get_elem?, length,
  is_some, inr, inl, ◌==◌, string_eq, ◌&&◌,
}
use open_vibe_codes.Server.Outbox.Emit.{
  Task, TaskPayload, Payload, Row, World, insert, group_of, topic_for, emit_task, payload_of,
  agent_step_of,
}
use open_vibe_codes.Server.Outbox.Announced.{IsAnnounced, emit_task-IsAnnounced}
use open_vibe_codes.Server.Outbox.Relay.{
  Config, Claim, Reply, accepted, threw, backoff_ms, run_once, is_due,
}
use open_vibe_codes.Server.Outbox.Claimed.{HasKeys, run_once-keeps}
use open_vibe_codes.Server.Outbox.Tries.{try_all, try_all-dies}
use open_vibe_codes.Server.Attempts
use open_vibe_codes.Server.Attempts.{Draw, Request, Store, seen, create, follows, insert_all}
use open_vibe_codes.Server.Attempts.Fence.{IsFenced, Step, Reach, Reach-follows-once, create-seen}
use open_vibe_codes.Engine.Router.Pick.{Subagent, Context}
use open_vibe_codes.Engine.Chain.Step.{Step as ChainStep}
use open_vibe_codes.Server.Attempts.Plan.{
  Agent, Note, next_agent, decide, continues, reason_of_ending, is_money,
}
use open_vibe_codes.Server.Attempts.Followed.{
  IsFree, IsFollowUp, next_agent-IsFree, decide-IsFollowUp,
}
use open_vibe_codes.Tests.Fixtures.{js}

abbrev failed_task : Task
failed_task = record {
  id = "t1";
  subject = some "ann";
  state = "failed";
  agent = some "codex";
  repo = none;
  cost = none;
  files = none;
  created_at = some 1;
  updated_at = some 9;
  started_at = some 2;
  finished_at = some 9;
  error = some "the work failed";
}

abbrev world : World
world = record { event = "evt_1"; step = "evt_2"; now = 10 }

abbrev event : Row
event = insert "evt_1" "codes.task.failed" "ann" (Payload.task (payload_of js failed_task)) 10

abbrev step_event : Row
step_event =
    insert "evt_2" "agent.step.ended" "ann" (Payload.step (agent_step_of js failed_task "failed"))
      10

emit_task-IsAnnounced_example : IsAnnounced [] (event ∷ step_event ∷ []) failed_task "evt_1"
unfolding emit_task topic_for group_of open_vibe_codes.Server.Outbox.Emit.emit_topic
    open_vibe_codes.Server.Outbox.Emit.topic_of open_vibe_codes.Server.Outbox.Emit.emit_agent_step
    open_vibe_codes.Server.Outbox.Emit.step_rows open_vibe_codes.Server.Outbox.Emit.step_type
emit_task-IsAnnounced_example =
    emit_task-IsAnnounced js world [] (event ∷ step_event ∷ []) failed_task (some "running") "evt_1"
      refl

abbrev config : Config
config = record { configured = true; refusals = none; attempts = none }

abbrev claims : Claim
claims = record { now = 20; worker = "codes-1"; locked = λ id. false; at_most = λ a b. true }

abbrev dead_row : Row
dead_row = record event { dead_at = some 15 }

keys : HasKeys (dead_row ∷ [])
keys zero zero r s h k e = refl
keys (suc i) j r s h k e = cc
keys zero (suc j) r s h k e = cc

run_once-keeps_example :
    get_elem? (run_once config claims (λ id. accepted 30) 20 (dead_row ∷ [])).0 0 ≡ some dead_row
unfolding insert
run_once-keeps_example =
    run_once-keeps config claims (λ id. accepted 30) 20 (dead_row ∷ []) 0 dead_row keys refl
      (inr (inl refl))

abbrev two_tries : Config
two_tries = record config { refusals = some 2; attempts = some 2 }

abbrev replies : List Reply
replies = threw 30 "events 503" 503 ∷ threw 60 "events 422" 422 ∷ []

try_all-dies_example : is_some (try_all two_tries replies event).dead_at ≡ true
unfolding insert open_vibe_codes.Server.Outbox.Relay.dead_after_refusals
    open_vibe_codes.Server.Outbox.Relay.dead_after_attempts
try_all-dies_example =
    try_all-dies two_tries replies event (refl, (refl, tt)) (omega arith) (omega arith)

abbrev request : Request
request = record {
  task_id = "t1";
  agent = some "codex";
  model = none;
  machine = none;
  session = none;
  effort = none;
  why = none;
  kind = "switch";
  state = "queued";
  follow_up_of = some "att_1";
  usd = 0;
  token_cap = 0;
}

abbrev draw : Draw
draw = record { id = "att_3"; now = 40; raced = [] }

abbrev follower : Attempts.Row
follower = Attempts.new_row (record draw { id = "att_2" }) 2 request

abbrev empty : Store
empty = record { attempts = []; tasks = [] }

abbrev once : Store
once = record { attempts = follower ∷ []; tasks = [] }

Reach-follows-once_example :
    length
      (keep (follows "att_1") (Attempts.Fence.stored (create (draw ∷ []) empty request)).attempts)
    ≤ 1
Reach-follows-once_example =
    Reach-follows-once empty _ "att_1"
      (Reach.then_ (Reach.here empty) (Step.created (draw ∷ []) empty request)) IsFenced.start

create-seen_example :
    create (draw ∷ []) once request
    ≡ seen follower (record once { attempts = insert_all once.attempts draw.raced })
unfolding Attempts.follow_up Attempts.new_row
create-seen_example = create-seen draw [] once request "att_1" follower refl refl

abbrev on : Subagent
on = record { enabled = true; max = 2; model = none }

-- Both agents are healthy, and `cx` has just stopped.
abbrev ctx : Context
ctx = record {
  subagents = ("cx", on) ∷ ("mm", on) ∷ [];
  health = ("cx", "ok") ∷ ("mm", "ok") ∷ [];
  counts = [];
  models = [];
  runs = [];
  ladder =
      (
        "basic",
        record { runner = "cx"; model = none; effort = some "low" }
            ∷ record { runner = "mm"; model = none; effort = some "low" }
            ∷ [],
      )
      ∷ [];
  connections = none;
  fleet = none;
  now = 40;
}

abbrev successor : Agent
successor = record {
  runner = "mm";
  agent = some "minimax-code";
  model = none;
  effort = some "low";
  tier = "basic";
  why = "a short question → cx · low";
}

next_agent-IsFree_example : IsFree js ctx "cx" successor.runner
unfolding next_agent open_vibe_codes.Server.Attempts.Plan.from_pick
    open_vibe_codes.Server.Attempts.Plan.picked_or_first
    open_vibe_codes.Server.Attempts.Plan.may_take open_vibe_codes.Server.Attempts.Plan.first_free
    open_vibe_codes.Server.Attempts.Plan.is_free open_vibe_codes.Server.Attempts.Plan.rungs_of
    open_vibe_codes.Server.Attempts.Plan.shape open_vibe_codes.Engine.Router.Pick.pick
    open_vibe_codes.Engine.Router.Pick.pick_from open_vibe_codes.Engine.Router.Pick.usable
    open_vibe_codes.Engine.Router.Pick.connected open_vibe_codes.Engine.Router.Pick.model_for
    open_vibe_codes.Engine.Router.Pick.choice_at open_vibe_codes.Engine.Router.Pick.why_line
    open_vibe_codes.Engine.Router.Pick.listed_or_null
    open_vibe_codes.Engine.Router.Classify.classify
    open_vibe_codes.Engine.Router.Classify.classify_text
    open_vibe_codes.Engine.Router.Classify.forced open_vibe_codes.Engine.Router.Classify.forced_tier
    open_vibe_codes.Engine.Router.Classify.by_words open_vibe_codes.Engine.Router.Track.reliable
    open_vibe_codes.Engine.Router.Track.track open_vibe_codes.Engine.Router.Track.track_from
    open_vibe_codes.Engine.Router.Windows.room_for open_vibe_codes.Engine.Router.Windows.row_of
    open_vibe_codes.Engine.Effort.fit_effort open_vibe_codes.Engine.Effort.harness_of
    open_vibe_codes.Engine.Effort.fit_in open_vibe_codes.Engine.Effort.accepts
    open_vibe_codes.Engine.Effort.below open_vibe_codes.Engine.Effort.nearest
next_agent-IsFree_example = next_agent-IsFree js ctx "cx" "what is this" successor refl

abbrev ending : Attempts.Row
ending = record follower { agent = some "codex"; reason = some "hung"; session = some "s-1" }

decide-IsFollowUp_example :
    ((reason_of_ending ending none == "budget" && is_money ending.budget_hit) ≡ false)
    × IsFollowUp 2
        (continues (ending ∷ []) ending)
        ending
        (ChainStep.continue "s-1" "hung")
        "continue"
        (some "codex")
        (some "s-1")
unfolding decide open_vibe_codes.Server.Attempts.Plan.plan_of
    open_vibe_codes.Server.Attempts.Plan.reason_of_ending
    open_vibe_codes.Server.Attempts.Plan.continues Attempts.new_row
decide-IsFollowUp_example =
    decide-IsFollowUp 2 (ending ∷ []) ending none none (ChainStep.continue "s-1" "hung") "continue"
      (some "codex") none (some "s-1") (Note.continuation "hung") refl
