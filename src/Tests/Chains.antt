-- ===== src/Tests/Chains.antt =====
-- The chain engine on concrete attempts.
use open_vibe_codes.Prelude.{◌≡◌, refl, ◌≢◌, true, false, none, some, [], ◌∷◌}
use open_vibe_codes.Engine.Budget.{Status}
use open_vibe_codes.Engine.Router.Pick.{Subagent}
use open_vibe_codes.Engine.Chain.Attempt.{Reason, Attempt, Event}
use open_vibe_codes.Engine.Chain.Facts.{facts}
use open_vibe_codes.Engine.Chain.Settle.{trail, settle_chain}
use open_vibe_codes.Engine.Chain.Trail.{IsSettled, settle_chain-IsSettled}
use open_vibe_codes.Engine.Chain.Runner.{Options, Takeover, next_runner}
use open_vibe_codes.Engine.Chain.Switch.{TakesOver, next_runner-TakesOver}
use open_vibe_codes.Engine.Chain.Step.{step, why_of}
use open_vibe_codes.Engine.Chain.Retry.{MaySwitch, step-MaySwitch, step-continue}
use open_vibe_codes.Tests.Fixtures.{js}

abbrev limited : Attempt
limited = record {
  key = "cx:a";
  runner = "cx";
  name = "a";
  runner_name = "Codex";
  status = Status.failed;
  updated = 10;
  error = some "usage limit reached";
  reason = some Reason.limit;
  next = none;
  prev = none;
  parent = none;
  resolved_note = none;
  resolved = none;
  budget_hit = none;
  wrap_up = false;
  hung = false;
  attempt = some 1;
  model = none;
  effort = some "high";
  events = Event.final (some "stopped") false ∷ [];
  facts = record {
    exit = none;
    final_text = "";
    has_final = false;
    api_error = "";
    stop_kind = "";
    session = some "s-1";
  };
}

-- Its harness stopped at its own turn cap.
abbrev capped : Attempt
capped = record limited { reason = some Reason.turns; error = none }

abbrev second : Attempt
second = record limited {
  key = "mm:a-r2";
  runner = "mm";
  updated = 20;
  parent = some "cx:a";
  attempt = some 2;
}

abbrev on : Subagent
on = record { enabled = true; max = 2; model = none }

abbrev options : Options
options = record {
  subagents = ("cx", on) ∷ ("mm", on) ∷ [];
  order = "cx" ∷ "mm" ∷ [];
  health = ("cx", "ok") ∷ ("mm", "ok") ∷ [];
  counts = [];
  models = [];
  runners = "cx" ∷ "mm" ∷ [];
  tier = some "standard";
}

abbrev to_mm : Takeover
to_mm = record { runner = "mm"; model = none; why = "Codex hit its usage limit" }

settle_chain-IsSettled_example :
    IsSettled
      (limited ∷ second ∷ [])
      limited
      (trail (limited ∷ second ∷ []) limited)
      (settle_chain (limited ∷ second ∷ []) limited)
settle_chain-IsSettled_example = settle_chain-IsSettled (limited ∷ second ∷ []) limited

next_runner-TakesOver_example :
    (some Reason.limit ≢ some Reason.stopped) × TakesOver options limited (some Reason.limit) to_mm
unfolding next_runner open_vibe_codes.Engine.Chain.Runner.next_in_order
    open_vibe_codes.Engine.Chain.Runner.rotated open_vibe_codes.Engine.Chain.Runner.takes
    open_vibe_codes.Engine.Chain.Runner.takeover open_vibe_codes.Engine.Chain.Runner.default_model
next_runner-TakesOver_example = next_runner-TakesOver options limited (some Reason.limit) to_mm refl

step-MaySwitch_example : MaySwitch js options (limited ∷ []) limited to_mm
unfolding step open_vibe_codes.Engine.Chain.Step.step_at
    open_vibe_codes.Engine.Chain.Step.step_ended open_vibe_codes.Engine.Chain.Step.step_on why_of
    facts open_vibe_codes.Engine.Chain.Facts.with_error
    open_vibe_codes.Engine.Chain.Facts.read_events open_vibe_codes.Engine.Chain.Facts.read_event
    open_vibe_codes.Engine.Chain.Step.step_checked open_vibe_codes.Engine.Chain.Step.hit_of
    open_vibe_codes.Engine.Chain.Step.step_switch open_vibe_codes.Engine.Chain.Step.switch_to
    open_vibe_codes.Engine.Chain.Step.settled_parent open_vibe_codes.Engine.Chain.Facts.detect
    open_vibe_codes.Engine.Chain.Facts.detect_early open_vibe_codes.Engine.Chain.Attempt.reason_of
    open_vibe_codes.Engine.Chain.Attempt.reason_from next_runner
    open_vibe_codes.Engine.Chain.Runner.next_in_order open_vibe_codes.Engine.Chain.Runner.rotated
    open_vibe_codes.Engine.Chain.Runner.takes open_vibe_codes.Engine.Chain.Runner.takeover
    open_vibe_codes.Engine.Chain.Runner.default_model
step-MaySwitch_example = step-MaySwitch js (λ n. "1") options (limited ∷ []) limited to_mm none refl

step-continue_example :
    (capped.status ≢ Status.done)
    × (why_of js capped ≢ Reason.stopped)
    × (why_of js capped ≢ Reason.budget)
    × ((facts capped).session ≡ some "s-1")
unfolding step open_vibe_codes.Engine.Chain.Step.step_at
    open_vibe_codes.Engine.Chain.Step.step_ended open_vibe_codes.Engine.Chain.Step.step_on why_of
    facts open_vibe_codes.Engine.Chain.Facts.with_error
    open_vibe_codes.Engine.Chain.Facts.read_events open_vibe_codes.Engine.Chain.Facts.read_event
    open_vibe_codes.Engine.Chain.Step.step_turns
step-continue_example =
    step-continue js (λ n. "1") options (capped ∷ []) capped "s-1"
      "the harness stopped at its turn cap, mid-work: continue it in the same session" refl
