-- ===== src/Engine/Chain/Step.antt =====
-- engine/chain.js, `step`: the next step of a task, given the end of its chain.
use open_vibe_codes.Prelude.{
  ℕ, String, Bool, true, false, ◌||◌, Option, none, some, List, [], ◌∷◌, if◌then◌else◌, ◌==◌,
  string_eq, leb, get_or, find, lookup, template, is_some,
}
use open_vibe_codes.Runtime.{Runtime}
use open_vibe_codes.Engine.Effort.{efforts, step_up}
use open_vibe_codes.Engine.Budget.{Status, Limit, Action, wrap_up}
use open_vibe_codes.Engine.Chain.Attempt.{
  Reason, reason_word, is_switchable, How, Resolved, Attempt, reason_of,
}
use open_vibe_codes.Engine.Chain.Facts.{facts, detect}
use open_vibe_codes.Engine.Chain.Runner.{Options, Takeover, next_runner}

-- What should happen to the task; the text is `why`.
pub data Step : Type 0 where
  nothing : String → Step
  wait : String → Step
  done : String → Step
  stop : String → Step
  -- The wrap-up turn, or the stop, of a task at a limit, and whether a prompt goes with it.
  at_limit : Action → Limit → (prompt : Option Limit) → Step
  continue : (session : String) → String → Step
  restart : String → Step
  switch : Takeover → (effort : Option String) → Step
  failed : String → Step

abbrev settled_how : Option Resolved → Bool
settled_how none = false
settled_how (some r) = elim r.how [ How.note ↦ true | How.stopped ↦ true | _ ↦ false ]

-- The owner marked it handled, or stopped it.
unfoldable pub owner_settled : Attempt → Bool
owner_settled run = is_some run.resolved_note || settled_how run.resolved

-- `runs.find((r) => r.key === end.parent)`, when the owner settled it.
unfoldable pub settled_parent : List Attempt → Attempt → Option Attempt
settled_parent runs end = elim end.parent [
  | none ↦ none
  | some p ↦ elim (find (λ r. r.key == p) runs) [
    | none ↦ none
    | some parent ↦ if owner_settled parent then some parent else none
  ]
]

-- A digit count of the attempts, in the words of a failure.
abbrev handled : Attempt → String
handled parent = template (
    "its earlier attempt was marked handled by the owner (" ∷ parent.key
    ∷ "): not switched to another runner" ∷ [])

-- The switch itself: never behind an attempt that the owner settled.
unfoldable pub switch_to : Option Attempt → Option Takeover → Option String → String → Step
switch_to (some parent) choice effort words = failed (handled parent)
switch_to none none effort words = failed words
switch_to none (some t) effort words = switch t effort

-- The effort of a second try: one level up of what the chosen runner accepts.
unfoldable pub raised : Option String → Option Takeover → Option String
raised effort none = none
raised effort (some t) = step_up effort (lookup t.runner efforts)

-- A stop that the engine can fix by itself.
unfoldable pub step_hit : Attempt → Reason → Step
step_hit end Reason.context =
    restart "the context grew too big: a fresh session with a compacted brief"
step_hit end why = elim (facts end).session [
  | none ↦ failed (
      template
        ("the task stopped (" ∷ reason_word why ∷ ") and there is no session to continue" ∷ []))
  | some session ↦ continue session (
      template ("the task stopped (" ∷ reason_word why ∷ "): continue it in the same session" ∷ []))
]

abbrev pub is_error : Reason → Bool
is_error Reason.error = true
is_error _ = false

-- `end.reason || reason(end.error)`.
unfoldable pub why_of : Runtime → Attempt → Reason
why_of js end = elim end.reason [ some why ↦ why | none ↦ reason_of js end.error ]

module _ (shown : ℕ → String) (o : Options) (runs : List Attempt) where
  -- A harness that stopped at its own turn cap.
  unfoldable pub step_turns : Attempt → Step
  step_turns end = elim (facts end).session [
    | some session ↦
        continue session
          "the harness stopped at its turn cap, mid-work: continue it in the same session"
    | none ↦
        switch_to (settled_parent runs end) (next_runner o end end.reason) none
          "the harness stopped at its turn cap, there is no session to continue, and no other runner can take it now"
  ]

  -- The runner switch: two tries for an error, four for what the switch owns.
  unfoldable pub step_switch : Attempt → Reason → Bool → Step
  step_switch end why is_error =
      let tries = get_or end.attempt 1 in
      let choice = next_runner o end end.reason in
      if leb (if is_error then 2 else 4) tries
      then failed (
          template
            ("the task was already retried " ∷ shown tries ∷ " times; the owner must decide" ∷ []))
      else switch_to (settled_parent runs end) choice
          (if is_error then raised end.effort choice else none)
          (template ("no other runner can take it now (" ∷ reason_word why ∷ ")" ∷ []))

-- A log that went quiet, or what `detect` finds.
unfoldable pub hit_of : Runtime → Attempt → Option Reason
hit_of js end = if end.hung then some Reason.hung else detect js end.status (facts end)

module _ (js : Runtime) (shown : ℕ → String) (o : Options) (runs : List Attempt) where
  -- A stop that the engine can fix, else the switch.
  unfoldable pub step_checked : Attempt → Reason → Option Reason → Step
  step_checked end why (some hit) = step_hit end hit
  step_checked end why none =
      if is_switchable why || is_error why
      then step_switch shown o runs end why (is_error why)
      else failed "the task failed"

  -- What comes behind the finished, stopped and budget cases.
  unfoldable pub step_on : Attempt → Reason → Step
  step_on end Reason.turns = step_turns shown o runs end
  step_on end why = step_checked end why (hit_of js end)

  unfoldable pub step_ended : Attempt → Reason → Step
  step_ended end Reason.stopped = stop "the task was stopped on purpose"
  step_ended end Reason.budget =
      let hit = get_or end.budget_hit Limit.steps in
      let wrap = wrap_up (some hit) end.wrap_up in at_limit wrap.action hit wrap.prompt
  step_ended end why = step_on end why

  unfoldable pub step_at : Attempt → Status → Step
  step_at end Status.running = wait "the task is still running"
  step_at end Status.queued = wait "the task is still running"
  step_at end Status.done = done "the task finished"
  step_at end status = step_ended end (why_of js end)

  unfoldable pub step : Option Attempt → Step
  step none = nothing "there are no attempts"
  step (some end) = step_at end end.status
