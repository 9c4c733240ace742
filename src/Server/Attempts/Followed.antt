-- ===== src/Server/Attempts/Followed.antt =====
-- server/domain/attempts.js: who takes a task over, and when an ending has a follow-up.
use mathlib.Core.Option.{some-injective}
use open_vibe_codes.Prelude.{
  get_or, ℕ, ◌<◌, ◌≡◌, ◌≢◌, inl, inr, ap, String, Bool, true, false, not, ◌&&◌, Option, none, some,
  List, [], ◌∷◌, arith, Bool-cases, Option-cases, ◌==◌, string_eq, ==_iff, and-true, not-true, leb,
  truthy, lookup,
}
use open_vibe_codes.Runtime.{Runtime}
use open_vibe_codes.Engine.Budget.{Action, Limit}
use open_vibe_codes.Engine.Router.Pick.{Rung, Context, Choice, pick, Subagent, has_slot, is_healthy}
use open_vibe_codes.Engine.Chain.Attempt.{Reason}
use open_vibe_codes.Engine.Chain.Step.{Step}
use open_vibe_codes.Engine.Chain.Runner.{Takeover}
use mathlib.Core.Path.{subst}
use open_vibe_codes.Server.Attempts.{Row}
use open_vibe_codes.Engine.Router.Room.{HasRoom, room_for_iff}
use open_vibe_codes.Engine.Router.Ladder.{slot-of, healthy-of}
use open_vibe_codes.Server.Attempts.Plan.{
  word_or_null, Agent, is_free, may_take, shape, first_free, rungs_of, picked_or_first, from_pick,
  next_agent, Plan, Note, follow_up, is_money, reason_of_ending, continues, switch_plan, limit_plan,
  plan_of, decide, harness_of_runner,
}

module _ (js : Runtime) (ctx : Context) (exclude : String) where
  -- An agent that is free now and is not the one that just stopped: configured and on, under its number
  -- of jobs, healthy, and with room in the fleet.
  pub record IsFree (runner : String) : Type 0 where
    pub other : runner ≢ exclude
    pub subagent : Subagent
    pub configured : lookup runner ctx.subagents ≡ some subagent
    pub on : subagent.enabled ≡ true
    pub slot : get_or (lookup runner ctx.counts) 0 < subagent.max
    pub healthy : lookup runner ctx.health ≡ some "ok"
    pub room : HasRoom ctx.fleet runner ctx.now

  IsFree-of : (runner : String) → may_take ctx exclude runner ≡ true → IsFree runner
  unfolding may_take is_free
  IsFree-of runner h =
      let (other, free) = and-true (not (runner == exclude)) _ h in
      let (has, rest) = and-true (has_slot (lookup runner ctx.subagents) _) _ free in
      let (ok, room) = and-true (is_healthy (lookup runner ctx.health)) _ rest in
      let (s, configured, on, slot) = slot-of (lookup runner ctx.subagents) _ has in
      record {
        other = λ e. absurd (apart (not-true _ other) ((==_iff runner exclude).1 e));
        subagent = s;
        configured = configured;
        on = on;
        slot = slot;
        healthy = healthy-of (lookup runner ctx.health) ok;
        room = (room_for_iff ctx.fleet runner ctx.now).0 room;
      }
    where
      apart : {b : Bool} → b ≡ false → b ≡ true → ⊥
      apart h k = cc

  first_free-IsFree :
      (tier : String) (why : Option String) (rungs : List Rung) (a : Agent)
      → first_free js ctx exclude tier why rungs ≡ some a
      → IsFree a.runner
  unfolding first_free shape
  first_free-IsFree tier why [] a h = cc
  first_free-IsFree tier why (r ∷ rungs) a h = elim (Bool-cases (may_take ctx exclude r.runner)) [
    | inl e ↦
        let at : r.runner ≡ a.runner =
          ap (λ x. x.runner) (some-injective _ _ (rw (e, first_free) at h)) in
        subst IsFree at (IsFree-of r.runner e)
    | inr e ↦ first_free-IsFree tier why rungs a (rw (e, first_free) at h)
  ]

  picked_or_first-IsFree :
      (tier : String) (picked : Option Choice) (a : Agent)
      → picked_or_first js ctx exclude tier picked ≡ some a
      → IsFree a.runner
  unfolding picked_or_first shape
  picked_or_first-IsFree tier none a h = first_free-IsFree tier none (rungs_of ctx tier) a h
  picked_or_first-IsFree tier (some c) a h = elim (Bool-cases (may_take ctx exclude c.runner)) [
    | inl e ↦
        let at : c.runner ≡ a.runner =
          ap (λ x. x.runner) (some-injective _ _ (rw (e, picked_or_first) at h)) in
        subst IsFree at (IsFree-of c.runner e)
    | inr e ↦
        first_free-IsFree c.tier (some c.why) (rungs_of ctx c.tier) a (rw (e, picked_or_first) at h)
  ]

  -- The agent that takes a task over is never the one that just stopped, and it is configured, on,
  -- under its number of jobs, healthy, and has room in the fleet.
  pub next_agent-IsFree :
      (prompt : String) (a : Agent)
      → next_agent js ctx prompt exclude ≡ some (some a)
      → IsFree a.runner
  unfolding next_agent from_pick
  next_agent-IsFree prompt a h = elim (Option-cases (pick js ctx prompt none)) [
    | inl e ↦ cc (rw (e, next_agent, from_pick) at h)
    | inr (picked, e) ↦
        picked_or_first-IsFree _ picked a (some-injective _ _ (rw (e, next_agent, from_pick) at h))
  ]

-- What a follow-up is, by the engine's step: its kind, its agent and its session.
pub data IsFollowUp (max count : ℕ) (ending : Row)
    : Step → String → Option String → Option String → Type 0 where
  wrapped :
      {hit : Limit} {prompt : Option Limit}
      → IsFollowUp max count ending
          (Step.at_limit Action.wrap_up_turn hit prompt)
          "wrap-up"
          ending.agent
          (word_or_null ending.session)
  continued :
      {session why : String}
      → count < max
      → IsFollowUp max count ending
          (Step.continue session why)
          "continue"
          ending.agent
          (some session)
  restarted :
      {why : String} → IsFollowUp max count ending (Step.restart why) "restart" ending.agent none
  switched :
      {t : Takeover} {effort : Option String} {agent : Option String}
      → truthy agent ≡ true
      → IsFollowUp max count ending (Step.switch t effort) "switch" agent none

-- The parts of a follow-up.
abbrev kind_of : Plan → String
kind_of (follow_up kind agent model session note) = kind
kind_of _ = ""

abbrev agent_of : Plan → Option String
agent_of (follow_up kind agent model session note) = agent
agent_of _ = none

abbrev session_of : Plan → Option String
session_of (follow_up kind agent model session note) = session
session_of _ = none

module _ (max count : ℕ) (ending : Row) (reason : String) (choice : Option Agent) (kind : String)
    (agent model session : Option String) (note : Note) where
  abbrev Planned : Step → Type 0
  Planned step =
      plan_of max count ending reason choice step ≡ follow_up kind agent model session note

  abbrev Parts : Step → Plan → Type 0
  Parts step p = IsFollowUp max count ending step (kind_of p) (agent_of p) (session_of p)

  switch_plan-IsFollowUp :
      (t : Takeover) (effort : Option String) (found : Option Agent)
      → switch_plan ending reason t found ≡ follow_up kind agent model session note
      → IsFollowUp max count ending (Step.switch t effort) kind agent session
  unfolding switch_plan
  switch_plan-IsFollowUp t effort (some a) h = elim (Bool-cases (truthy a.agent)) [
    | inl e ↦
        subst (Parts (Step.switch t effort)) (rw (e, switch_plan) at h) (IsFollowUp.switched e)
    | inr e ↦ cc (rw (e, switch_plan) at h)
  ]
  switch_plan-IsFollowUp t effort none h =
      elim (Bool-cases (truthy (lookup t.runner harness_of_runner))) [
        | inl e ↦
            subst (Parts (Step.switch t effort)) (rw (e, switch_plan) at h) (IsFollowUp.switched e)
        | inr e ↦ cc (rw (e, switch_plan) at h)
      ]

  plan_of-IsFollowUp :
      (step : Step) → Planned step → IsFollowUp max count ending step kind agent session
  unfolding plan_of limit_plan
  plan_of-IsFollowUp (Step.nothing why) h = cc
  plan_of-IsFollowUp (Step.wait why) h = cc
  plan_of-IsFollowUp (Step.done why) h = cc
  plan_of-IsFollowUp (Step.stop why) h = cc
  plan_of-IsFollowUp (Step.failed why) h = cc
  plan_of-IsFollowUp (Step.at_limit Action.stop hit prompt) h = cc
  plan_of-IsFollowUp (Step.at_limit Action.wrap_up_turn hit prompt) h =
      subst (Parts (Step.at_limit Action.wrap_up_turn hit prompt)) h IsFollowUp.wrapped
  plan_of-IsFollowUp (Step.continue s why) h = elim (Bool-cases (leb max count)) [
    | inl e ↦ cc (rw (e, plan_of) at h)
    | inr e ↦
        subst (Parts (Step.continue s why)) (rw (e, plan_of) at h)
          (IsFollowUp.continued (ground arith))
  ]
  plan_of-IsFollowUp (Step.restart why) h = subst (Parts (Step.restart why)) h IsFollowUp.restarted
  plan_of-IsFollowUp (Step.switch t effort) h = switch_plan-IsFollowUp t effort choice h

-- An ending has a follow-up only when it did not run out of money, and only as the engine's step asks:
-- a wrap-up turn of the same agent in its session, a continue of the same agent in the step's session
-- while the task has had fewer automatic continues than are allowed, a restart of the same agent
-- without a session, or a switch to an agent, without a session.
pub decide-IsFollowUp :
    (max : ℕ) (attempts : List Row) (ending : Row) (why : Option Reason) (choice : Option Agent)
    (step : Step) (kind : String) (agent model session : Option String) (note : Note)
    → decide max attempts ending why choice step ≡ follow_up kind agent model session note
    → ((reason_of_ending ending why == "budget" && is_money ending.budget_hit) ≡ false)
      × IsFollowUp max (continues attempts ending) ending step kind agent session
unfolding decide
decide-IsFollowUp max attempts ending why choice step kind agent model session note h =
    elim (Bool-cases (reason_of_ending ending why == "budget" && is_money ending.budget_hit)) [
      | inl e ↦ cc (rw (e, decide) at h)
      | inr e ↦ (
        e,
        plan_of-IsFollowUp max (continues attempts ending) ending _ choice kind agent model session
            note step (rw (e, decide) at h),
      )
    ]
