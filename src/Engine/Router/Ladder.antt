-- ===== src/Engine/Router/Ladder.antt =====
-- engine/router.js, `pick`: the choice is the first rung whose runner may take the job.
use mathlib.Core.Option.{some-injective}
use open_vibe_codes.Prelude.{
  ℕ, ◌<◌, ◌≡◌, refl, ◌↔◌, ◌∙◌, ap, String, Bool, true, false, Option, none, some, List, [], ◌∷◌,
  inl, inr, arith, Bool-cases, Option-cases, ◌==◌, string_eq, ==_iff, lookup, get_or, All,
  get_elem?, find, find_first, find-none, find-none_of, includes, ◌⊎◌, All-imp,
}
use open_vibe_codes.Runtime.{Runtime}
use open_vibe_codes.Engine.Router.Track.{track, reliable}
use open_vibe_codes.Engine.Router.Room.{HasRoom, room_for_iff}
use open_vibe_codes.Engine.Router.Classify.{Judged, classify}
use open_vibe_codes.Engine.Router.Pick.{
  Subagent, Rung, Context, Choice, connected, has_slot, is_healthy, usable, listed_or_null,
  model_for, choice_at, pick_from, pick,
}

-- What a runner must show to be given a job.
pub record CanTake (ctx : Context) (r : String) : Type 0 where
  pub subagent : Subagent
  pub configured : lookup r ctx.subagents ≡ some subagent
  pub on : subagent.enabled ≡ true
  pub slot : get_or (lookup r ctx.counts) 0 < subagent.max
  pub healthy : lookup r ctx.health ≡ some "ok"
  pub record_ok : reliable (track ctx.now ctx.runs) r ≡ true
  pub may_run : connected r ctx.connections ≡ true
  pub room : HasRoom ctx.fleet r ctx.now

pub slot-of :
    (o : Option Subagent) (busy : ℕ)
    → has_slot o busy ≡ true
    → (s : Subagent) × (o ≡ some s) × (s.enabled ≡ true) × (busy < s.max)
slot-of none busy h = cc
slot-of (some s) busy h = (s, refl, ground arith, ground arith)

pub healthy-of : (o : Option String) → is_healthy o ≡ true → o ≡ some "ok"
healthy-of none h = cc
healthy-of (some state) h = ap some ((==_iff state "ok").0 h)

CanTake-of : (ctx : Context) (r : String) → usable ctx r ≡ true → CanTake ctx r
unfolding usable
CanTake-of ctx r h =
    let (s, configured, on, slot) =
      slot-of (lookup r ctx.subagents) (get_or (lookup r ctx.counts) 0) (ground arith) in
    record {
      subagent = s;
      configured = configured;
      on = on;
      slot = slot;
      healthy = healthy-of (lookup r ctx.health) (ground arith);
      record_ok = ground arith;
      may_run = ground arith;
      room = (room_for_iff ctx.fleet r ctx.now).0 (ground arith);
    }

of-CanTake : (ctx : Context) (r : String) → CanTake ctx r → usable ctx r ≡ true
unfolding usable
of-CanTake ctx r c =
    rw
      (c.configured, c.healthy, c.record_ok, c.may_run, (room_for_iff ctx.fleet r ctx.now).1 c.room)
      (ground arith)

listed_of :
    (list : List String) (w m : String)
    → listed_or_null (some list) w ≡ some m
    → ((m == "") ≡ true) ⊎ (includes list m ≡ true)
unfolding listed_or_null
listed_of list w m h = ground arith

-- A model that the choice names is one that the runner lists, where its catalog is known.
model_for-listed :
    (models : List (String × List String)) (runner : String) (wanted : Option String) (m : String)
    (list : List String)
    → model_for models runner wanted ≡ some m
    → lookup runner models ≡ some list
    → ((m == "") ≡ true) ⊎ (includes list m ≡ true)
unfolding model_for
model_for-listed models runner none m list h e = cc
model_for-listed models runner (some w) m list h e = listed_of list w m (rw e at h)

-- Rung number `place` of the tier's ladder was chosen: its runner may take the job, and that of no
-- rung before it may.
pub record IsPicked (ctx : Context) (judged : Judged) (c : Choice) : Type 0 where
  pub rungs : List Rung
  pub place : ℕ
  pub rung : Rung
  pub of_tier : lookup judged.tier ctx.ladder ≡ some rungs
  pub at_place : get_elem? rungs place ≡ some rung
  pub can_take : CanTake ctx rung.runner
  pub first : (j : ℕ) (r : Rung) → j < place → get_elem? rungs j ≡ some r → ¬ CanTake ctx r.runner
  pub runner : c.runner ≡ rung.runner
  pub tier : c.tier ≡ judged.tier
  pub model :
      (m : String) (list : List String)
      → c.model ≡ some m
      → lookup rung.runner ctx.models ≡ some list
      → ((m == "") ≡ true) ⊎ (includes list m ≡ true)

choose : Runtime → Context → Judged → Option Rung → Option Choice
choose js ctx judged none = none
choose js ctx judged (some rung) = some (choice_at js ctx judged rung)

pick_from-find :
    (js : Runtime) (ctx : Context) (judged : Judged) (rungs : List Rung)
    → pick_from js ctx judged rungs ≡ choose js ctx judged (find (λ r. usable ctx r.runner) rungs)
unfolding pick_from choose
pick_from-find js ctx judged [] = refl
pick_from-find js ctx judged (r ∷ rungs) = elim (Bool-cases (usable ctx r.runner)) [
  | inl e ↦ rw e
  | inr e ↦ rw e (pick_from-find js ctx judged rungs)
]

module _ (js : Runtime) (ctx : Context) (judged : Judged) (rungs : List Rung)
    (of_tier : lookup judged.tier ctx.ladder ≡ some rungs) where
  abbrev takes : Rung → Bool
  takes r = usable ctx r.runner

  IsPicked-of :
      (c : Choice) (rung : Rung)
      → find takes rungs ≡ some rung
      → choice_at js ctx judged rung ≡ c
      → IsPicked ctx judged c
  unfolding choice_at
  IsPicked-of c rung found same =
      let (k, at_place, passes, before) = find_first takes rungs found in
      rw (← same) (record {
        rungs = rungs;
        place = k;
        rung = rung;
        of_tier = of_tier;
        at_place = at_place;
        can_take = CanTake-of ctx rung.runner passes;
        first = λ j r lt e can. cc (before j r lt e, of-CanTake ctx r.runner can);
        runner = refl;
        tier = refl;
        model = λ m list e. model_for-listed ctx.models rung.runner rung.model m list e;
      })

  chosen :
      (o : Option Rung)
      → find takes rungs ≡ o
      → pick_from js ctx judged rungs ≡ choose js ctx judged o
  chosen o e = pick_from-find js ctx judged rungs ∙ ap (choose js ctx judged) e

  -- The two answers of the loop, and what each says of the rungs.
  pick_from-IsPicked : (c : Choice) → pick_from js ctx judged rungs ≡ some c → IsPicked ctx judged c
  unfolding choose
  pick_from-IsPicked c h = elim (Option-cases (find takes rungs)) [
    | inl e ↦ cc (chosen none e)
    | inr (rung, e) ↦ IsPicked-of c rung e (cc (chosen (some rung) e))
  ]

  pick_from-none : (pick_from js ctx judged rungs ≡ none) ↔ All (λ r. ¬ CanTake ctx r.runner) rungs
  unfolding choose
  pick_from-none = (
    λ h. elim (Option-cases (find takes rungs)) [
      | inl e ↦
          All-imp _ _ rungs (λ r off can. cc (of-CanTake ctx r.runner can))
            (find-none takes rungs e)
      | inr (rung, e) ↦ cc (chosen (some rung) e)
    ],
    λ h. chosen none (find-none_of takes rungs (All-imp _ _ rungs (off_of) h)),
  )
    where
      off_of : (r : Rung) → ¬ CanTake ctx r.runner → takes r ≡ false
      off_of r h = elim (Bool-cases (takes r)) [
        | inl e ↦ absurd (h (CanTake-of ctx r.runner e))
        | inr e ↦ e
      ]

module _ (js : Runtime) (ctx : Context) (prompt : String)
    (brief : Option (String × Option String)) where
  -- A pick that answers a runner answers the first rung of the brief's tier whose runner may take the
  -- job: it is configured, on, under its number of jobs, healthy, reliable by its record, connected,
  -- and has room in the fleet. No runner of an earlier rung may. The model is listed by the runner
  -- where its catalog is known.
  pub pick-IsPicked :
      (c : Choice)
      → pick js ctx prompt brief ≡ some (some c)
      → IsPicked ctx (classify js prompt brief) c
  unfolding pick
  pick-IsPicked c h = elim (Option-cases (lookup (classify js prompt brief).tier ctx.ladder)) [
    | inl e ↦ cc (rw (e, pick) at h)
    | inr (rungs, e) ↦
        pick_from-IsPicked js ctx (classify js prompt brief) rungs e c
          (some-injective _ _ (rw (e, pick) at h))
  ]

  -- A pick answers null exactly when the brief's tier has a ladder and no runner on it may take the
  -- job now.
  pub pick-none : (pick js ctx prompt brief ≡ some none) ↔ (
      (rungs : List Rung) × (lookup (classify js prompt brief).tier ctx.ladder ≡ some rungs)
      × All (λ r. ¬ CanTake ctx r.runner) rungs)
  unfolding pick
  pick-none = (
    λ h. elim (Option-cases (lookup (classify js prompt brief).tier ctx.ladder)) [
      | inl e ↦ cc (rw (e, pick) at h)
      | inr (rungs, e) ↦ (
        rungs,
        e,
        (pick_from-none js ctx (classify js prompt brief) rungs e).0
            (some-injective _ _ (rw (e, pick) at h)),
      )
    ],
    λ (rungs, e, off).
        rw (e, pick) (ap some ((pick_from-none js ctx (classify js prompt brief) rungs e).1 off)),
  )
