-- ===== src/Engine/Router/Pick.antt =====
-- engine/router.js, `connected` and `pick`.
use open_vibe_codes.Prelude.{
  ℕ, String, Bool, true, false, not, ◌&&◌, ◌||◌, Option, none, some, List, [], ◌∷◌, ltb,
  if◌then◌else◌, ◌==◌, string_eq, lookup, get_or, includes, truthy, template,
}
use open_vibe_codes.Runtime.{Runtime}
use open_vibe_codes.Engine.Effort.{fit_effort}
use open_vibe_codes.Engine.Router.Windows.{Row, room_for, is_false}
use open_vibe_codes.Engine.Router.Track.{Run, track, reliable}
use open_vibe_codes.Engine.Router.Classify.{Judged, classify}

-- A runner's entry of `cfg.subagents`.
pub record Subagent : Type 0 where
  pub enabled : Bool
  pub max : ℕ
  pub model : Option String

-- One rung of a ladder: [runner, model, effort].
pub record Rung : Type 0 where
  pub runner : String
  pub model : Option String
  pub effort : Option String

-- The context of a pick. A map that is absent altogether is `none`; `connections` holds `connected`.
pub record Context : Type 0 where
  pub subagents : List (String × Subagent)
  pub health : List (String × String)
  pub counts : List (String × ℕ)
  pub models : List (String × List String)
  pub runs : List Run
  pub ladder : List (String × List Rung)
  pub connections : Option (List (String × Option Bool))
  pub fleet : Option (List (String × Row))
  pub now : ℕ

pub record Choice : Type 0 where
  pub runner : String
  pub model : Option String
  pub effort : Option String
  pub tier : String
  pub brief : Option String
  pub why : String

-- A map that is absent, or does not name the runner, asks for no connection.
unfoldable pub connected : String → Option (List (String × Option Bool)) → Bool
connected runner none = true
connected runner (some connections) = not (is_false (get_or (lookup runner connections) none))

-- The runner is configured and on, and has a free slot.
abbrev pub has_slot : Option Subagent → ℕ → Bool
has_slot none busy = false
has_slot (some s) busy = s.enabled && ltb busy s.max

abbrev pub is_healthy : Option String → Bool
is_healthy none = false
is_healthy (some state) = state == "ok"

unfoldable pub usable : Context → String → Bool
usable ctx r =
    has_slot (lookup r ctx.subagents) (get_or (lookup r ctx.counts) 0)
    && is_healthy (lookup r ctx.health)
    && reliable (track ctx.now ctx.runs) r
    && connected r ctx.connections
    && room_for ctx.fleet r ctx.now

-- A model that the runner's catalog, where there is one, does not list is null; "" is no model.
unfoldable pub listed_or_null : Option (List String) → String → Option String
listed_or_null none m = some m
listed_or_null (some list) m = if m == "" || includes list m then some m else none

unfoldable pub model_for : List (String × List String) → String → Option String → Option String
model_for models runner none = none
model_for models runner (some m) = listed_or_null (lookup runner models) m

-- `m ? ' · ' + m : ''`.
abbrev pub dotted : Option String → String
dotted none = ""
dotted (some m) = if m == "" then "" else template (" · " ∷ m ∷ [])

-- The line that says why: the brief's reading, the runner, the model and the effort.
unfoldable pub why_line : Judged → String → Option String → Option String → String
why_line judged runner model effort =
    let said =
      if truthy judged.brief
      then template (judged.why ∷ " (the brief it names)" ∷ [])
      else judged.why in
    template (said ∷ " → " ∷ runner ∷ dotted model ∷ dotted effort ∷ [])

module _ (js : Runtime) (ctx : Context) where
  unfoldable pub choice_at : Judged → Rung → Choice
  choice_at judged rung =
      let model = model_for ctx.models rung.runner rung.model in
      let effort = fit_effort js.lower rung.runner rung.effort in
      record {
        runner = rung.runner;
        model = model;
        effort = effort;
        tier = judged.tier;
        brief = judged.brief;
        why = why_line judged rung.runner model effort;
      }

  -- The loop of `pick` over the rungs of the tier.
  unfoldable pub pick_from : Judged → List Rung → Option Choice
  pick_from judged [] = none
  pick_from judged (rung ∷ rungs) =
      if usable ctx rung.runner then some (choice_at judged rung) else pick_from judged rungs

  -- `none` outside is the error of iterating a tier that the ladder does not have.
  unfoldable pub pick : String → Option (String × Option String) → Option (Option Choice)
  pick prompt brief =
      let judged = classify js prompt brief in
      elim (lookup judged.tier ctx.ladder) [
        | none ↦ none
        | some rungs ↦ some (pick_from judged rungs)
      ]
