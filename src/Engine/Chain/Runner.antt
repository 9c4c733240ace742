-- ===== src/Engine/Chain/Runner.antt =====
-- engine/chain.js, `nextRunner`: the runner that takes a failed job over.
use mathlib.Core.Option
use open_vibe_codes.Prelude.{
  ℕ, suc, String, Bool, true, false, not, ◌&&◌, ◌||◌, Option, none, some, List, [], ◌∷◌, ◌++◌,
  if◌then◌else◌, ◌==◌, string_eq, lookup, get_or, includes, index_of, find, keep, take, drop,
  template, truthy,
}
use open_vibe_codes.Engine.Chain.Attempt.{Reason, reason_text, Attempt}
use open_vibe_codes.Engine.Router.Pick.{Subagent, has_slot, is_healthy}

-- What the caller knows: `order` is `cfg.fallback.order`.
pub record Options : Type 0 where
  pub subagents : List (String × Subagent)
  pub order : List String
  pub health : List (String × String)
  pub counts : List (String × ℕ)
  pub models : List (String × List String)
  pub runners : List String
  pub tier : Option String

pub record Takeover : Type 0 where
  pub runner : String
  pub model : Option String
  pub why : String

abbrev pub is_basic : Option String → Bool
is_basic none = false
is_basic (some tier) = tier == "basic"

-- `pg` takes only basic jobs.
unfoldable pub takes : Options → String → Bool
takes o k =
    (not (k == "pg") || is_basic o.tier)
    && includes o.runners k
    && has_slot (lookup k o.subagents) (get_or (lookup k o.counts) 0)
    && is_healthy (lookup k o.health)

abbrev pub own_model : Option Subagent → Option String
own_model none = none
own_model (some s) = s.model

-- `cfg.subagents[k].model || null`.
unfoldable pub default_model : Options → String → Option String
default_model o k =
    let model = own_model (lookup k o.subagents) in if truthy model then model else none

unfoldable pub takeover : Options → String → String → Takeover
takeover o why k = record { runner = k; model = default_model o k; why = why }

-- A second try on the next runner of the order, never the same one.
unfoldable pub second_try : Options → Attempt → Option Takeover
second_try o run =
    Option.map
      (takeover o (
        template (run.runner_name ∷ " stopped with an error; a second try on another runner" ∷ [])))
      (find (takes o) (keep (λ k. includes o.runners k && not (k == run.runner)) o.order))

abbrev pub is_enabled : Option Subagent → Bool
is_enabled none = false
is_enabled (some s) = s.enabled

-- `cur >= 0 ? cur : 0`, for the place of the current model in the list.
unfoldable pub start_at : Option String → List String → ℕ
start_at none list = 0
start_at (some m) list = if m == "" then 0 else get_or (index_of list m) 0

unfoldable pub differs : Option String → String → Bool
differs none m = true
differs (some c) m = not (m == c)

-- The first model behind the current one (behind the first, where there is none or it is not
-- listed) that is another.
unfoldable pub other_model : Option String → List String → Option String
other_model current list = find (differs current) (drop (suc (start_at current list)) list)

-- The same runner on another model; "" is no model.
unfoldable pub on_model : Attempt → Option String → Option Takeover
on_model run none = none
on_model run (some m) =
    if m == ""
    then none
    else some (record {
      runner = run.runner;
      model = some m;
      why = template (
          (if truthy run.model then get_or run.model "" else "its model")
          ∷ " was at capacity"
          ∷ []);
    })

unfoldable pub same_runner : Options → Attempt → Option Takeover
same_runner o run =
    if is_enabled (lookup run.runner o.subagents)
    then on_model run (other_model run.model (get_or (lookup run.runner o.models) []))
    else none

-- The order from behind the runner, round to it.
unfoldable pub rotated : List String → String → List String
rotated order runner = elim (index_of order runner) [
  | none ↦ order
  | some i ↦ drop (suc i) order ++ take i order
]

-- The next runner of the order that may take it, never the same one.
unfoldable pub next_in_order : Options → Attempt → String → Option Takeover
next_in_order o run words =
    Option.map (takeover o (template (run.runner_name ∷ " " ∷ words ∷ []))) (
      find (λ k. not (k == run.runner) && takes o k)
        (rotated (keep (λ k. includes o.runners k) o.order) run.runner))

-- A busy model is tried as another model of the same runner first.
unfoldable pub busy : Options → Attempt → Option Takeover
busy o run = elim (same_runner o run) [
  | some t ↦ some t
  | none ↦ next_in_order o run (reason_text Reason.capacity)
]

-- `nextRunner`, by the run's reason; a run without one is said to have stopped.
unfoldable pub next_runner : Options → Attempt → Option Reason → Option Takeover
next_runner o run (some Reason.stopped) = none
next_runner o run (some Reason.error) = second_try o run
next_runner o run (some Reason.capacity) = busy o run
next_runner o run none = next_in_order o run "stopped"
next_runner o run (some why) = next_in_order o run (reason_text why)
