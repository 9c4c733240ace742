-- ===== src/Engine/Effort.antt =====
-- engine/effort.js: reasoning effort and blocked models. A level and a model are `Option String`,
-- where `none` is null. `lower` is `String.prototype.toLowerCase` and `re_test` is `RegExp.test`, by
-- the pattern's text.
pub mod Nearest
pub mod Models
use open_vibe_codes.Prelude.{
  ℕ, zero, suc, ◌+◌, ◌-◌, String, Bool, not, ◌||◌, Option, none, some, List, [], ◌∷◌, leb,
  if◌then◌else◌, ◌==◌, string_eq, length, get_elem?, includes, index_of, find, keep, lookup, truthy,
  or_else, false, get_or, is_nil, drop, ◌++◌,
}

-- The reasoning levels each harness accepts.
abbrev pub efforts : List (String × List String)
efforts =
    ("cx", "low" ∷ "medium" ∷ "high" ∷ "xhigh" ∷ "max" ∷ "ultra" ∷ [])
    ∷ ("cc", "off" ∷ "low" ∷ "high" ∷ "max" ∷ [])
    ∷ ("mm", "low" ∷ "medium" ∷ "high" ∷ "xhigh" ∷ "max" ∷ [])
    ∷ ("cm", "low" ∷ "medium" ∷ "high" ∷ "xhigh" ∷ "max" ∷ [])
    ∷ ("pg", "low" ∷ "medium" ∷ "high" ∷ "max" ∷ [])
    ∷ ("cd", "low" ∷ "high" ∷ "max" ∷ [])
    ∷ ("claude", "low" ∷ "medium" ∷ "high" ∷ "xhigh" ∷ "max" ∷ [])
    ∷ ("dsh", "none" ∷ "low" ∷ "high" ∷ "max" ∷ [])
    ∷ ("oc", [])
    ∷ []

-- Codes' harness ids and the short runner ids.
abbrev pub aliases : List (String × String)
aliases =
    ("claude-code", "claude")
    ∷ ("codex", "cx")
    ∷ ("command-code", "cc")
    ∷ ("opencode", "oc")
    ∷ ("deepseek", "dsh")
    ∷ ("minimax", "mm")
    ∷ ("grove", "pg")
    ∷ []

-- Every level, from the weakest to the strongest.
abbrev pub order : List String
order = "off" ∷ "none" ∷ "minimal" ∷ "low" ∷ "medium" ∷ "high" ∷ "xhigh" ∷ "max" ∷ "ultra" ∷ []

-- The levels that a retry steps through.
abbrev pub step_order : List String
step_order = "none" ∷ "minimal" ∷ "low" ∷ "medium" ∷ "high" ∷ "xhigh" ∷ "max" ∷ []

-- `list.includes(levels[i])`: an index out of range reads undefined, which no list holds.
unfoldable pub accepts : List String → List String → ℕ → Bool
accepts levels list i = elim (get_elem? levels i) [ none ↦ false | some l ↦ includes list l ]

-- `at - d` of the loop, where a negative index reads undefined.
unfoldable pub below : (ℕ → Bool) → ℕ → ℕ → Bool
below ok at d = if leb d at then ok (at - d) else false

-- The double loop of `fitEffort`, from distance d on with the given rounds left: the index found.
unfoldable pub nearest : (ℕ → Bool) → ℕ → ℕ → ℕ → Option ℕ
unfolding below
nearest ok at zero d = none
nearest ok at (suc rounds) d =
    let rest = nearest ok at rounds (d + 1) in
    if ok (at + d) then some (at + d) else if below ok at d then some (at - d) else rest

-- `fitEffort` for a harness with this list, over an order of levels.
unfoldable pub fit_in : List String → List String → Option String → Option String
unfolding nearest accepts
fit_in levels list none = none
fit_in levels list (some effort) =
    if effort == "" || is_nil list || includes list effort
    then some effort
    else elim (index_of levels effort) [
      | none ↦ some effort
      | some at ↦ elim (nearest (accepts levels list) at (length levels) 0) [
        | none ↦ some effort
        | some i ↦ get_elem? levels i
      ]
    ]

-- The first level after index j that the list accepts; with no list, the first of all.
unfoldable pub step_from : List String → Option (List String) → Option String
step_from [] list = none
step_from (l ∷ levels) none = some l
step_from (l ∷ levels) (some list) =
    if includes list l then some l else step_from levels (some list)

-- `order.slice(i + 1)` where i may be -1.
unfoldable pub after : Option ℕ → ℕ
after none = 0
after (some i) = suc i

-- `effort || 'medium'`.
unfoldable pub wanted_level : Option String → String
wanted_level effort = get_or (or_else effort (some "medium")) "medium"

-- The level found, or `effort || null`.
unfoldable pub level_or : Option String → Option String → Option String
level_or effort none = or_else effort none
level_or effort (some l) = some l

-- `stepUp` over an order of levels.
unfoldable pub step_in : List String → Option String → Option (List String) → Option String
step_in levels effort list =
    level_or effort (step_from (drop (after (index_of levels (wanted_level effort))) levels) list)

unfoldable pub step_up : Option String → Option (List String) → Option String
step_up effort list = step_in step_order effort list

-- What a launch answers, or the message of the error that it throws.
pub data Pick : Type 0 where
  launch : Option String → Pick
  refused : String → Pick

-- `pickModel` with the harness's blocked list and catalog read: the wanted model, or the first of the
-- catalog that is not blocked ("" is no model).
unfoldable pub pick_from : String → List String → List String → Option String → Pick
pick_from runner refusals catalog none = launch none
pick_from runner refusals catalog (some model) =
    let other = find (λ m. not (includes refusals m)) catalog in
    if model == "" || not (includes refusals model)
    then launch (some model)
    else if truthy other
    then launch other
    else refused runner

module _ (lower : String → String) where
  -- The short runner id of a harness, whoever named it.
  unfoldable pub harness_of : Option String → String
  harness_of id =
      let key = lower (get_or (or_else id (some "")) "") in get_or (lookup key aliases) key

  unfoldable pub fit_effort : String → Option String → Option String
  fit_effort runner effort =
      fit_in order (get_or (lookup (harness_of (some runner)) efforts) []) effort

  -- The blocked models of one harness; an absent map blocks none.
  unfoldable pub blocked_list : Option (List (String × List String)) → String → List String
  blocked_list blocked runner = get_or (lookup (harness_of (some runner)) (get_or blocked [])) []

  unfoldable pub is_blocked : Option (List (String × List String)) → String → Option String → Bool
  is_blocked blocked runner none = false
  is_blocked blocked runner (some model) =
      if model == "" then false else includes (blocked_list blocked runner) model

  -- The catalog of one harness, by either of its names.
  unfoldable pub catalog_for : Option (List (String × List String)) → String → List String
  catalog_for models runner =
      let all = get_or models [] in
      get_or (lookup runner all) (get_or (lookup (harness_of (some runner)) all) [])

  unfoldable pub pick_model :
      String
      → Option String
      → Option (List (String × List String))
      → Option (List (String × List String))
      → Pick
  pick_model runner model models blocked =
      pick_from runner (blocked_list blocked runner) (catalog_for models runner) model

-- `REFUSAL_RE`, matched without case.
abbrev pub refusal_re : String
refusal_re = "not supported when using|model_not_found|not available on your plan|model_not_in_plan"

-- The blocked list after a provider's message; an absent list is empty.
unfoldable pub block_model :
    (String → String → Bool) → Option (List String) → Option String → Option String → List String
block_model re_test list none error = get_or list []
block_model re_test list (some model) error =
    if model == "" || not (re_test refusal_re (get_or error ""))
    then get_or list []
    else if includes (get_or list []) model
    then get_or list []
    else get_or list [] ++ model ∷ []

unfoldable pub unblock_model : Option (List String) → Option String → List String
unblock_model list none = get_or list []
unblock_model list (some model) = keep (λ m. not (m == model)) (get_or list [])
