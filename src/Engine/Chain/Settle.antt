-- ===== src/Engine/Chain/Settle.antt =====
-- engine/chain.js, `carriedMap`, `settleChain` and `chainEnd`: where a chain ends.
use open_vibe_codes.Prelude.{
  ℕ, zero, suc, String, Bool, false, not, ◌&&◌, Option, none, some, List, [], ◌∷◌, ◌++◌,
  if◌then◌else◌, ◌==◌, string_eq, ltb, any, is_some,
}
use open_vibe_codes.Engine.Chain.Attempt.{Attempt, Resolved}

-- `byKey.get(key)`: the map of the runs, where a later run replaces an earlier one of the same key.
unfoldable pub by_key : List Attempt → String → Option Attempt
by_key [] key = none
by_key (r ∷ runs) key =
    let rest = by_key runs key in
    elim rest [ some later ↦ some later | none ↦ if r.key == key then some r else none ]

-- A key that is not null and that some run has.
abbrev pub run_of : List Attempt → Option String → Option Attempt
run_of runs none = none
run_of runs (some key) = by_key runs key

abbrev is_parent : Option String → String → Bool
is_parent none key = false
is_parent (some p) key = p == key

-- `carried.has(p) && !(carried.get(p).updated < r.updated)`.
abbrev keeps_older : Option Attempt → ℕ → Bool
keeps_older none updated = false
keeps_older (some c) updated = not (ltb c.updated updated)

-- `carried.get(key)`: the latest run that names this key as its parent, the first of equals.
unfoldable pub carried_from : Option Attempt → List Attempt → String → Option Attempt
carried_from best [] key = best
carried_from best (r ∷ runs) key =
    carried_from
      (if is_parent r.parent key && not (keeps_older best r.updated) then some r else best) runs key

unfoldable pub carried : List Attempt → String → Option Attempt
carried runs key = if is_some (by_key runs key) then carried_from none runs key else none

abbrev pub same_run : Attempt → Attempt → Bool
same_run a b = a.key == b.key

abbrev pub resolved_by : Option Resolved → Option String
resolved_by none = none
resolved_by (some r) = r.by

-- A run that is not one of these.
unfoldable pub other_than : List String → Option Attempt → Option Attempt
other_than keys none = none
other_than keys (some r) = if any (λ k. r.key == k) keys then none else some r

-- The run that `end` leads to: what carried it on, else its retry, else what resolved it.
unfoldable pub step_of : List Attempt → Attempt → Attempt → Option Attempt
step_of runs start end = elim (other_than (end.key ∷ []) (carried runs end.key)) [
  | some c ↦ some c
  | none ↦ elim (other_than (end.key ∷ []) (run_of runs end.next)) [
    | some n ↦ some n
    | none ↦ other_than (end.key ∷ start.key ∷ []) (run_of runs (resolved_by end.resolved))
  ]
]

-- The loop of `settleChain`, with the rounds left: the trail from the start, in order.
unfoldable pub trail_from : ℕ → List Attempt → Attempt → List Attempt → Attempt → List Attempt
trail_from zero runs start trail end = trail
trail_from (suc rounds) runs start trail end = elim (step_of runs start end) [
  | none ↦ trail
  | some next ↦
      if any (same_run next) trail
      then trail
      else trail_from rounds runs start (trail ++ next ∷ []) next
]

unfoldable pub trail : List Attempt → Attempt → List Attempt
trail runs start = trail_from 12 runs start (start ∷ []) start

-- The last run of the trail.
unfoldable pub last_of : Attempt → List Attempt → Attempt
last_of d [] = d
last_of d (r ∷ rs) = last_of r rs

unfoldable pub settle_chain : List Attempt → Attempt → Attempt
settle_chain runs start = last_of start (trail runs start)

-- `runs.reduce((a, b) => (b.updated > a.updated ? b : a))`.
unfoldable pub latest_from : Attempt → List Attempt → Attempt
latest_from a [] = a
latest_from a (b ∷ runs) = latest_from (if ltb a.updated b.updated then b else a) runs

unfoldable pub chain_end : List Attempt → Option Attempt
chain_end [] = none
chain_end (r ∷ runs) = some (settle_chain (r ∷ runs) (latest_from r runs))
