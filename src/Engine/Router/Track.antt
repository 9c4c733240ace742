-- ===== src/Engine/Router/Track.antt =====
-- engine/router.js, `track`: what each runner achieved in the last seven days.
use open_vibe_codes.Prelude.{
  ℕ, ◌+◌, ◌*◌, String, Bool, false, not, ◌&&◌, ◌||◌, Option, none, some, List, [], ◌∷◌, leb, ltb,
  if◌then◌else◌, ◌==◌, string_eq, lookup, get_or, includes,
}

-- A run as the caller lists it: a status, and the reason that it stopped for.
pub record Run : Type 0 where
  pub session : Bool
  pub runner : String
  pub updated : ℕ
  pub status : String
  pub reason : Option String

pub record Tally : Type 0 where
  pub done : ℕ
  pub failed : ℕ

abbrev pub no_tally : Tally
no_tally = record { done = 0; failed = 0 }

abbrev pub week_ms : ℕ
week_ms = 604800000

abbrev pub switch_reasons : List String
switch_reasons = "limit" ∷ "auth" ∷ "capacity" ∷ "refused" ∷ []

abbrev has_switch_reason : Option String → Bool
has_switch_reason none = false
has_switch_reason (some r) = includes switch_reasons r

-- A run counts when it is a job of the last week that ended, and did not end for a reason that the
-- runner switch handles.
unfoldable pub counts_run : ℕ → Run → Bool
counts_run now r =
    not r.session
    && not (r.runner == "ship")
    && leb now (r.updated + week_ms)
    && includes ("done" ∷ "failed" ∷ "interrupted" ∷ []) r.status
    && (r.status == "done" || not (has_switch_reason r.reason))

unfoldable pub tally_run : Run → Tally → Tally
tally_run r t =
    if r.status == "done"
    then record { done = t.done + 1; failed = t.failed }
    else record { done = t.done; failed = t.failed + 1 }

-- `rec[r.runner]` updated, or made.
unfoldable pub tally_in : Run → List (String × Tally) → List (String × Tally)
tally_in r [] = (r.runner, tally_run r no_tally) ∷ []
tally_in r ((k, t) ∷ rec) =
    if k == r.runner then (k, tally_run r t) ∷ rec else (k, t) ∷ tally_in r rec

unfoldable pub track_from : ℕ → List (String × Tally) → List Run → List (String × Tally)
track_from now rec [] = rec
track_from now rec (r ∷ runs) =
    track_from now (if counts_run now r then tally_in r rec else rec) runs

unfoldable pub track : ℕ → List Run → List (String × Tally)
track now runs = track_from now [] runs

-- A runner is skipped only on four counted runs or more of which fewer than two in five were done.
unfoldable pub reliable : List (String × Tally) → String → Bool
reliable rec runner =
    let t = get_or (lookup runner rec) no_tally in
    ltb (t.done + t.failed) 4 || leb (4 * (t.done + t.failed)) (10 * t.done)
