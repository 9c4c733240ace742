-- ===== src/Tests/Routing.antt =====
-- The router on a concrete fleet, ladder and record of runs.
use open_vibe_codes.Prelude.{
  ◌*◌, ◌≤◌, ◌<◌, ◌≡◌, refl, ◌↔◌, String, true, false, Option, none, some, List, [], ◌∷◌, All,
  lookup, length,
}
use open_vibe_codes.Engine.Router.Windows.{Window, Row, window_full, room_for}
use open_vibe_codes.Engine.Router.Track.{Run, track, reliable}
use open_vibe_codes.Engine.Router.Tallies.{counted, finished, reliable_iff}
use open_vibe_codes.Engine.Router.Classify.{classify}
use open_vibe_codes.Engine.Router.Pick.{Subagent, Rung, Context, Choice, choice_at, pick}
use open_vibe_codes.Engine.Router.Ladder.{CanTake, IsPicked, pick-IsPicked, pick-none}
use open_vibe_codes.Tests.Fixtures.{js}

abbrev spent : Window
spent = record {
  name = some "5h";
  used = some 96;
  limit = some 100;
  pct = none;
  resets_at = some 500;
}

abbrev row : Row
row = record {
  installed = some true;
  signed_in = some true;
  room = none;
  windows = spent ∷ [];
  balance_usd = none;
}

abbrev fleet : Option (List (String × Row))
fleet = some (("cx", row) ∷ [])

abbrev run : String → Run
run status = record {
  session = false;
  runner = "cx";
  updated = 300;
  status = status;
  reason = none;
}

abbrev runs : List Run
runs = run "done" ∷ run "failed" ∷ run "failed" ∷ run "failed" ∷ []

reliable_iff_example : (reliable (track 400 runs) "cx" ≡ false) ↔ (
    (4 ≤ length (counted 400 "cx" runs))
    × (5 * finished 400 "cx" runs < 2 * length (counted 400 "cx" runs)))
reliable_iff_example = reliable_iff 400 runs "cx"

abbrev rung : String → Rung
rung runner = record { runner = runner; model = none; effort = some "high" }

abbrev on : Subagent
on = record { enabled = true; max = 2; model = none }

-- `cx` has no room until its window resets at 500, and `mm` may take the job.
abbrev ctx : Context
ctx = record {
  subagents = ("cx", on) ∷ ("mm", on) ∷ [];
  health = ("cx", "ok") ∷ ("mm", "ok") ∷ [];
  counts = [];
  models = [];
  runs = [];
  ladder = ("basic", rung "cx" ∷ rung "mm" ∷ []) ∷ [];
  connections = none;
  fleet = fleet;
  now = 400;
}

pick-IsPicked_example :
    IsPicked ctx
      (classify js "what is this" none)
      (choice_at js ctx (classify js "what is this" none) (rung "mm"))
unfolding pick classify open_vibe_codes.Engine.Router.Classify.classify_text
    open_vibe_codes.Engine.Router.Classify.forced open_vibe_codes.Engine.Router.Classify.forced_tier
    open_vibe_codes.Engine.Router.Classify.by_words open_vibe_codes.Engine.Router.Pick.pick_from
    open_vibe_codes.Engine.Router.Pick.usable open_vibe_codes.Engine.Router.Pick.connected reliable
    track open_vibe_codes.Engine.Router.Track.track_from room_for
    open_vibe_codes.Engine.Router.Windows.row_of open_vibe_codes.Engine.Router.Windows.low
    open_vibe_codes.Engine.Router.Windows.freed open_vibe_codes.Engine.Router.Windows.pct_of
    open_vibe_codes.Engine.Router.Windows.used_pct window_full choice_at
pick-IsPicked_example =
    pick-IsPicked js ctx "what is this" none
      (choice_at js ctx (classify js "what is this" none) (rung "mm")) refl

pick-none_example : (pick js ctx "what is this" none ≡ some none) ↔ (
    (rungs : List Rung) × (lookup (classify js "what is this" none).tier ctx.ladder ≡ some rungs)
    × All (λ r. ¬ CanTake ctx r.runner) rungs)
pick-none_example = pick-none js ctx "what is this" none
