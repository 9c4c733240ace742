-- ===== src/Tests/Machines.antt =====
-- A refresh of a person's machines, on concrete rows: one machine is gone, one reports an agent anew,
-- and another person's row stands between.
use open_vibe_codes.Prelude.{◌≡◌, refl, String, true, false, none, some, List, [], ◌∷◌, inr, All}
use open_vibe_codes.Server.Fleet.Stored.{Stored, Answered, Refreshed, refresh}
use open_vibe_codes.Server.Fleet.Refreshed.{others, ids_of, taken, IsOf, refresh-Replaces}
use open_vibe_codes.Tests.Fixtures.{lenient}

abbrev stored : String → String → Stored
stored subject machine = record {
  subject = subject;
  machine = machine;
  node_id = none;
  name = none;
  agent = "codex";
  installed = false;
  signed_in = false;
  windows = [];
  online = true;
  reported_at = 1;
}

abbrev table : List Stored
table = stored "ann" "m1" ∷ stored "bob" "m1" ∷ stored "ann" "m2" ∷ []

abbrev answer : List Answered
answer =
    record {
      id = "m2";
      node_id = none;
      name = none;
      online = true;
      fleet_at = some 9;
      fleet =
          some (record { agent = "codex"; installed = true; signed_in = true; windows = [] } ∷ []);
    }
    ∷ []

refresh-Replaces_example :
    (after : List Stored) × (refresh lenient 5 "ann" (some "t") (inr answer) table
      ≡ Refreshed.written after)
    × (others "ann" after ≡ others "ann" table)
    × All (IsOf "ann" (ids_of (taken lenient answer))) after
refresh-Replaces_example = refresh-Replaces lenient 5 "ann" (some "t") answer table refl refl
