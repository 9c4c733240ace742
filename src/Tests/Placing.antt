-- ===== src/Tests/Placing.antt =====
-- The placement on a concrete catalog.
use open_vibe_codes.Prelude.{
  refl, String, true, none, some, List, [], ◌∷◌, All, string_eq, Option, ℕ,
}
use open_vibe_codes.Server.Placement.{
  Harness, Agent, Offer, Requirements, PlacementContext, to_offer, offers_under,
}
use open_vibe_codes.Server.Placement.Rules.{IsOwn, offers_under-IsOwn}
use open_vibe_codes.Server.Fleet.{Window, merge_windows}
use open_vibe_codes.Server.Fleet.Merged.{Covers, merge_windows-Covers}

abbrev harness : Harness
harness = record {
  id = "codex";
  name = "Codex";
  provider = "openai";
  flags = "edit" ∷ "resume" ∷ [];
  runtimes = [];
  task_capabilities = none;
  max_concurrent_runs = 2;
  max_context_tokens = none;
}

abbrev agent : Agent
agent = record { id = none; model = "gpt-a"; provider = none; input_tokens = none; price = 3 }

abbrev offers : List Offer
offers = to_offer (record { health = none; trust = none; latency_ms = none }) harness agent ∷ []

abbrev private_rules : PlacementContext
private_rules = record {
  person = "ann";
  no_cloud = true;
  only_free = true;
  own_machine = some ("codex" ∷ []);
  only_agent = none;
}

offers_under-IsOwn_example :
    All (IsOwn "ann" ("codex" ∷ []) offers) (offers_under private_rules offers)
offers_under-IsOwn_example = offers_under-IsOwn private_rules ("codex" ∷ []) offers refl refl

abbrev needed : List String
needed = "task:edit" ∷ "harness:long-autonomy" ∷ []

abbrev asked : Requirements
asked = record {
  kind = "harness.long";
  capabilities = "task:edit" ∷ "harness:long-autonomy" ∷ "harness:vision" ∷ [];
}

abbrev reading : Option ℕ → Window
reading pct = record { name = "5h"; used = none; limit = none; pct = pct; resets_at = none }

abbrev machines : List (List Window)
machines = (reading (some 20) ∷ []) ∷ (reading (some 97) ∷ reading none ∷ []) ∷ []

merge_windows-Covers_example : All (All (Covers (merge_windows machines))) machines
merge_windows-Covers_example = merge_windows-Covers machines
