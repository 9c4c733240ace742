-- ===== src/Engine/Router/Rungs.antt =====
-- engine/router.js: the ladder of the portal, cheapest runner first, by the tier of a brief.
use open_vibe_codes.Prelude.{String, Option, none, some, List, [], ◌∷◌}
use open_vibe_codes.Engine.Router.Pick.{Rung}

abbrev pub rung : String → Option String → Option String → Rung
rung runner model effort = record { runner = runner; model = model; effort = effort }

abbrev pub ladder : List (String × List Rung)
ladder =
    (
      "basic",
      rung "oc" (some "opencode-go/beam-free") none
          ∷ rung "cc" (some "reflection/beam:free") (some "low")
          ∷ rung "pg" (some "deepseek-v4.1-flash-1017") (some "low")
          ∷ rung "mm" none (some "low")
          ∷ rung "cx" (some "gpt-6-luna") (some "low")
          ∷ rung "dsh" (some "deepseek-flash") (some "none")
          ∷ [],
    )
    ∷ (
      "research",
      rung "cx" (some "gpt-6-sol") (some "medium")
          ∷ rung "mm" none (some "medium")
          ∷ rung "dsh" (some "deepseek-flash") (some "high")
          ∷ rung "cc" (some "deepseek/deepseek-v4.1-flash") (some "high")
          ∷ rung "oc" (some "opencode-go/kimi-k3") none
          ∷ [],
    )
    ∷ (
      "standard",
      rung "mm" none (some "high")
          ∷ rung "cx" (some "gpt-6-sol") (some "medium")
          ∷ rung "cc" (some "deepseek/deepseek-v4.1-flash") (some "high")
          ∷ rung "oc" (some "opencode-go/kimi-k2.7-code") none
          ∷ rung "dsh" (some "deepseek-flash") (some "high")
          ∷ [],
    )
    ∷ (
      "hard",
      rung "cx" (some "gpt-6-astra") (some "high")
          ∷ rung "mm" none (some "max")
          ∷ rung "cc" (some "deepseek/deepseek-v4.1-flash") (some "high")
          ∷ rung "oc" (some "opencode-go/kimi-k3.1-pro") none
          ∷ rung "dsh" (some "deepseek-flash") (some "max")
          ∷ rung "dsh" (some "deepseek-v4-pro") (some "max")
          ∷ [],
    )
    ∷ (
      "design",
      rung "cx" (some "gpt-6-sol") (some "high")
          ∷ rung "mm" none (some "high")
          ∷ rung "cc" (some "deepseek/deepseek-v4.1-flash") (some "high")
          ∷ rung "dsh" (some "deepseek-flash") (some "high")
          ∷ [],
    )
    ∷ []
