-- ===== src/Server/Failover/Labels.antt =====
-- server/domain/conductor-failover.js: the line that says how an agent stands. `shown` writes a
-- number, and `resets` is the label of a reset's time, if it has one.
use open_vibe_codes.Prelude.{
  ℕ, String, Option, none, some, List, [], ◌∷◌, if◌then◌else◌, ◌==◌, string_eq, lookup, get_or,
  or_else, template,
}
use open_vibe_codes.Server.Failover.{Fallback, Usage, UsageState, unknown, absent, login}

abbrev pub agent_names : List (String × String)
agent_names =
    ("claude-code", "Claude Code")
    ∷ ("claude-other", "Claude Code (another provider)")
    ∷ ("codex", "Codex")
    ∷ ("opencode", "OpenCode")
    ∷ ("command-code", "Command Code")
    ∷ ("minimax-code", "MiniMax Code")
    ∷ ("aider", "Aider")
    ∷ ("deepseek", "DeepSeek")
    ∷ ("openvibe-ai", "OpenVibe.AI")
    ∷ ("openai-compatible", "Your own model")
    ∷ []

unfoldable pub name_of : String → String
name_of agent = get_or (lookup agent agent_names) agent

abbrev pub in_brackets : Option String → String
in_brackets none = ""
in_brackets (some s) = if s == "" then "" else template (" (" ∷ s ∷ ")" ∷ [])

unfoldable pub usage_line : (ℕ → String) → (ℕ → Option String) → String → Usage → Option ℕ → String
usage_line shown resets name u none = template (name ∷ " has no room left" ∷ [])
usage_line shown resets name u (some pct) = template (
    name
    ∷ " is at "
    ∷ shown pct
    ∷ "% of its "
    ∷ get_or (or_else u.window (some "window")) ""
    ∷ in_brackets (elim u.resets_at [ none ↦ none | some at ↦ resets at ])
    ∷ [])

unfoldable pub describe_as :
    (ℕ → String) → (ℕ → Option String) → String → Usage → UsageState → String
describe_as shown resets name u login = template (name ∷ " is not signed in on your machine" ∷ [])
describe_as shown resets name u absent = template (name ∷ " is not installed on your machine" ∷ [])
describe_as shown resets name u unknown = template (name ∷ " has not reported its usage" ∷ [])
describe_as shown resets name u state = usage_line shown resets name u u.pct

unfoldable pub describe : (ℕ → String) → (ℕ → Option String) → Fallback → Usage → String
describe shown resets entry u = describe_as shown resets (name_of entry.agent) u u.state
