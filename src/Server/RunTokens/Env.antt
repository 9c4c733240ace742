-- ===== src/Server/RunTokens/Env.antt =====
-- server/domain/run-tokens.js: the environment that a harness runs in with its token. `quoted` is
-- JSON.stringify of a text, and `base` the address of OpenVibe.AI.
use open_vibe_codes.Prelude.{
  String, Bool, ◌&&◌, Option, none, some, List, [], ◌∷◌, ◌++◌, if◌then◌else◌, ◌==◌, string_eq,
  includes, truthy, get_or, template,
}

abbrev pub anthropic_harnesses : List String
anthropic_harnesses = "claude-code" ∷ "claude-other" ∷ []

abbrev pub Env : Type 0
Env = List (String × String)

-- The header that names the person's own key; `none` without one.
unfoldable pub credential_of : Bool → Option String → Option String
credential_of own_key provider =
    if own_key && truthy provider
    then some (template ("x-openvibe-credential: " ∷ get_or provider "" ∷ []))
    else none

unfoldable pub anthropic_env : String → String → Option String → Env
anthropic_env base token none = ("ANTHROPIC_BASE_URL", base) ∷ ("ANTHROPIC_AUTH_TOKEN", token) ∷ []
anthropic_env base token (some credential) =
    ("ANTHROPIC_BASE_URL", base)
    ∷ ("ANTHROPIC_AUTH_TOKEN", token)
    ∷ ("ANTHROPIC_CUSTOM_HEADERS", credential)
    ∷ []

unfoldable pub credential_env : (String → String) → String → Option String → Env
credential_env quoted provider none = []
credential_env quoted provider (some credential) =
    ("OPENAI_CUSTOM_HEADERS", credential)
    ∷ (
      "OPENVIBE_CODES_HEADERS",
      template ("{\"x-openvibe-credential\":" ∷ quoted provider ∷ "}" ∷ []),
    )
    ∷ []

-- The names that Codes' own adapters read.
unfoldable pub adapter_env : String → String → String → Env
adapter_env harness url token =
    if harness == "deepseek"
    then ("DEEPSEEK_BASE_URL", url) ∷ ("DEEPSEEK_API_KEY", token) ∷ []
    else if harness == "openvibe-ai"
    then ("OPENVIBE_AI_URL", url) ∷ ("OPENVIBE_AI_TOKEN", token) ∷ []
    else if harness == "openai-compatible"
    then ("OPENVIBE_CODES_BASE_URL", url) ∷ ("OPENVIBE_CODES_API_KEY", token) ∷ []
    else []

-- `envFor`, in the order of its writes.
unfoldable pub env_for : (String → String) → String → String → String → Option String → Bool → Env
env_for quoted base harness token provider own_key =
    let credential = credential_of own_key provider in
    let url = template (base ∷ "/v1" ∷ []) in
    if includes anthropic_harnesses harness
    then anthropic_env base token credential
    else ("OPENAI_BASE_URL", url)
        ∷ ("OPENAI_API_KEY", token)
        ∷ credential_env quoted (get_or provider "") credential
      ++ adapter_env harness url token
