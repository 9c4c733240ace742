-- ===== src/Harness/Job.antt =====
-- harness/job.js: the input of a job, checked before anything is cloned or started. The input is a
-- JSON object whose fields of the wrong type read as missing; sizes and money are natural numbers.
pub mod Parse
pub mod Checked
pub mod Again
use open_vibe_codes.Prelude.{
  ℕ, String, Bool, true, false, not, ◌&&◌, ◌||◌, Option, none, some, List, [], ◌∷◌, if◌then◌else◌,
  ◌==◌, string_eq, ltb, leb, get_or, or_else, truthy, includes, keep, take, min, ◌⊎◌, ◌++◌, inl,
  inr,
}
use open_vibe_codes.Runtime.{Runtime, Url, Urls}

-- A file of the owner's, as the input names it.
pub record FileIn : Type 0 where
  pub url : Option String
  pub name : Option String
  pub mime : Option String
  pub size : Option ℕ
  pub dir : Option String

pub record Attachment : Type 0 where
  pub name : String
  pub mime : String
  pub size : Option ℕ
  pub url : String
  pub dir : String

pub record PushIn : Type 0 where
  pub branch : Option String
  pub pull_request : Bool

pub record LimitsIn : Type 0 where
  pub ms : Option ℕ
  pub tokens : Option ℕ
  pub usd : Option ℕ

pub record Input : Type 0 where
  pub kind : Option String
  pub prompt : Option String
  pub effort : Option String
  pub agent : Option String
  pub model : Option String
  pub permission : Option String
  pub repo : Option String
  pub ref : Option String
  pub push : Option PushIn
  pub limits : Option LimitsIn
  pub attachments : List FileIn
  pub resume : Option String
  pub env : List (String × String)
  pub knowledge : Option String
  pub base_patch : Option String
  pub folder : Option String
  pub safety : Option String
  pub mcp : Bool
  pub codes_url : Option String
  pub task_id : Option String

-- The checked input; the last five are a conductor's.
pub record Args : Type 0 where
  pub kind : String
  pub repo : Option String
  pub ref : Option String
  pub prompt : String
  pub permission : String
  pub push : Option PushIn
  pub attachments : List Attachment
  pub limits : Option LimitsIn
  pub resume : Option String
  pub env : List (String × String)
  pub agent : Option String
  pub model : Option String
  pub effort : Option String
  pub knowledge : Option String
  pub base_patch : Option String
  pub folder : Option String
  pub safety : Option String
  pub mcp : Bool
  pub codes_url : Option String
  pub task_id : Option String

-- What the process's own environment says.
pub record Process : Type 0 where
  pub allow_file_repo : Bool
  pub resume : Option String

pub data Parsed : Type 0 where
  refused : (why : String) → Parsed
  accepted : Args → Parsed

abbrev pub max_prompt : ℕ
max_prompt = 16000

abbrev pub max_patch : ℕ
max_patch = 180000

abbrev pub branch_re : String
branch_re = "^[A-Za-z0-9._/-]{1,100}$ "

abbrev pub protected_re : String
protected_re =
    "^(main|master|trunk|dev|develop|development|staging|stage|production|prod|stable|live|gh-pages|release|releases|hotfix)([/-].*)?$ i"

abbrev pub session_re : String
session_re = "^[A-Za-z0-9._:-]{1,200}$ "

abbrev pub conductor_agents : List String
conductor_agents =
    "claude-code" ∷ "claude-other" ∷ "codex" ∷ "opencode" ∷ "command-code" ∷ "minimax-code"
    ∷ "aider" ∷ "deepseek" ∷ "openvibe-ai" ∷ "openai-compatible" ∷ []

abbrev pub env_names : List String
env_names =
    "ANTHROPIC_BASE_URL" ∷ "ANTHROPIC_AUTH_TOKEN" ∷ "ANTHROPIC_API_KEY" ∷ "ANTHROPIC_CUSTOM_HEADERS"
    ∷ "ANTHROPIC_MODEL" ∷ "OPENAI_BASE_URL" ∷ "OPENAI_API_KEY" ∷ "OPENAI_CUSTOM_HEADERS"
    ∷ "DEEPSEEK_BASE_URL" ∷ "DEEPSEEK_API_KEY" ∷ "OPENVIBE_AI_URL" ∷ "OPENVIBE_AI_TOKEN"
    ∷ "OPENVIBE_CODES_BASE_URL" ∷ "OPENVIBE_CODES_API_KEY" ∷ "OPENVIBE_CODES_MODEL"
    ∷ "OPENVIBE_CODES_HEADERS" ∷ "OPENVIBE_GIT_CREDENTIALS" ∷ []
