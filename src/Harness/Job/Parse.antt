-- ===== src/Harness/Job/Parse.antt =====
-- harness/job.js, `parseArgs`, with `jobEnv` and `jobAttachments`.
use mathlib.Core.Option
use open_vibe_codes.Prelude.{
  ℕ, String, Bool, false, not, ◌&&◌, ◌||◌, Option, none, some, List, [], ◌∷◌, if◌then◌else◌, ◌==◌,
  string_eq, ltb, leb, get_or, or_else, truthy, includes, keep, take, min, ◌⊎◌, ◌++◌, inl, inr,
}
use open_vibe_codes.Runtime.{Runtime, Url, Urls}
use open_vibe_codes.Harness.Job.{
  FileIn, Attachment, PushIn, LimitsIn, Input, Args, Process, Parsed, refused, accepted, max_prompt,
  max_patch, branch_re, protected_re, session_re, conductor_agents, env_names,
}

-- One of the listed words, else nothing.
abbrev pub one_of : List String → Option String → Option String
one_of words none = none
one_of words (some w) = if includes words w then some w else none

abbrev pub allowed_pair : Runtime → String × String → Bool
allowed_pair js (name, value) =
    includes env_names name && (not (value == "") && leb (js.units value) 4000)

-- `jobEnv`: the allowlisted names only, each a short text.
unfoldable pub job_env : Runtime → List (String × String) → List (String × String)
job_env js env = keep (allowed_pair js) env

abbrev pub positive_size : Option ℕ → Option ℕ
positive_size none = none
positive_size (some n) = if ltb 0 n then some n else none

unfoldable pub allowed_scheme : Process → Url → Bool
allowed_scheme p u = (p.allow_file_repo && u.protocol == "file:") || u.protocol == "https:"

unfoldable pub has_credentials : Url → Bool
has_credentials u = not (u.username == "") || not (u.password == "")

-- The ref is read first, then the push.
abbrev pub first_refusal : Option String → Option String → Option String
first_refusal none b = b
first_refusal (some why) b = some why

module _ (js : Runtime) where
  open js use {trim, cut, units, test, replace}

  unfoldable pub safe_name : Option String → String
  safe_name name =
      let plain = replace "[^A-Za-z0-9._ -] g" "_" (get_or (or_else name (some "file")) "") in
      let short = cut 120 (replace "^\\.+ " "" (trim (replace "\\s+ g" " " plain))) in
      if short == "" then "file" else short

  unfoldable pub attachment_at : FileIn → String → List Attachment
  attachment_at f url =
      let dir = get_or (or_else f.dir (some "message")) "" in
      if not (test "^https?:\\/\\/ " url) || ltb 2000 (units url)
      then []
      else record {
        name = safe_name f.name;
        mime = elim f.mime [ none ↦ "application/octet-stream" | some m ↦ cut 100 m ];
        size = positive_size f.size;
        url = url;
        dir = if test "^[A-Za-z0-9._-]{1,80}$ " dir then dir else "message";
      }
        ∷ []

  unfoldable pub attachment_of : FileIn → Option String → List Attachment
  attachment_of f none = []
  attachment_of f (some url) = attachment_at f url

  unfoldable pub attachments_of : List FileIn → List Attachment
  attachments_of [] = []
  attachments_of (f ∷ files) = attachment_of f f.url ++ attachments_of files

  -- `jobAttachments`: ten files at most.
  unfoldable pub job_attachments : List FileIn → List Attachment
  job_attachments files = attachments_of (take 10 files)

  -- The session to resume: the input's own, else the environment's.
  unfoldable pub session_of : Option String → Option String
  session_of none = none
  session_of (some s) = if test session_re s then some s else none

  unfoldable pub resume_of : Process → Option String → Option String
  resume_of p given = session_of (if truthy given then given else p.resume)

  unfoldable pub model_of : Option String → Option String
  model_of none = none
  model_of (some m) = if leb (units m) 100 then some m else none

  unfoldable pub agent_of : Option String → Option String
  agent_of none = none
  agent_of (some a) = if test "^[a-z0-9-]{1,40}$ " a then some a else none

  unfoldable pub kind_of : Option String → String
  kind_of kind = get_or (one_of ("bench" ∷ "conductor" ∷ []) kind) "code"

  abbrev pub efforts_of : Option String → Option String
  efforts_of = one_of ("low" ∷ "medium" ∷ "high" ∷ "xhigh" ∷ "max" ∷ [])

  abbrev url_or_null : Option String → Option String
  url_or_null none = none
  url_or_null (some u) =
      if test "^https?:\\/\\/ " u && leb (units u) 300 then some (replace "\\/+$ " "" u) else none

  abbrev task_or_null : Option String → Option String
  task_or_null none = none
  task_or_null (some t) = if test "^tsk_[0-9A-HJKMNP-TV-Z]{26}$ " t then some t else none

  unfoldable pub bad_folder : String → Bool
  bad_folder folder =
      not (test "^\\/ " folder) || ltb 4096 (units folder) || test "[\\0-\\x1f\\x7f] " folder

  -- A conductor's turn: a folder of the owner's, and no repository.
  unfoldable pub parse_conductor : Process → Input → String → Parsed
  parse_conductor p a prompt =
      let folder = trim (get_or a.folder "") in
      let safety = get_or (one_of ("ask" ∷ "project" ∷ "full" ∷ []) a.safety) "ask" in
      let agent = get_or (one_of conductor_agents a.agent) "claude-code" in
      if bad_folder folder
      then refused "folder must be an absolute path"
      else accepted (record {
        kind = "conductor";
        repo = none;
        ref = none;
        prompt = prompt;
        permission = if not (agent == "claude-code") && safety == "full" then "full" else "edit";
        push = none;
        attachments = job_attachments a.attachments;
        limits = none;
        resume = resume_of p a.resume;
        env = job_env js a.env;
        agent = some agent;
        model = model_of a.model;
        effort = efforts_of a.effort;
        knowledge = none;
        base_patch = none;
        folder = some folder;
        safety = some safety;
        mcp = a.mcp;
        codes_url = url_or_null a.codes_url;
        task_id = task_or_null a.task_id;
      })

  -- The repository of a job: `inl` is why it is refused.
  unfoldable pub checked_url : Process → Option Url → String ⊎ Option String
  checked_url p none = inl "repo must be a repository URL"
  checked_url p (some u) =
      if not (allowed_scheme p u)
      then inl "repo must be an https URL"
      else if has_credentials u
      then inl "repo must not carry credentials"
      else inr (some u.href)

  unfoldable pub checked_repo : Urls → Process → String → Option String → String ⊎ Option String
  checked_repo urls p kind repo =
      if kind == "code" then checked_url p (urls.parse (get_or repo "")) else inr none

  -- Why a branch that is to be pushed is refused.
  unfoldable pub branch_refusal : String → Option String
  branch_refusal b =
      if not (test branch_re b) || test "^- " b
      then some "push.branch must be a branch name"
      else if test protected_re b
      then some "push.branch must be a new branch of the task's own"
      else none

  unfoldable pub push_refusal : Option PushIn → Option String
  push_refusal none = none
  push_refusal (some push) =
      if truthy push.branch then branch_refusal (get_or push.branch "") else none

  unfoldable pub ref_refusal : Option String → Option String
  ref_refusal none = none
  ref_refusal (some ref) =
      if test branch_re ref then none else some "ref must be a branch or tag name"

  abbrev pub text_or_null : ℕ → Option String → Option String
  text_or_null n none = none
  text_or_null n (some s) = if trim s == "" then none else some (cut n (trim s))

  abbrev pub patch_or_null : Option String → Option String
  patch_or_null none = none
  patch_or_null (some s) = if not (trim s == "") && leb (units s) max_patch then some s else none

  abbrev at_most : ℕ → Option ℕ → Option ℕ
  at_most most n = Option.map (min most) (positive_size n)

  -- A benchmark's own limits, each capped; dollars are in millionths.
  unfoldable pub limits_of : String → Option LimitsIn → Option LimitsIn
  limits_of kind none = none
  limits_of kind (some l) =
      if kind == "bench"
      then some (record {
        ms = at_most 300000 l.ms;
        tokens = at_most 1000000 l.tokens;
        usd = at_most 100000000 l.usd;
      })
      else none

  unfoldable pub permission_of : Option String → String
  permission_of permission =
      let asked = get_or permission "" in
      if asked == "review" || asked == "read"
      then "read"
      else if asked == "full"
      then "full"
      else "edit"

  unfoldable pub args_of : Process → Input → String → String → Option String → Args
  args_of p a kind prompt repo = record {
    kind = kind;
    repo = repo;
    ref = or_else a.ref none;
    prompt = prompt;
    permission = permission_of a.permission;
    push = a.push;
    attachments = job_attachments a.attachments;
    limits = limits_of kind a.limits;
    resume = resume_of p a.resume;
    env = job_env js a.env;
    agent = agent_of a.agent;
    model = model_of a.model;
    effort = efforts_of a.effort;
    knowledge = text_or_null 4000 a.knowledge;
    base_patch = patch_or_null a.base_patch;
    folder = none;
    safety = none;
    mcp = false;
    codes_url = none;
    task_id = none;
  }

  unfoldable pub parse_job :
      Process → Input → String → String → String ⊎ Option String → Option String → Parsed
  parse_job p a kind prompt (inl why) refusal = refused why
  parse_job p a kind prompt (inr repo) (some why) = refused why
  parse_job p a kind prompt (inr repo) none = accepted (args_of p a kind prompt repo)

  -- `parseArgs`, behind the parsing of the JSON.
  unfoldable pub parse_args : Urls → Process → Input → Parsed
  parse_args urls p a =
      let kind = kind_of a.kind in
      let prompt = trim (get_or a.prompt "") in
      if prompt == "" || ltb max_prompt (units prompt)
      then refused "prompt must be 1-16000 characters"
      else if kind == "conductor"
      then parse_conductor p a prompt
      else parse_job p a kind prompt (checked_repo urls p kind a.repo)
          (first_refusal (ref_refusal (or_else a.ref none)) (push_refusal a.push))
