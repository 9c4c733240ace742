-- ===== src/Server/RunTasks/Shown.antt =====
-- server/domain/run-tasks.js: `presentResult`, `sessionLogOf` and `present`, the task as the API shows
-- it. An address is passed on only when it is https.
use open_vibe_codes.Prelude.{
  ℕ, String, Bool, false, not, ◌&&◌, ◌||◌, Option, none, some, List, [], ◌∷◌, map, if◌then◌else◌,
  ◌==◌, string_eq, ltb, leb, keep, take, includes, get_or, or_else, template,
}
use open_vibe_codes.Runtime.{Runtime, Url, Urls}
use open_vibe_codes.Server.RunTasks.{Line, File, Push, Doc, Row, is_state, is_terminal}

abbrev pub max_patch : ℕ
max_patch = 262144

abbrev pub line_kinds : List String
line_kinds =
    "agent" ∷ "text" ∷ "tool" ∷ "tool_progress" ∷ "tool_result" ∷ "handoff" ∷ "note" ∷ "usage"
    ∷ "done" ∷ "step" ∷ []

abbrev pub kept_line : Line → Bool
kept_line l = includes line_kinds l.t && leb l.size 20000

abbrev pub lines_or_none : List Line → Option (List Line)
lines_or_none [] = none
lines_or_none (l ∷ lines) = some (l ∷ lines)

-- `sessionLogOf`: the known lines of at most 20 KB, 4000 of them.
unfoldable pub session_log_of : Option Doc → Option (List Line)
session_log_of none = none
session_log_of (some d) = lines_or_none (take 4000 (keep kept_line (get_or d.log [])))

abbrev pub is_web : Option Url → Bool
is_web none = false
is_web (some u) = u.protocol == "https:"

module _ (js : Runtime) (urls : Urls) where
  open js use {cut, units}
  open urls use {parse}

  abbrev short : ℕ → Option String → Option String
  short n none = none
  short n (some s) = some (cut n s)

  -- `httpsUrl`.
  unfoldable pub https_url : Option String → Option String
  https_url none = none
  https_url (some s) =
      if ltb 2000 (units s) then none else if is_web (parse s) then some s else none

  unfoldable pub shown_push : Option Push → Option Push
  shown_push none = none
  shown_push (some p) = some (record {
    pushed = p.pushed;
    branch = short 200 p.branch;
    branch_url = https_url p.branch_url;
    pull_request = https_url p.pull_request;
    pull_request_error = short 500 p.pull_request_error;
    reason = short 500 p.reason;
  })

  abbrev shown_files : Option (List File) → Option (List File)
  shown_files none = none
  shown_files (some files) = some (
      map (λ (f : File). record f { path = cut 500 f.path })
        (keep (λ (f : File). not (f.path == "")) (take 2000 files)))

  abbrev shown_agents : Option (List String) → Option (List String)
  shown_agents none = none
  shown_agents (some agents) = some (map (cut 41) (take 20 agents))

  abbrev is_long : Option String → Bool
  is_long none = false
  is_long (some patch) = ltb max_patch (units patch)

  -- `presentResult`: the contract's fields, each cut to its limit; the log is not one of them.
  unfoldable pub present_result : Doc → Doc
  present_result d = record {
    ok = d.ok;
    agents = shown_agents d.agents;
    summary = short 4000 d.summary;
    files = shown_files d.files;
    patch = short max_patch d.patch;
    patch_truncated = d.patch_truncated || is_long d.patch;
    push = shown_push d.push;
    cost_usd = d.cost_usd;
    duration_ms = d.duration_ms;
    error = short 1000 d.error;
    resolved_model = none;
    log = none;
  }

  pub record Shown : Type 0 where
    pub id : String
    pub state : String
    pub repo : String
    pub ref : Option String
    pub agent : Option String
    pub url : String
    pub created_at : ℕ
    pub updated_at : ℕ
    pub error : Option String
    pub result : Option Doc

  abbrev shown_result : Option Doc → Option Doc
  shown_result none = none
  shown_result (some d) = some (present_result d)

  abbrev shown_error : Option String → Option String
  shown_error none = none
  shown_error (some e) = if e == "" then none else some (cut 1000 e)

  -- `present`: codes.task@1.
  unfoldable pub present : String → Row → Shown
  present base_url r = record {
    id = r.id;
    state = if is_state r.state then r.state else "failed";
    repo = cut 300 r.repo;
    ref = or_else r.ref none;
    agent = or_else r.agent none;
    url = template (base_url ∷ "/run/tasks/" ∷ r.id ∷ []);
    created_at = r.created_at;
    updated_at = r.updated_at;
    error = shown_error r.error;
    result = if is_terminal r.state then shown_result r.result else none;
  }
