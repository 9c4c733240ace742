-- ===== src/Tests/Jobs.antt =====
-- The theorems on a job's input, on a small coding task.
use open_vibe_codes.Prelude.{refl, String, false, none, some, [], ◌∷◌}
use open_vibe_codes.Runtime.{Url, Urls}
use open_vibe_codes.Tests.Fixtures.{js}
use open_vibe_codes.Harness.Job.{Input, Args, Process}
use open_vibe_codes.Harness.Job.Parse.{parse_args}
use open_vibe_codes.Harness.Job.Checked.{IsSafe, parse_args-IsSafe}

abbrev address : String → Url
address url = record {
  href = url;
  protocol = "https:";
  username = "";
  password = "";
  pathname = "/a/b";
}

abbrev urls : Urls
urls = record { parse = λ url. some (address url) }

abbrev process : Process
process = record { allow_file_repo = false; resume = none }

abbrev input : Input
input = record {
  kind = none;
  prompt = some "fix it";
  effort = none;
  agent = some "codex";
  model = none;
  permission = none;
  repo = some "https://git/a/b";
  ref = none;
  push = none;
  limits = none;
  attachments = [];
  resume = none;
  env = ("OPENAI_API_KEY", "k") ∷ ("PATH", "/bin") ∷ [];
  knowledge = none;
  base_patch = none;
  folder = none;
  safety = none;
  mcp = false;
  codes_url = none;
  task_id = none;
}

abbrev checked : Args
checked = record {
  kind = "code";
  repo = some "https://git/a/b";
  ref = none;
  prompt = "fix it";
  permission = "edit";
  push = none;
  attachments = [];
  limits = none;
  resume = none;
  env = ("OPENAI_API_KEY", "k") ∷ [];
  agent = none;
  model = none;
  effort = none;
  knowledge = none;
  base_patch = none;
  folder = none;
  safety = none;
  mcp = false;
  codes_url = none;
  task_id = none;
}

parse_args-IsSafe_example : IsSafe js urls process input checked
unfolding open_vibe_codes.Harness.Job.Parse.parse_args open_vibe_codes.Harness.Job.Parse.kind_of
    open_vibe_codes.Harness.Job.Parse.checked_repo open_vibe_codes.Harness.Job.Parse.checked_url
    open_vibe_codes.Harness.Job.Parse.allowed_scheme
    open_vibe_codes.Harness.Job.Parse.has_credentials open_vibe_codes.Harness.Job.Parse.ref_refusal
    open_vibe_codes.Harness.Job.Parse.push_refusal open_vibe_codes.Harness.Job.Parse.parse_job
    open_vibe_codes.Harness.Job.Parse.args_of open_vibe_codes.Harness.Job.Parse.session_of
    open_vibe_codes.Harness.Job.Parse.resume_of open_vibe_codes.Harness.Job.Parse.model_of
    open_vibe_codes.Harness.Job.Parse.agent_of open_vibe_codes.Harness.Job.Parse.limits_of
    open_vibe_codes.Harness.Job.Parse.permission_of
    open_vibe_codes.Harness.Job.Parse.job_attachments
    open_vibe_codes.Harness.Job.Parse.attachments_of open_vibe_codes.Harness.Job.Parse.job_env
parse_args-IsSafe_example = parse_args-IsSafe js urls process input checked refl
