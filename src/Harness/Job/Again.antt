-- ===== src/Harness/Job/Again.antt =====
-- harness/job.js, `parseArgs`: the server checks a job's input, Run hands the checked input to the
-- machine as JSON, and the machine checks it again.
use open_vibe_codes.Prelude.{
  ◌≡◌, inr, String, false, ◌||◌, Option, none, some, List, [], ◌∷◌, ◌==◌, string_eq, ltb, get_or,
  or_else,
}
use open_vibe_codes.Runtime.{Runtime, Urls}
use open_vibe_codes.Harness.Job.{max_prompt, Input, Args, Process, Parsed, refused, accepted}
use open_vibe_codes.Harness.Job.Parse.{
  first_refusal, args_of, checked_repo, push_refusal, ref_refusal,
}

-- The checked input of a coding task as it is written into the job.
unfoldable pub written : Args → Input
written a = record {
  kind = some a.kind;
  prompt = some a.prompt;
  effort = a.effort;
  agent = a.agent;
  model = a.model;
  permission = some a.permission;
  repo = a.repo;
  ref = a.ref;
  push = a.push;
  limits = a.limits;
  attachments = [];
  resume = a.resume;
  env = a.env;
  knowledge = a.knowledge;
  base_patch = a.base_patch;
  folder = a.folder;
  safety = a.safety;
  mcp = a.mcp;
  codes_url = a.codes_url;
  task_id = a.task_id;
}

abbrev effort_words : List String
effort_words = "low" ∷ "medium" ∷ "high" ∷ "xhigh" ∷ "max" ∷ []

-- What an accepted coding task was read as.
record IsRead (js : Runtime) (urls : Urls) (p : Process) (a : Input) (args : Args) : Type 0 where
  repo : Option String
  same : args ≡ args_of js p a "code" (js.trim (get_or a.prompt "")) repo
  found : checked_repo js urls p "code" a.repo ≡ inr repo
  unrefused : first_refusal (ref_refusal js (or_else a.ref none)) (push_refusal js a.push) ≡ none
  prompted :
      (js.trim (get_or a.prompt "") == ""
        || ltb max_prompt (js.units (js.trim (get_or a.prompt ""))))
      ≡ false

args_or : Args → Parsed → Args
args_or d (refused why) = d
args_or d (accepted args) = args
