-- ===== src/Harness/Job/Checked.antt =====
-- harness/job.js, `parseArgs`: what holds of a job's input that is accepted.
use mathlib.Core.List.{Memᴰ}
use mathlib.Core.Path.{subst}
use open_vibe_codes.Prelude.{
  ◌≤◌, ◌≡◌, refl, ap, ◌⊎◌, inl, inr, String, Bool, true, false, not, ◌||◌, Option, none, some, List,
  arith, ◌==◌, string_eq, ltb, leb→le, truthy, includes, get_or, ==_iff, Bool-cases, and-true,
  mem-keep,
}
use open_vibe_codes.Runtime.{Runtime, Url, Urls}
use open_vibe_codes.Harness.Job.{
  Input, Args, Process, Parsed, refused, accepted, PushIn, env_names, protected_re, branch_re,
  max_prompt,
}
use open_vibe_codes.Harness.Job.Parse.{
  parse_args, parse_job, parse_conductor, args_of, checked_repo, checked_url, push_refusal,
  branch_refusal, job_env, allowed_pair, allowed_scheme, has_credentials, kind_of, bad_folder,
  first_refusal,
}

-- A branch that may be pushed: a name, and none of the protected ones.
pub record IsPushable (js : Runtime) (b : String) : Type 0 where
  pub named : js.test branch_re b ≡ true
  pub own : js.test protected_re b ≡ false

-- An accepted push names no branch, or one that may be pushed.
abbrev pub IsPushSafe : Runtime → Option PushIn → Type 0
IsPushSafe js none = Unit
IsPushSafe js (some push) = truthy push.branch ≡ true → IsPushable js (get_or push.branch "")

-- An address that a job may clone: over https (a file only where tests allow it), without
-- credentials.
pub record IsClonable (p : Process) (u : Url) : Type 0 where
  pub scheme : (u.protocol ≡ "https:") ⊎ ((p.allow_file_repo ≡ true) × (u.protocol ≡ "file:"))
  pub no_user : u.username ≡ ""
  pub no_password : u.password ≡ ""

-- An accepted input.
pub record IsSafe (js : Runtime) (urls : Urls) (p : Process) (a : Input) (args : Args)
    : Type 0 where
  pub prompted : (args.prompt == "") ≡ false
  pub short : js.units args.prompt ≤ max_prompt
  pub pushed : IsPushSafe js args.push
  pub cloned :
      (href : String)
      → args.repo ≡ some href
      → (u : Url) × (urls.parse (get_or a.repo "") ≡ some u) × (u.href ≡ href) × IsClonable p u
  pub named :
      {x : String × String}
      → Memᴰ x args.env
      → (includes env_names x.0 ≡ true) × (js.units x.1 ≤ 4000)

or-false : (a b : Bool) → (a || b) ≡ true → b ≡ false → a ≡ true
or-false a b h e = ground arith

job_env-IsAllowed :
    (js : Runtime) (env : List (String × String)) {x : String × String}
    → Memᴰ x (job_env js env)
    → (includes env_names x.0 ≡ true) × (js.units x.1 ≤ 4000)
unfolding job_env
job_env-IsAllowed js env {x} m =
    let (passes, listed) = mem-keep (allowed_pair js) env m in allowed x passes
  where
    allowed :
        (x : String × String)
        → allowed_pair js x ≡ true
        → (includes env_names x.0 ≡ true) × (js.units x.1 ≤ 4000)
    allowed (name, value) h =
        let (listed, rest) = and-true _ _ h in
        let (full, short) = and-true _ _ rest in (listed, leb→le _ _ short)

branch_refusal-none : (js : Runtime) (b : String) → branch_refusal js b ≡ none → IsPushable js b
unfolding branch_refusal
branch_refusal-none js b h = elim (Bool-cases (js.test branch_re b)) [
  | inr e ↦ cc (rw (e, branch_refusal) at h)
  | inl e ↦ elim (Bool-cases (js.test "^- " b)) [
    | inl k ↦ cc (rw (e, k, branch_refusal) at h)
    | inr k ↦ elim (Bool-cases (js.test protected_re b)) [
      | inl o ↦ cc (rw (e, k, o, branch_refusal) at h)
      | inr o ↦ record { named = e; own = o }
    ]
  ]
]

push_refusal-none :
    (js : Runtime) (push : Option PushIn) → push_refusal js push ≡ none → IsPushSafe js push
unfolding push_refusal
push_refusal-none js none h = tt
push_refusal-none js (some push) h = λ t. branch_refusal-none js _ (rw (t, push_refusal) at h)

word-empty : (s : String) → not (s == "") ≡ false → s ≡ ""
word-empty s h = elim (Bool-cases (s == "")) [ inl e ↦ (==_iff s "").0 e | inr e ↦ cc (rw e at h) ]

has_credentials-false :
    (u : Url) → has_credentials u ≡ false → (u.username ≡ "") × (u.password ≡ "")
unfolding has_credentials
has_credentials-false u h = elim (Bool-cases (not (u.username == ""))) [
  | inl e ↦ cc (rw e at h)
  | inr e ↦ (word-empty _ e, word-empty _ (rw e at h))
]

allowed_scheme-true :
    (p : Process) (u : Url)
    → allowed_scheme p u ≡ true
    → (u.protocol ≡ "https:") ⊎ ((p.allow_file_repo ≡ true) × (u.protocol ≡ "file:"))
unfolding allowed_scheme
allowed_scheme-true p u h = elim (Bool-cases (u.protocol == "https:")) [
  | inl e ↦ inl ((==_iff _ _).0 e)
  | inr e ↦ let (file, named) = and-true _ _ (or-false _ _ h e) in inr (file, (==_iff _ _).0 named)
]

checked_url-IsClonable :
    (js : Runtime) (p : Process) (o : Option Url) (href : String)
    → checked_url js p o ≡ inr (some href)
    → (u : Url) × (o ≡ some u) × (u.href ≡ href) × IsClonable p u
unfolding checked_url
checked_url-IsClonable js p none href h = cc
checked_url-IsClonable js p (some u) href h = elim (Bool-cases (allowed_scheme p u)) [
  | inr e ↦ cc (rw (e, checked_url) at h)
  | inl e ↦ elim (Bool-cases (has_credentials u)) [
    | inl k ↦ cc (rw (e, k, checked_url) at h)
    | inr k ↦ (
      u,
      refl,
      cc (rw (e, k, checked_url) at h),
      record {
        scheme = allowed_scheme-true p u e;
        no_user = (has_credentials-false u k).0;
        no_password = (has_credentials-false u k).1;
      },
    )
  ]
]

args_or : Args → Parsed → Args
args_or d (refused why) = d
args_or d (accepted args) = args

accepted-injective : (a b : Args) → accepted a ≡ accepted b → a ≡ b
unfolding args_or
accepted-injective a b h = ap (args_or a) h

first_refusal-none : (a b : Option String) → first_refusal a b ≡ none → (a ≡ none) × (b ≡ none)
first_refusal-none none b h = (refl, h)
first_refusal-none (some why) b h = cc

checked_repo-IsClonable :
    (js : Runtime) (urls : Urls) (p : Process) (kind : String) (repo : Option String)
    (href : String)
    → checked_repo js urls p kind repo ≡ inr (some href)
    → (u : Url) × (urls.parse (get_or repo "") ≡ some u) × (u.href ≡ href) × IsClonable p u
unfolding checked_repo
checked_repo-IsClonable js urls p kind repo href h = elim (Bool-cases (kind == "code")) [
  | inl e ↦ checked_url-IsClonable js p _ href (rw (e, checked_repo) at h)
  | inr e ↦ cc (rw (e, checked_repo) at h)
]

parse_conductor-IsSafe :
    (js : Runtime) (urls : Urls) (p : Process) (a : Input) (prompt : String) (args : Args)
    → (prompt == "") ≡ false
    → js.units prompt ≤ max_prompt
    → parse_conductor js p a prompt ≡ accepted args
    → IsSafe js urls p a args
unfolding parse_conductor
parse_conductor-IsSafe js urls p a prompt args full short h =
    elim (Bool-cases (bad_folder js (js.trim (get_or a.folder "")))) [
      | inl e ↦ cc (rw (e, parse_conductor) at h)
      | inr e ↦
          subst (IsSafe js urls p a) (accepted-injective _ _ (rw (e, parse_conductor) at h))
            (record {
              prompted = full;
              short = short;
              pushed = tt;
              cloned = λ href k. cc;
              named = λ m. job_env-IsAllowed js a.env m;
            })
    ]

parse_job-IsSafe :
    (js : Runtime) (urls : Urls) (p : Process) (a : Input) (kind prompt : String) (args : Args)
    (repo : String ⊎ Option String) (refusal : Option String)
    → (prompt == "") ≡ false
    → js.units prompt ≤ max_prompt
    → (refusal ≡ none → IsPushSafe js a.push)
    → ((href : String)
        → repo ≡ inr (some href)
        → (u : Url) × (urls.parse (get_or a.repo "") ≡ some u) × (u.href ≡ href) × IsClonable p u)
    → parse_job js p a kind prompt repo refusal ≡ accepted args
    → IsSafe js urls p a args
unfolding parse_job args_of
parse_job-IsSafe js urls p a kind prompt args (inl why) refusal full short pushed cloned h = cc
parse_job-IsSafe js urls p a kind prompt args (inr repo) (some why) full short pushed cloned h = cc
parse_job-IsSafe js urls p a kind prompt args (inr repo) none full short pushed cloned h =
    subst (IsSafe js urls p a) (accepted-injective _ _ h) (record {
      prompted = full;
      short = short;
      pushed = pushed refl;
      cloned = λ href e. cloned href (ap inr e);
      named = λ m. job_env-IsAllowed js a.env m;
    })

-- What an accepted input keeps: a prompt of 1 to 16000 characters; a repository only under the parsed
-- address that the input named, over https (a file where tests allow it) and without credentials; a
-- branch to push only when it is a branch's name and no protected one; and an environment of
-- allowlisted names with values of at most 4000 characters.
pub parse_args-IsSafe :
    (js : Runtime) (urls : Urls) (p : Process) (a : Input) (args : Args)
    → parse_args js urls p a ≡ accepted args
    → IsSafe js urls p a args
unfolding parse_args
parse_args-IsSafe js urls p a args h =
    let prompt = js.trim (get_or a.prompt "") in
    elim (Bool-cases (prompt == "" || ltb max_prompt (js.units prompt))) [
      | inl e ↦ cc (rw (e, parse_args) at h)
      | inr e ↦
          let (full, short) = prompt_bounds prompt e in
          elim (Bool-cases (kind_of js a.kind == "conductor")) [
            | inl k ↦
                parse_conductor-IsSafe js urls p a prompt args full short
                  (rw (e, k, parse_args) at h)
            | inr k ↦
                parse_job-IsSafe js urls p a _ prompt args _ _ full short
                  (λ r. push_refusal-none js a.push (first_refusal-none _ _ r).1)
                  (checked_repo-IsClonable js urls p _ a.repo) (rw (e, k, parse_args) at h)
          ]
    ]
  where
    prompt_bounds :
        (prompt : String)
        → (prompt == "" || ltb max_prompt (js.units prompt)) ≡ false
        → ((prompt == "") ≡ false) × (js.units prompt ≤ max_prompt)
    prompt_bounds prompt e = elim (Bool-cases (prompt == "")) [
      | inl k ↦ cc (rw k at e)
      | inr k ↦ (k, ground (arith, rw k at e))
    ]
