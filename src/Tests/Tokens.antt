-- ===== src/Tests/Tokens.antt =====
-- A run token with a budget, and what pays for an attempt, on concrete answers.
use mathlib.Core.Option.{some-injective}
use mathlib.Core.Path.{subst₂}
use open_vibe_codes.Prelude.{
  ◌≡◌, refl, true, false, none, some, [], ◌∷◌, Bool-cases, ◌==◌, string_eq, inl, inr, ==_iff,
}
use open_vibe_codes.Server.RunTokens.{
  World, Request, Token, Log, Answer, Budget, refused, registration,
}
use open_vibe_codes.Server.RunTokens.Budgeted.{IsCapped, mint-IsCapped}
use open_vibe_codes.Server.RunTasks.Funding.{Desk, Funds, attempt_env}
use open_vibe_codes.Server.RunTasks.Connected.{Connections, Kept}
use open_vibe_codes.Server.RunTasks.Funded.{IsCurrent, Pays, direct, attempt_env-Pays}
use open_vibe_codes.Tests.Fixtures.{lenient}

abbrev world : World
world = record {
  ttl = 7200;
  client = true;
  own_token = true;
  answer = Answer.answered true 200 (some "jwt");
  claims = λ token. some (record { jti = some "j-1"; exp = some 9000 });
  takes = λ r. some true;
  row_id = none;
  now = 1000;
}

abbrev budget : Budget
budget = record { usd = 5; tokens = 0 }

abbrev request : Request
request = record {
  subject = "usr_1";
  task = some "t1";
  attempt = some "att_1";
  provider = none;
  budget = some budget;
}

abbrev token : Token
token = record { token = "jwt"; jti = some "j-1"; expires_at = 9000 }

abbrev before : Log
before = record { budgets = []; rows = [] }

abbrev after : Log
after = record { budgets = registration "j-1" budget 9000 ∷ []; rows = [] }

mint-IsCapped_example : IsCapped world budget before after token
unfolding open_vibe_codes.Server.RunTokens.mint open_vibe_codes.Server.RunTokens.read_answer
    open_vibe_codes.Server.RunTokens.hand_out open_vibe_codes.Server.RunTokens.token_of
    open_vibe_codes.Server.RunTokens.budget_of open_vibe_codes.Server.RunTokens.has_budget
    open_vibe_codes.Server.RunTokens.register_budget open_vibe_codes.Server.RunTokens.put_budget
    open_vibe_codes.Server.RunTokens.registration open_vibe_codes.Server.RunTokens.after_budget
    open_vibe_codes.Server.RunTokens.record_row open_vibe_codes.Server.RunTokens.record_as
mint-IsCapped_example = mint-IsCapped lenient world request before after token budget refl refl refl

-- OpenVibe.AI does not take the budget.
abbrev unbudgeted : World
unbudgeted = record world { takes = λ r. some false }

-- A person with a Claude plan and no key, whose connections were read half a minute ago.
abbrev connections : Connections
connections = record {
  providers = "openai" ∷ [];
  plans = record { provider = some "anthropic"; harness = none; id = none } ∷ [];
}

abbrev desk : Desk
desk = record {
  js = lenient;
  now = 40000;
  infos =
      ("claude-code", record { provider = some "anthropic"; kind = some "cli" })
      ∷ ("openvibe-ai", record { provider = some "openai"; kind = some "api" })
      ∷ [];
  connections = some (λ subject. some connections);
  tokens = some world;
  quoted = λ s. s;
  base = "https://ai";
  defaults = record { usd = some 5; tokens = none };
}

abbrev funds : Funds
funds = record {
  cache = ("usr_1", record { value = some connections; until = 70000 }) ∷ [];
  log = before;
}

funds-IsCurrent : IsCurrent desk funds
funds-IsCurrent subject hit e k = elim (Bool-cases ("usr_1" == subject)) [
  | inl same ↦
      let (to, of) = ==_iff "usr_1" subject in
      subst₂ (λ s (x : Kept Connections). x.value ≡ direct desk.connections s) (to same)
        (some-injective _ _ (rw same at e)) refl
  | inr apart ↦ cc (rw apart at e)
]

attempt_env-Pays_example :
    Pays desk
      (record { env = none; mode = "plan" }, before)
      (attempt_env desk "usr_1" "t1" none (some "claude-code") none funds)
unfolding open_vibe_codes.Server.RunTasks.Funding.harness_info
    open_vibe_codes.Server.RunTasks.Funding.provider_for
    open_vibe_codes.Server.RunTasks.Funding.plan_in
    open_vibe_codes.Server.RunTasks.Funding.is_plan_for
attempt_env-Pays_example =
    attempt_env-Pays desk "usr_1" "t1" none (some "claude-code") none funds funds-IsCurrent
