-- ===== src/Server/RunTokens.antt =====
-- server/domain/run-tokens.js: the token that one attempt runs with, and the budget that OpenVibe.AI
-- counts for it. What the Network and OpenVibe.AI answer is an argument, and what a call writes is a
-- log: the budgets that OpenVibe.AI took, and the rows of codes_run_tokens. Costs are whole
-- micro-dollars, times whole seconds.
pub mod Budgeted
pub mod Env
use open_vibe_codes.Prelude.{
  ℕ, zero, suc, ◌+◌, min, max, String, Bool, true, false, not, ◌&&◌, ◌||◌, Option, none, some, List,
  [], ◌∷◌, ◌++◌, if◌then◌else◌, ltb, truthy, get_or, ◌==◌, nat_eq, string_eq,
}
use open_vibe_codes.Runtime.{Runtime}

-- `Math.min(7200, Math.max(60, Number(setting || 7200)))`.
unfoldable pub ttl_of : Option ℕ → ℕ
ttl_of setting = min 7200 (max 60 (get_or setting 7200))

pub record Budget : Type 0 where
  pub usd : ℕ
  pub tokens : ℕ

-- A budget as it is registered: what is not above 0 is null.
pub record Registration : Type 0 where
  pub jti : String
  pub usd : Option ℕ
  pub tokens : Option ℕ
  pub expires : ℕ

pub record TokenRow : Type 0 where
  pub id : String
  pub task_id : Option String
  pub attempt_id : Option String
  pub subject : String
  pub provider : Option String
  pub jti : Option String
  pub expires_at : ℕ
  pub budget_usd : Option ℕ
  pub budget_tokens : Option ℕ

pub record Log : Type 0 where
  pub budgets : List Registration
  pub rows : List TokenRow

pub record Request : Type 0 where
  pub subject : String
  pub task : Option String
  pub attempt : Option String
  pub provider : Option String
  pub budget : Option Budget

-- What the Network answers: nothing, or its status with the token of its document, if there is one.
pub data Answer : Type 0 where
  unreachable : Answer
  answered : (accepted : Bool) (status : ℕ) (access_token : Option String) → Answer

-- What a token says of itself.
pub record Claims : Type 0 where
  pub jti : Option String
  pub exp : Option ℕ

-- The world of one call. `client` says that the Network client's id and secret are set, `takes` what
-- OpenVibe.AI answers to a registration (none: nothing), and `row_id` is none where the database does
-- not take the row.
pub record World : Type 0 where
  pub ttl : ℕ
  pub client : Bool
  pub own_token : Bool
  pub answer : Answer
  pub claims : String → Option Claims
  pub takes : Registration → Option Bool
  pub row_id : Option String
  pub now : ℕ

pub record Token : Type 0 where
  pub token : String
  pub jti : Option String
  pub expires_at : ℕ

pub data Minted : Type 0 where
  minted : Token → Minted
  refused : (status : ℕ) (code : String) → Minted

abbrev pub above_zero : ℕ → Option ℕ
above_zero zero = none
above_zero (suc n) = some (suc n)

unfoldable pub has_budget : Option Budget → Bool
has_budget none = false
has_budget (some b) = ltb 0 b.usd || ltb 0 b.tokens

abbrev pub word_or_null : Option String → Option String
word_or_null s = if truthy s then s else none

-- `record`: the row that says that a token was minted, best effort.
unfoldable pub record_as : Option String → Request → Token → Log → Log
record_as none q t log = log
record_as (some id) q t log = record log {
  rows =
      log.rows
      ++ record {
        id = id;
        task_id = word_or_null q.task;
        attempt_id = word_or_null q.attempt;
        subject = q.subject;
        provider = word_or_null q.provider;
        jti = word_or_null t.jti;
        expires_at = t.expires_at;
        budget_usd = elim q.budget [ none ↦ none | some b ↦ above_zero b.usd ];
        budget_tokens = elim q.budget [ none ↦ none | some b ↦ above_zero b.tokens ];
      }
        ∷ [];
}

unfoldable pub record_row : World → Request → Token → Log → Log
record_row w q t log = record_as w.row_id q t log

unfoldable pub registration : String → Budget → ℕ → Registration
registration jti b expires = record {
  jti = jti;
  usd = above_zero b.usd;
  tokens = above_zero b.tokens;
  expires = expires;
}

unfoldable pub put_budget : Registration → Option Bool → Log → Option Log
put_budget r (some true) log = some (record log { budgets = log.budgets ++ r ∷ [] })
put_budget r (some false) log = none
put_budget r none log = none

-- `registerBudget`; `none` is the error 503 `run_token.budget_unavailable`.
unfoldable pub register_budget : World → Option String → Budget → ℕ → Log → Option Log
register_budget w none b expires log = none
register_budget w (some jti) b expires log =
    let r = registration jti b expires in
    if not (truthy (some jti)) || not w.own_token then none else put_budget r (w.takes r) log

unfoldable pub after_budget : World → Request → Token → Option Log → Log → Minted × Log
after_budget w q t none log = (refused 503 "run_token.budget_unavailable", log)
after_budget w q t (some registered) log = (minted t, record_row w q t registered)

unfoldable pub budget_of : World → Request → Token → Option Budget → Log → Option Log
budget_of w q t none log = some log
budget_of w q t (some b) log =
    if has_budget (some b) then register_budget w t.jti b t.expires_at log else some log

-- `exp ? … : …`.
abbrev pub exp_or : Option ℕ → ℕ → ℕ
exp_or none d = d
exp_or (some zero) d = d
exp_or (some (suc n)) d = suc n

-- The token as it is handed out: its id, and when it ends.
unfoldable pub token_of : World → String → Token
token_of w token =
    let claims = get_or (w.claims token) (record { jti = none; exp = none }) in
    record {
      token = token;
      jti = word_or_null claims.jti;
      expires_at = exp_or claims.exp (w.now + w.ttl);
    }

unfoldable pub hand_out : World → Request → Token → Log → Minted × Log
hand_out w q t log = after_budget w q t (budget_of w q t q.budget log) log

unfoldable pub read_answer : World → Request → Answer → Log → Minted × Log
read_answer w q unreachable log = (refused 503 "run_token.unavailable", log)
read_answer w q (answered accepted status access_token) log =
    if accepted && truthy access_token
    then hand_out w q (token_of w (get_or access_token "")) log
    else (refused (if status == 403 then 403 else 503) "run_token.refused", log)

-- `mint`: the token or the error, and what was written.
unfoldable pub mint : Runtime → World → Request → Log → Minted × Log
mint js w q log =
    if not (js.test "^usr_[0-9A-HJKMNP-TV-Z]{26}$" q.subject)
    then (refused 400 "subject.required", log)
    else if w.client
    then read_answer w q w.answer log
    else (refused 503 "run_token.unavailable", log)

-- What OpenVibe.AI answers about a run token's budget: a document's numbers, 0 where there is none.
pub record Spending : Type 0 where
  pub budget_usd : Option ℕ
  pub budget_tokens : Option ℕ
  pub spent_usd : ℕ
  pub spent_tokens : ℕ
  pub reached : Bool

-- `spend`; the inner `none` is no answer, a refusal or no document.
unfoldable pub spend : World → Option String → (String → Option Spending) → Option Spending
spend w none ask = none
spend w (some jti) ask = if jti == "" || not w.own_token then none else ask jti
