-- ===== src/Server/RunTokens/Budgeted.antt =====
-- server/domain/run-tokens.js: no token with a budget is handed out without its cap.
use mathlib.Core.Option.{some-injective}
use mathlib.Core.Path.{subst}
use open_vibe_codes.Prelude.{
  ℕ, ◌≡◌, refl, ap, sym, ◌∙◌, inl, inr, String, Bool, true, false, not, ◌&&◌, ◌||◌, Option, none,
  some, [], ◌∷◌, ◌++◌, if◌then◌else◌, Bool-cases, truthy,
}
use open_vibe_codes.Runtime.{Runtime}
use open_vibe_codes.Server.RunTokens.{
  World, Request, Token, Log, Answer, unreachable, answered, Minted, minted, refused, Budget,
  Registration, has_budget, registration, put_budget, register_budget, budget_of, after_budget,
  hand_out, read_answer, mint, record_as, record_row,
}

-- Nothing is written before a token is refused.
after_budget-refused :
    (w : World) (q : Request) (t : Token) (o : Option Log) (log after : Log) (status : ℕ)
    (code : String)
    → after_budget w q t o log ≡ (refused status code, after)
    → after ≡ log
unfolding after_budget
after_budget-refused w q t none log after status code h = sym (ap (λ p. p.1) h)
after_budget-refused w q t (some registered) log after status code h = cc (ap (λ p. p.0) h)

read_answer-refused :
    (w : World) (q : Request) (answer : Answer) (log after : Log) (status : ℕ) (code : String)
    → read_answer w q answer log ≡ (refused status code, after)
    → after ≡ log
unfolding read_answer hand_out
read_answer-refused w q unreachable log after status code h = sym (ap (λ p. p.1) h)
read_answer-refused w q (answered accepted s access) log after status code h =
    elim (Bool-cases (accepted && truthy access)) [
      | inl e ↦ after_budget-refused w q _ _ log after status code (rw (e, read_answer) at h)
      | inr e ↦ sym (ap (λ p. p.1) (rw (e, read_answer) at h))
    ]

-- When a token is refused, nothing was written: no budget and no row.
pub mint-refused :
    (js : Runtime) (w : World) (q : Request) (log after : Log) (status : ℕ) (code : String)
    → mint js w q log ≡ (refused status code, after)
    → after ≡ log
unfolding mint
mint-refused js w q log after status code h =
    elim (Bool-cases (not (js.test "^usr_[0-9A-HJKMNP-TV-Z]{26}$" q.subject))) [
      | inl e ↦ sym (ap (λ p. p.1) (rw (e, mint) at h))
      | inr e ↦
          by_client w.client (read_answer w q w.answer log)
            (read_answer-refused w q w.answer log after status code) (rw (e, mint) at h)
    ]
  where
    by_client :
        (b : Bool) (answer : Minted × Log)
        → (answer ≡ (refused status code, after) → after ≡ log)
        → (if b then answer else (refused 503 "run_token.unavailable", log))
          ≡ (refused status code, after)
        → after ≡ log
    by_client true answer ih k = ih k
    by_client false answer ih k = sym (ap (λ p. p.1) k)

-- The cap that OpenVibe.AI holds for a token.
pub record IsCapped (w : World) (b : Budget) (log after : Log) (t : Token) : Type 0 where
  pub jti : String
  pub named : t.jti ≡ some jti
  pub taken : w.takes (registration jti b t.expires_at) ≡ some true
  pub written : after.budgets ≡ log.budgets ++ registration jti b t.expires_at ∷ []

put_budget-some :
    (r : Registration) (o : Option Bool) (log registered : Log)
    → put_budget r o log ≡ some registered
    → (o ≡ some true) × (registered.budgets ≡ log.budgets ++ r ∷ [])
unfolding put_budget
put_budget-some r (some true) log registered h =
    (refl, sym (ap (λ l. l.budgets) (some-injective _ _ h)))
put_budget-some r (some false) log registered h = cc
put_budget-some r none log registered h = cc

register_budget-IsCapped :
    (w : World) (b : Budget) (t : Token) (jti : Option String) (log registered : Log)
    → t.jti ≡ jti
    → register_budget w jti b t.expires_at log ≡ some registered
    → IsCapped w b log registered t
unfolding register_budget
register_budget-IsCapped w b t none log registered e h = cc
register_budget-IsCapped w b t (some jti) log registered e h =
    elim (Bool-cases (not (truthy (some jti)) || not w.own_token)) [
      | inl k ↦ cc (rw (k, register_budget) at h)
      | inr k ↦
          let (taken, written) =
            put_budget-some (registration jti b t.expires_at) _ log registered
              (rw (k, register_budget) at h) in
          record { jti = jti; named = e; taken = taken; written = written }
    ]

record_as-budgets :
    (id : Option String) (q : Request) (t : Token) (log : Log)
    → (record_as id q t log).budgets ≡ log.budgets
unfolding record_as
record_as-budgets none q t log = refl
record_as-budgets (some id) q t log = refl

minted-injective : {s t : Token} → minted s ≡ minted t → s ≡ t
minted-injective h = cc

after_budget-minted :
    (w : World) (q : Request) (s : Token) (o : Option Log) (log after : Log) (t : Token)
    → after_budget w q s o log ≡ (minted t, after)
    → (registered : Log) × (o ≡ some registered) × (s ≡ t) × (after.budgets ≡ registered.budgets)
unfolding after_budget record_row
after_budget-minted w q s none log after t h = cc (ap (λ p. p.0) h)
after_budget-minted w q s (some registered) log after t h = (
  registered,
  refl,
  minted-injective (ap (λ p. p.0) h),
  sym (ap (λ p. p.1.budgets) h) ∙ record_as-budgets w.row_id q s registered,
)

hand_out-IsCapped :
    (w : World) (q : Request) (s : Token) (log after : Log) (t : Token) (b : Budget)
    → q.budget ≡ some b
    → has_budget (some b) ≡ true
    → hand_out w q s log ≡ (minted t, after)
    → IsCapped w b log after t
unfolding hand_out budget_of
hand_out-IsCapped w q s log after t b e k h =
    let (registered, taken, same, kept) =
      after_budget-minted w q s (budget_of w q s q.budget log) log after t h in
    let put : register_budget w s.jti b s.expires_at log ≡ some registered =
      rw (e, budget_of, k) at taken in
    let capped = register_budget-IsCapped w b s s.jti log registered refl put in
    subst (IsCapped w b log after) same (record {
      jti = capped.jti;
      named = capped.named;
      taken = capped.taken;
      written = kept ∙ capped.written;
    })

-- A token with a budget is handed out only under its cap: the token has an id, OpenVibe.AI took the
-- budget under that id, until the token ends, and it is the one budget that the call registered.
pub mint-IsCapped :
    (js : Runtime) (w : World) (q : Request) (log after : Log) (t : Token) (b : Budget)
    → q.budget ≡ some b
    → has_budget (some b) ≡ true
    → mint js w q log ≡ (minted t, after)
    → IsCapped w b log after t
unfolding mint read_answer
mint-IsCapped js w q log after t b e k h =
    elim (Bool-cases (not (js.test "^usr_[0-9A-HJKMNP-TV-Z]{26}$" q.subject))) [
      | inl f ↦ cc (ap (λ p. p.0) (rw (f, mint) at h))
      | inr f ↦ by_client w.client w.answer (rw (f, mint) at h)
    ]
  where
    by_answer :
        (answer : Answer)
        → read_answer w q answer log ≡ (minted t, after)
        → IsCapped w b log after t
    by_answer unreachable i = cc (ap (λ p. p.0) i)
    by_answer (answered accepted status access) i = elim (Bool-cases (accepted && truthy access)) [
      | inl f ↦ hand_out-IsCapped w q _ log after t b e k (rw (f, read_answer) at i)
      | inr f ↦ cc (ap (λ p. p.0) (rw (f, read_answer) at i))
    ]

    by_client :
        (client : Bool) (answer : Answer)
        → (if client
            then read_answer w q answer log
            else (refused 503 "run_token.unavailable", log))
          ≡ (minted t, after)
        → IsCapped w b log after t
    by_client true answer i = by_answer answer i
    by_client false answer i = cc (ap (λ p. p.0) i)
