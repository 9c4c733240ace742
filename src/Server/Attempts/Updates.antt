-- ===== src/Server/Attempts/Updates.antt =====
-- server/domain/attempts.js: what a running attempt's row takes: `bind`, `end` and `spend`.
use open_vibe_codes.Prelude.{
  ℕ, String, Option, none, some, List, map, if◌then◌else◌, ◌==◌, string_eq, nat_eq, get_or,
}
use open_vibe_codes.Server.Attempts.{Row}

-- `COALESCE(new, old)`.
abbrev pub coalesce {ℓ} : {A : Type ℓ} → Option A → Option A → Option A
coalesce none old = old
coalesce (some a) old = some a

pub record Binding : Type 0 where
  pub job_id : Option String
  pub state : Option String
  pub machine : Option String
  pub model : Option String
  pub started_at : Option ℕ
  pub session : Option String
  pub run_mode : Option String

unfoldable pub bound : Binding → Row → Row
bound b r = record r {
  job_id = coalesce b.job_id r.job_id;
  state = get_or b.state r.state;
  machine = coalesce b.machine r.machine;
  model = coalesce b.model r.model;
  started_at = coalesce b.started_at r.started_at;
  session = coalesce b.session r.session;
  run_mode = coalesce b.run_mode r.run_mode;
}

pub record Ending : Type 0 where
  pub state : String
  pub reason : Option String
  pub why : Option String
  pub cost_usd : Option ℕ
  pub tokens : Option ℕ
  pub steps : Option ℕ
  pub session : Option String
  pub model : Option String
  pub machine : Option String
  pub budget_hit : Option String
  pub finished_at : Option ℕ

unfoldable pub ended_row : ℕ → Ending → Row → Row
ended_row now e r = record r {
  state = e.state;
  reason = coalesce e.reason r.reason;
  why = coalesce e.why r.why;
  cost_usd = coalesce e.cost_usd r.cost_usd;
  tokens = coalesce e.tokens r.tokens;
  steps = coalesce e.steps r.steps;
  session = coalesce e.session r.session;
  model = coalesce e.model r.model;
  machine = coalesce e.machine r.machine;
  budget_hit = coalesce e.budget_hit r.budget_hit;
  finished_at = some (get_or e.finished_at now);
}

unfoldable pub spent_row : Option ℕ → Option ℕ → Row → Row
spent_row cost tokens r = record r {
  cost_usd = coalesce cost r.cost_usd;
  tokens = coalesce tokens r.tokens;
}

-- An UPDATE of the row with the id.
unfoldable pub update : (Row → Row) → String → List Row → List Row
update f id rows = map (λ r. if r.id == id then f r else r) rows

-- `bind`, `end` and `spend`.
unfoldable pub bind : List Row → String → Binding → List Row
bind rows id b = update (bound b) id rows

unfoldable pub end : ℕ → List Row → String → Ending → List Row
end now rows id e = update (ended_row now e) id rows

unfoldable pub spend : List Row → String → Option ℕ → Option ℕ → List Row
spend rows id cost tokens = update (spent_row cost tokens) id rows
