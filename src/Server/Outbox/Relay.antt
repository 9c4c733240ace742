-- ===== src/Server/Outbox/Relay.antt =====
-- server/events/outbox.js: the relay. A pass takes the rows that are due, sends each, and records
-- how that went. What OpenVibe.Events answers, the clock and the rows that another transaction has
-- locked are arguments; envelopes, tokens, logs and the timer are left out.
use open_vibe_codes.Prelude.{
  ℕ, ◌+◌, ◌*◌, ◌^◌, min, max, String, Bool, true, not, ◌&&◌, ◌||◌, Option, none, some, List, [],
  ◌∷◌, map, if◌then◌else◌, ◌==◌, string_eq, nat_eq, leb, ltb, keep, take, includes, get_or, is_some,
  length,
}
use open_vibe_codes.Server.Outbox.Emit.{Row}

abbrev pub max_backoff_ms : ℕ
max_backoff_ms = 300000

unfoldable pub backoff_ms : ℕ → ℕ
backoff_ms attempts = min max_backoff_ms (5000 * 2 ^ max 0 (min 6 attempts))

-- `Math.max(1, Number(setting || …))`; the setting is none where it is not set or 0.
pub record Config : Type 0 where
  pub configured : Bool
  pub refusals : Option ℕ
  pub attempts : Option ℕ

unfoldable pub dead_after_refusals : Config → ℕ
dead_after_refusals c = max 1 (get_or c.refusals 3)

unfoldable pub dead_after_attempts : Config → ℕ
dead_after_attempts c = max 1 (get_or c.attempts 20)

abbrev pub lease_ms : ℕ
lease_ms = 120000

-- `claimed_at IS NULL OR claimed_at < stale`.
abbrev pub is_free : Option ℕ → ℕ → Bool
is_free none now = true
is_free (some at) now = ltb (at + lease_ms) now

-- The rows that the subquery's WHERE takes.
unfoldable pub is_due : ℕ → Row → Bool
is_due now r =
    not (is_some r.published_at)
    && (not (is_some r.dead_at) && (leb r.next_attempt_at now && is_free r.claimed_at now))

-- What a claim draws: the clock, the worker's name, the rows that another transaction holds, and the
-- database's order of texts.
pub record Claim : Type 0 where
  pub now : ℕ
  pub worker : String
  pub locked : String → Bool
  pub at_most : String → String → Bool

-- `ORDER BY created_at ASC, event_id ASC`.
unfoldable pub stands_before : (String → String → Bool) → Row → Row → Bool
stands_before at_most r s =
    ltb r.created_at s.created_at || (r.created_at == s.created_at && at_most r.event_id s.event_id)

unfoldable pub insert_row : (String → String → Bool) → Row → List Row → List Row
insert_row at_most r [] = r ∷ []
insert_row at_most r (s ∷ rows) =
    if stands_before at_most r s then r ∷ s ∷ rows else s ∷ insert_row at_most r rows

unfoldable pub in_order : (String → String → Bool) → List Row → List Row
in_order at_most [] = []
in_order at_most (r ∷ rows) = insert_row at_most r (in_order at_most rows)

unfoldable pub chosen : Claim → ℕ → List Row → List Row
chosen c limit rows =
    take (min 100 (max 1 limit))
      (in_order c.at_most (keep (λ r. is_due c.now r && not (c.locked r.event_id)) rows))

unfoldable pub claimed : Claim → List String → Row → Row
claimed c ids r =
    if includes ids r.event_id
    then record r { claimed_at = some c.now; claimed_by = some c.worker }
    else r

unfoldable pub claim : Claim → ℕ → List Row → List Row
claim c limit rows = map (claimed c (map (λ r. r.event_id) (chosen c limit rows))) rows

-- How a send ended: published, or an error with its message and its status (0 where it has none).
pub data Reply : Type 0 where
  accepted : (at : ℕ) → Reply
  threw : (at : ℕ) (message : String) (status : ℕ) → Reply

unfoldable pub published : ℕ → Row → Row
published at r = record r {
  published_at = some at;
  claimed_at = none;
  claimed_by = none;
  last_error = none;
}

unfoldable pub is_refused : ℕ → Bool
is_refused status = leb 400 status && ltb status 500

unfoldable pub dead_after : Config → ℕ → ℕ
dead_after c status = if is_refused status then dead_after_refusals c else dead_after_attempts c

unfoldable pub dead : ℕ → String → ℕ → Row → Row
dead at message status r = record r {
  attempts = r.attempts + 1;
  last_error = some message;
  dead_at = some at;
  dead_reason = some (if is_refused status then "refused" else "failed");
  claimed_at = none;
  claimed_by = none;
}

unfoldable pub retried : ℕ → String → Row → Row
retried at message r = record r {
  attempts = r.attempts + 1;
  last_error = some message;
  claimed_at = none;
  claimed_by = none;
  next_attempt_at = at + backoff_ms (r.attempts + 1);
}

-- What one reply writes on its row.
unfoldable pub settled : Config → Reply → Row → Row
settled c (accepted at) r = published at r
settled c (threw at message status) r =
    if leb (dead_after c status) (r.attempts + 1)
    then dead at message status r
    else retried at message r

-- The UPDATE by the event's id.
unfoldable pub update : Config → Reply → String → List Row → List Row
update c reply id rows = map (λ r. if r.event_id == id then settled c reply r else r) rows

-- The loop over the claimed rows.
unfoldable pub send_all : Config → (String → Reply) → List String → List Row → List Row
send_all c reply [] rows = rows
send_all c reply (id ∷ ids) rows = send_all c reply ids (update c (reply id) id rows)

-- `runOnce` while no other pass of this process runs: the table after it, and how many it claimed.
unfoldable pub run_once : Config → Claim → (String → Reply) → ℕ → List Row → List Row × ℕ
run_once c w reply limit rows =
    let ids = map (λ r. r.event_id) (chosen w limit rows) in
    if c.configured then (send_all c reply ids (claim w limit rows), length ids) else (rows, 0)
