-- ===== src/Tests/Inbox.antt =====
-- The approvals and the choice of a conductor's agent on concrete rows.
use mathlib.Core.List.{Memᴰ}
use open_vibe_codes.Prelude.{
  ℕ, ◌≤◌, ◌<◌, ◌≡◌, ◌≢◌, refl, string_eq, ◌↔◌, ◌⊎◌, String, true, Option, none, some, List, [], ◌∷◌,
  arith, get_elem?, length,
}
use open_vibe_codes.Engine.Router.Windows.{Window, Row}
use open_vibe_codes.Server.Approvals.{
  Approval, Task, Store, Answer, World, Request, create, create_named, create_for, seen_or_new,
  newest, new_row, tool_name, request_line, tell, one_line, kept_input, pending, stop, decide_any,
  owns,
}
use open_vibe_codes.Server.Approvals.Once.{
  Step, Reach, KeepsDecided, AsksOnce, Reach-KeepsDecided, Reach-AsksOnce,
}
use open_vibe_codes.Server.Approvals.Inbox.{IsStopped, stop-pending, decide_any-owned}
use open_vibe_codes.Server.Failover.{Fallback, Item, item, usages, choose, stored_fallbacks}
use open_vibe_codes.Server.Failover.Order.{IsBest, IsLastResort, choose-IsBest}
use open_vibe_codes.Server.Failover.Settings.{IsClean, stored_fallbacks-IsClean}
use open_vibe_codes.Tests.Fixtures.{js}

abbrev asked : String → String → ℕ → Approval
asked id task_id at = record {
  id = id;
  task_id = task_id;
  tool = "Bash";
  input = none;
  summary = "npm test";
  created_at = at;
  decision = none;
  message = none;
  decided_at = none;
}

abbrev rows : List Approval
rows = asked "a2" "t1" 20 ∷ asked "a1" "t2" 10 ∷ []

abbrev store : Store
store = record { approvals = rows; tasks = record { id = "t1"; subject = "ann" } ∷ []; sent = [] }

abbrev stopped : Store
stopped = record store { approvals = stop 30 rows "t1" }

abbrev calls : Reach js store stopped
calls = Reach.next Reach.here (Step.stopped 30 "t1")

Reach-KeepsDecided_example : KeepsDecided rows stopped.approvals
Reach-KeepsDecided_example = Reach-KeepsDecided js store stopped calls

-- Nothing was asked before.
abbrev no_rows : Store
no_rows = record store { approvals = [] }

no_rows-AsksOnce : AsksOnce no_rows.approvals
no_rows-AsksOnce task_id tool summary = omega arith

abbrev world : World
world = record { id = "a9"; now = 25; json = λ input. ""; wants = none }

abbrev task : Task
task = record { id = "t1"; subject = "ann" }

abbrev request : Request
request = record { task = some task; tool = "Bash"; input = none; summary = some "npm test" }

abbrev one : Store
one = record {
  approvals = asked "a9" "t1" 25 ∷ [];
  tasks = store.tasks;
  sent = record { subject = "ann"; message = "Bash: npm test"; task_id = "t1" } ∷ [];
}

first_ask : Step js no_rows one
unfolding create create_named create_for seen_or_new newest new_row tool_name request_line tell
    one_line kept_input
first_ask = Step.asked world [] request {a = asked "a9" "t1" 25} refl

Reach-AsksOnce_example : AsksOnce one.approvals
unfolding first_ask
Reach-AsksOnce_example =
    Reach-AsksOnce js no_rows one (Reach.next Reach.here first_ask) (tt, refl) no_rows-AsksOnce

stop-pending_example :
    (pending (stop 30 rows "t1") "t1" ≡ [])
    × ((other : String) → "t1" ≢ other → pending (stop 30 rows "t1") other ≡ pending rows other)
    × ((i : ℕ) (a : Approval)
        → get_elem? rows i ≡ some a
        → (b : Approval) × (get_elem? (stop 30 rows "t1") i ≡ some b) × IsStopped 30 "t1" a b)
stop-pending_example = stop-pending 30 rows "t1"

decide_any-owned_example :
    ((decide_any js 30 store "bob" "a2" Answer.allow none).0 ≡ rows)
    ⊎ ((a : Approval) × Memᴰ a rows × (a.id ≡ "a2") × (owns store.tasks "bob" a.task_id ≡ true))
decide_any-owned_example = decide_any-owned js 30 store "bob" "a2" Answer.allow none

abbrev chain : List Fallback
chain =
    record { agent = "claude-code"; model = none } ∷ record { agent = "codex"; model = none } ∷ []

-- The primary's window is full, and the fallback has room.
abbrev reading : ℕ → Row
reading used = record {
  installed = some true;
  signed_in = some true;
  room = none;
  windows =
      record {
        name = some "5h";
        used = none;
        limit = none;
        pct = some (record { num = used; den = 1 });
        resets_at = none;
      }
      ∷ [];
  balance_usd = none;
}

abbrev fleet : Option (List (String × Row))
fleet = some (("claude-code", reading 97) ∷ ("codex", reading 20) ∷ [])

choose-IsBest_example :
    (IsBest (usages chain fleet 90 40) 1 ⊎ IsLastResort (usages chain fleet 90 40) 1)
    × ((choose chain fleet 90 40).pick ≡ get_elem? chain 1)
    × (((choose chain fleet 90 40).switched ≡ true) ↔ (0 < 1))
unfolding choose usages open_vibe_codes.Server.Failover.choose_index
    open_vibe_codes.Server.Failover.or_place open_vibe_codes.Server.Failover.find_first_room
    open_vibe_codes.Server.Failover.usage_of open_vibe_codes.Server.Failover.reading
    open_vibe_codes.Server.Failover.fullest open_vibe_codes.Server.Failover.read_window
    open_vibe_codes.Server.Failover.usage_state open_vibe_codes.Server.Failover.top_of
    open_vibe_codes.Engine.Router.Windows.row_of open_vibe_codes.Engine.Router.Windows.pct_of
    open_vibe_codes.Engine.Router.Windows.window_full open_vibe_codes.Engine.Router.Windows.freed
choose-IsBest_example = choose-IsBest chain fleet 90 40 1 refl

abbrev items : Option (List Item)
items = some (item "codex" "" ∷ item "opencode" "" ∷ item "codex" "" ∷ [])

stored_fallbacks-IsClean_example :
    IsClean js (stored_fallbacks js items) × (length (stored_fallbacks js items) ≤ 3)
stored_fallbacks-IsClean_example = stored_fallbacks-IsClean js items
