-- ===== src/Server/Approvals/Overlapping.antt =====
-- server/domain/approvals.js, `create`: two calls for the same thing that overlap.
use open_vibe_codes.Prelude.{[], ◌∷◌, ◌++◌, string_eq}
use open_vibe_codes.Runtime.{Runtime}
use open_vibe_codes.Server.Approvals.{Task, Store, Request, World, new_row, tell}

-- The store behind the row that a call writes.
abbrev written : Runtime → World → Store → Task → Request → Store
written js w st task r = record st {
  approvals = st.approvals ++ new_row js w task r ∷ [];
  sent = tell w.wants task (new_row js w task r) st.sent;
}
