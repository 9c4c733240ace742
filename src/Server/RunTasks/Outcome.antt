-- ===== src/Server/RunTasks/Outcome.antt =====
-- server/domain/run-tasks.js: how the outcome of a task is written: `recordPlacementOutcome`, `notifyOutcome`, and `outcomeOf` of server/domain/proof.js.
use open_vibe_codes.Prelude.{
  ℕ, String, Bool, true, not, ◌&&◌, ◌||◌, Option, none, some, List, [], ◌∷◌, ◌++◌, if◌then◌else◌,
  ◌==◌, string_eq, get_or, or_else, truthy, any,
}
use open_vibe_codes.Server.RunTasks.{
  Row, Db, Learned, Notice, done_notice, needs_notice, row_of, update_row,
}
use open_vibe_codes.Server.RunTasks.Spending.{Env}

-- An item of the proof that the machine collected; `none` is an item that says nothing.
pub record Item : Type 0 where
  pub ok : Option Bool

-- The columns of an outcome.
unfoldable pub with_outcome : ℕ → String → String → Row → Row
with_outcome now outcome note r = record r {
  outcome = some outcome;
  outcome_note = some note;
  updated_at = now;
}

unfoldable pub claim_placement : Row → Row
claim_placement r = record r { placement_recorded = true }

-- Whether the outcome of a placement is counted: a stopped task is not.
unfoldable pub counts : Row → Bool
counts r = not (r.state == "cancelled" || get_or r.outcome "" == "stopped")

unfoldable pub learned_of : Row → Learned
learned_of r = record {
  person = r.subject;
  key = get_or r.placement_option_key "";
  kind = get_or r.placement_step_kind "";
  ok = get_or r.outcome "" == "done";
}

unfoldable pub placement_on : Row → Option Row → Db → Db
placement_on row none db = db
placement_on row (some current) db =
    if current.placement_recorded
    then db
    else (let claimed = update_row claim_placement row.id db in
        if counts row
        then record claimed { learned = claimed.learned ++ learned_of row ∷ [] }
        else claimed)

-- `recordPlacementOutcome`: once per task.
unfoldable pub record_placement : Row → Db → Db
record_placement row db =
    if truthy row.placement_option_key && truthy row.placement_step_kind
    then placement_on row (row_of db row.id) db
    else db

abbrev pub summary_of : Env → Row → String
summary_of env r = elim r.result [ none ↦ "" | some d ↦ env.js.trim (get_or d.summary "") ]

-- `notifyOutcome`: a stopped task tells the person nothing.
unfoldable pub notices_of : Env → Row → List Notice
notices_of env r =
    if get_or r.outcome "" == "done"
    then done_notice r.id (
        get_or
          (or_else (some (summary_of env r)) (or_else r.outcome_note (some "the task finished")))
          "")
      ∷ []
    else if get_or r.outcome "" == "unfinished"
    then needs_notice r.id (
        get_or
          (or_else r.outcome_note (or_else r.error (some "the task needs a person to carry on")))
          "")
      ∷ []
    else []

-- An outcome as it is written: the row, the notice, the placement's record.
unfoldable pub settle : Env → ℕ → Row → String → String → Db → Db
settle env now row outcome note db =
    let saved = with_outcome now outcome note row in
    let written = update_row (with_outcome now outcome note) row.id db in
    record_placement saved (record written { notices = written.notices ++ notices_of env saved })

-- `outcomeOf`: evidence that failed makes no task done; a stopped task stays stopped.
abbrev pub failed_item : Item → Bool
failed_item i = not (get_or i.ok true)

unfoldable pub outcome_of : List Item → String → String
outcome_of [] state = state
outcome_of (i ∷ items) state =
    if state == "stopped"
    then "stopped"
    else if any failed_item (i ∷ items)
    then "unfinished"
    else state
