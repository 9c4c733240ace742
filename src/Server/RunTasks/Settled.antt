-- ===== src/Server/RunTasks/Settled.antt =====
-- server/domain/run-tasks.js: what settling a task leaves as its outcome.
use mathlib.Core.Option
use mathlib.Core.Option.{some-injective, some-ne-none}
use open_vibe_codes.Prelude.{
  ℕ, ◌≡◌, refl, ap, ◌∙◌, inl, inr, String, Bool, true, false, ◌&&◌, Option, none, some, [], ◌∷◌,
  string_eq, if◌then◌else◌, truthy, Bool-cases, ◌++◌,
}
use open_vibe_codes.Server.RunTasks.{Row, Db, row_of, update_row}
use open_vibe_codes.Server.RunTasks.Spending.{Env}
use open_vibe_codes.Server.RunTasks.Outcome.{
  settle, with_outcome, record_placement, placement_on, claim_placement, learned_of, counts,
}
use open_vibe_codes.Server.RunTasks.Rows.{row_of-update_row}

-- The outcome in a task's row.
abbrev pub outcome_at : Db → String → Option (Option String)
outcome_at db id = Option.map (λ (r : Row). r.outcome) (row_of db id)

pub outcome_at-put :
    (f : Row → Row) (id : String) (db : Db) (r : Row) (outcome : Option String)
    → ((r : Row) → (f r).id ≡ r.id)
    → ((r : Row) → (f r).outcome ≡ outcome)
    → row_of db id ≡ some r
    → outcome_at (update_row f id db) id ≡ some outcome
outcome_at-put f id db r outcome same is h = rw (row_of-update_row f id db same, h) (ap some (is r))

outcome_at-claim :
    (id : String) (db : Db) → outcome_at (update_row claim_placement id db) id ≡ outcome_at db id
unfolding claim_placement
outcome_at-claim id db =
    rw (row_of-update_row claim_placement id db (λ r. refl)) (same (row_of db id))
  where
    same :
        (o : Option Row)
        → Option.map (λ (r : Row). r.outcome) (Option.map claim_placement o)
          ≡ Option.map (λ (r : Row). r.outcome) o
    same none = refl
    same (some r) = refl

outcome_at-placement_on :
    (row : Row) (o : Option Row) (db : Db)
    → outcome_at (placement_on row o db) row.id ≡ outcome_at db row.id
unfolding placement_on row_of
outcome_at-placement_on row none db = refl
outcome_at-placement_on row (some current) db = by_claim current.placement_recorded (counts row)
  where
    by_claim :
        (claimed counted : Bool)
        → outcome_at
            (if claimed
              then db
              else (if counted
                  then record (update_row claim_placement row.id db) {
                    learned = (update_row claim_placement row.id db).learned ++ learned_of row ∷ [];
                  }
                  else update_row claim_placement row.id db))
            row.id
          ≡ outcome_at db row.id
    by_claim true counted = refl
    by_claim false true = outcome_at-claim row.id db
    by_claim false false = outcome_at-claim row.id db

pub outcome_at-record_placement :
    (row : Row) (db : Db) → outcome_at (record_placement row db) row.id ≡ outcome_at db row.id
unfolding record_placement
outcome_at-record_placement row db =
    elim (Bool-cases (truthy row.placement_option_key && truthy row.placement_step_kind)) [
      | inl e ↦ rw e (outcome_at-placement_on row (row_of db row.id) db)
      | inr e ↦ rw e refl
    ]

pub outcome_at-settle :
    (env : Env) (now : ℕ) (row : Row) (outcome note : String) (db : Db) (r : Row)
    → row_of db row.id ≡ some r
    → outcome_at (settle env now row outcome note db) row.id ≡ some (some outcome)
unfolding settle with_outcome row_of
outcome_at-settle env now row outcome note db r h =
    outcome_at-record_placement (with_outcome now outcome note row) _
    ∙ outcome_at-put (with_outcome now outcome note) row.id db r (some outcome) (λ s. refl)
        (λ s. refl) h
