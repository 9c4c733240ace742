-- ===== src/Server/RunTasks/Rows.antt =====
-- server/domain/run-tasks.js: reading a row behind an UPDATE.
use mathlib.Core.Option
use open_vibe_codes.Prelude.{
  ◌≡◌, refl, ap, inl, inr, String, false, Option, none, some, List, [], ◌∷◌, map, if◌then◌else◌,
  ◌==◌, string_eq, ==_iff, Bool-cases, find, ◌∙◌,
}
use open_vibe_codes.Server.Attempts.{Task as Counted, Store}
use open_vibe_codes.Server.RunTasks.{Row, Db, row_of, update_row, recounted, with_count, with_store}

-- The update of one row in a list.
abbrev pub put : (Row → Row) → String → List Row → List Row
put f id rows = map (λ r. if r.id == id then f r else r) rows

abbrev pub at_id : String → List Row → Option Row
at_id id rows = find (λ r. r.id == id) rows

at_id-put :
    (f : Row → Row) (id : String) (rows : List Row)
    → ((r : Row) → (f r).id ≡ r.id)
    → at_id id (put f id rows) ≡ Option.map f (at_id id rows)
at_id-put f id [] same = refl
at_id-put f id (r ∷ rows) same = elim (Bool-cases (r.id == id)) [
  | inl e ↦ rw (e, same r, e) refl
  | inr e ↦ rw (e, e) (at_id-put f id rows same)
]

at_id-put_other :
    (f : Row → Row) (id other : String) (rows : List Row)
    → ((r : Row) → (f r).id ≡ r.id)
    → (id == other) ≡ false
    → at_id other (put f id rows) ≡ at_id other rows
at_id-put_other f id other [] same differ = refl
at_id-put_other f id other (r ∷ rows) same differ = elim (Bool-cases (r.id == id)) [
  | inl e ↦
      let at = (==_iff r.id id).0 e in
      rw (e, same r, at, differ) (at_id-put_other f id other rows same differ)
  | inr e ↦ elim (Bool-cases (r.id == other)) [
    | inl k ↦ rw (e, k) refl
    | inr k ↦ rw (e, k) (at_id-put_other f id other rows same differ)
  ]
]

-- The row that was updated, and any other one.
pub row_of-update_row :
    (f : Row → Row) (id : String) (db : Db)
    → ((r : Row) → (f r).id ≡ r.id)
    → row_of (update_row f id db) id ≡ Option.map f (row_of db id)
unfolding row_of update_row
row_of-update_row f id db same = at_id-put f id db.rows same

pub row_of-update_other :
    (f : Row → Row) (id other : String) (db : Db)
    → ((r : Row) → (f r).id ≡ r.id)
    → (id == other) ≡ false
    → row_of (update_row f id db) other ≡ row_of db other
unfolding row_of update_row
row_of-update_other f id other db same differ = at_id-put_other f id other db.rows same differ

at_id-map :
    (f : Row → Row) (id : String) (rows : List Row)
    → ((r : Row) → (f r).id ≡ r.id)
    → at_id id (map f rows) ≡ Option.map f (at_id id rows)
at_id-map f id [] same = refl
at_id-map f id (r ∷ rows) same = elim (Bool-cases (r.id == id)) [
  | inl e ↦ rw (ap (λ i. i == id) (same r) ∙ e, e) refl
  | inr e ↦ rw (ap (λ i. i == id) (same r) ∙ e, e) (at_id-map f id rows same)
]

with_count-keeps :
    (o : Option Counted) (r : Row)
    → ((with_count o r).id ≡ r.id)
      × ((with_count o r).state ≡ r.state)
      × ((with_count o r).outcome ≡ r.outcome)
with_count-keeps none r = (refl, refl, refl)
with_count-keeps (some t) r = (refl, refl, refl)

-- The attempts' operations change no more of a row than its count.
pub recounted-keeps :
    (tasks : List Counted) (r : Row)
    → ((recounted tasks r).id ≡ r.id)
      × ((recounted tasks r).state ≡ r.state)
      × ((recounted tasks r).outcome ≡ r.outcome)
unfolding recounted
recounted-keeps tasks r = with_count-keeps _ r

pub row_of-with_store :
    (st : Store) (id : String) (db : Db)
    → row_of (with_store st db) id ≡ Option.map (recounted st.tasks) (row_of db id)
unfolding row_of with_store
row_of-with_store st id db =
    at_id-map (recounted st.tasks) id db.rows (λ r. (recounted-keeps st.tasks r).0)
