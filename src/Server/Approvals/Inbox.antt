-- ===== src/Server/Approvals/Inbox.antt =====
-- server/domain/approvals.js: what waits on a task, and who may decide it.
use open_vibe_codes.Prelude.{
  some, get_elem?, get_elem?-map, false, ◌∙◌, ℕ, ◌≡◌, refl, ◌≢◌, ◌⊎◌, inl, inr, ap, String, Bool,
  true, ◌&&◌, Option, List, [], ◌∷◌, arith, Bool-cases, Option-cases, ◌==◌, string_eq, ==_iff, keep,
  and-true, find, find_sound,
}
use mathlib.Core.List.{Memᴰ}
use mathlib.Core.Option
use open_vibe_codes.Runtime.{Runtime}
use open_vibe_codes.Server.Approvals.{
  Approval, Store, Answer, is_waiting, decide_any, owns, stop_row, stop, by_age, pending, Decision,
}

-- The rows that wait on a task.
abbrev pub waits_on : String → Approval → Bool
waits_on task_id a = a.task_id == task_id && is_waiting a.decision

keep-stop :
    (now : ℕ) (task_id : String) (rows : List Approval)
    → keep (waits_on task_id) (stop now rows task_id) ≡ []
unfolding stop stop_row
keep-stop now task_id [] = refl
keep-stop now task_id (a ∷ rows) = ground (arith, keep-stop now task_id rows)

keep-stop_other :
    (now : ℕ) (task_id other : String) (rows : List Approval)
    → task_id ≢ other
    → keep (waits_on other) (stop now rows task_id) ≡ keep (waits_on other) rows
unfolding stop stop_row
keep-stop_other now task_id other [] differ = refl
keep-stop_other now task_id other (a ∷ rows) differ = ground (
  arith,
  keep-stop_other now task_id other rows differ,
  ==_iff a.task_id task_id,
  ==_iff a.task_id other,
)

-- What a stop of the task makes of a row: one that waits on the task is denied, for the reason that
-- the conductor was stopped, and is otherwise the same; any other is not changed.
abbrev pub IsStopped : ℕ → String → Approval → Approval → Type 0
IsStopped now task_id a b =
    ((waits_on task_id a ≡ true)
      × (b ≡ record a {
        decision = some Decision.deny;
        message = some "the conductor was stopped";
        decided_at = some now;
      }))
    ⊎ ((waits_on task_id a ≡ false) × (b ≡ a))

stop_row-IsStopped :
    (now : ℕ) (task_id : String) (a : Approval) → IsStopped now task_id a (stop_row now task_id a)
unfolding stop_row
stop_row-IsStopped now task_id a = elim (Bool-cases (waits_on task_id a)) [
  | inl e ↦ rw e (inl (refl, refl))
  | inr e ↦ rw e (inr (refl, refl))
]

-- When a conductor stops, nothing waits on its task any more; what waits on any other task waits as
-- before; and each row stands where it stood, denied for that reason at that time when it waited on
-- the task, and unchanged when it was decided before or is of another task.
pub stop-pending :
    (now : ℕ) (rows : List Approval) (task_id : String)
    → (pending (stop now rows task_id) task_id ≡ [])
      × ((other : String)
          → task_id ≢ other
          → pending (stop now rows task_id) other ≡ pending rows other)
      × ((i : ℕ) (a : Approval)
          → get_elem? rows i ≡ some a
          → (b : Approval) × (get_elem? (stop now rows task_id) i ≡ some b)
            × IsStopped now task_id a b)
unfolding pending by_age stop
stop-pending now rows task_id = (
  ap by_age (keep-stop now task_id rows),
  λ other differ. ap by_age (keep-stop_other now task_id other rows differ),
  λ i a at. (
    stop_row now task_id a,
    get_elem?-map (stop_row now task_id) rows i ∙ ap (Option.map (stop_row now task_id)) at,
    stop_row-IsStopped now task_id a,
  ),
)

-- An answer from the phone changes nothing unless the approval stands under a task of the person.
pub decide_any-owned :
    (js : Runtime) (now : ℕ) (st : Store) (subject id : String) (answer : Answer)
    (message : Option String)
    → ((decide_any js now st subject id answer message).0 ≡ st.approvals)
      ⊎ ((a : Approval) × Memᴰ a st.approvals
          × (a.id ≡ id)
          × (owns st.tasks subject a.task_id ≡ true))
unfolding decide_any
decide_any-owned js now st subject id answer message =
    elim (Option-cases (find (λ a. a.id == id && owns st.tasks subject a.task_id) st.approvals)) [
      | inl e ↦ inl (rw (e, decide_any) refl)
      | inr (a, e) ↦
          let (passes, listed) =
            find_sound (λ a. a.id == id && owns st.tasks subject a.task_id) st.approvals e in
          let (same, mine) = and-true _ _ passes in inr (a, listed, (==_iff a.id id).0 same, mine)
    ]
