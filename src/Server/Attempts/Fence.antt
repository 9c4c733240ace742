-- ===== src/Server/Attempts/Fence.antt =====
-- server/domain/attempts.js: the fence of the follow-ups.
use mathlib.Core.Path.{subst}
use mathlib.Core.List.{append-nil}
use open_vibe_codes.Prelude.{
  ℕ, ◌≤◌, ◌≡◌, refl, ap, sym, ◌∙◌, inl, inr, String, Bool, true, false, ◌||◌, ◌&&◌, Option, none,
  some, List, [], ◌∷◌, ◌++◌, map, arith, Bool-cases, keep, find, length, if◌then◌else◌, ◌==◌,
  string_eq, nat_eq, ==_iff, keep-append,
}
use open_vibe_codes.Server.Attempts.{
  Row, Task, Store, clash, clashes, insert, insert_all, Draw, Request, Created, wrote, seen,
  gave_up, ended, create, new_row, next_n, follows, names, follow_up, same_follow_up, first_row,
  list, list_found,
}
use open_vibe_codes.Server.Attempts.Updates.{
  update, bind, end, spend, Binding, Ending, bound as bound_row, ended_row, spent_row,
}

-- The table after a call of `create`.
abbrev pub stored : Created → Store
stored (wrote row st) = st
stored (seen row st) = st
stored (gave_up st) = st

-- A table that was filled by inserts whose rows clash with none before them.
pub data IsFenced : List Row → Type 0 where
  start : IsFenced []
  add :
      (rows : List Row) (row : Row)
      → IsFenced rows
      → clashes rows row ≡ false
      → IsFenced (rows ++ row ∷ [])

insert-IsFenced : (rows : List Row) (row : Row) → IsFenced rows → IsFenced (insert rows row).0
unfolding insert
insert-IsFenced rows row h = elim (Bool-cases (clashes rows row)) [
  | inl e ↦ rw e h
  | inr e ↦ rw e (IsFenced.add rows row h e)
]

insert_all-IsFenced : (rows others : List Row) → IsFenced rows → IsFenced (insert_all rows others)
unfolding insert_all
insert_all-IsFenced rows [] h = h
insert_all-IsFenced rows (r ∷ others) h =
    insert_all-IsFenced (insert rows r).0 others (insert-IsFenced rows r h)

-- What a row is known by.
pub record Keeps (f : Row → Row) : Type 0 where
  pub id : (r : Row) → (f r).id ≡ r.id
  pub task_id : (r : Row) → (f r).task_id ≡ r.task_id
  pub place : (r : Row) → (f r).n ≡ r.n
  pub parent : (r : Row) → (f r).follow_up_of ≡ r.follow_up_of

map-append_one :
    (f : Row → Row) (rows : List Row) (row : Row)
    → map f (rows ++ row ∷ []) ≡ map f rows ++ f row ∷ []
map-append_one f [] row = refl
map-append_one f (r ∷ rows) row = ap (λ rest. f r ∷ rest) (map-append_one f rows row)

clashes-map :
    (f : Row → Row) (rows : List Row) (row : Row)
    → Keeps f
    → clashes (map f rows) (f row) ≡ clashes rows row
unfolding clashes clash
clashes-map f [] row k = refl
clashes-map f (r ∷ rows) row k =
    rw
      (
        k.id r,
        k.id row,
        k.task_id r,
        k.task_id row,
        k.place r,
        k.place row,
        k.parent r,
        k.parent row,
        clashes-map f rows row k,
      )
      refl

map-IsFenced : (f : Row → Row) (rows : List Row) → Keeps f → IsFenced rows → IsFenced (map f rows)
map-IsFenced f _ k IsFenced.start = IsFenced.start
map-IsFenced f _ k (IsFenced.add rows row h free) =
    subst IsFenced (sym (map-append_one f rows row)) (
      IsFenced.add (map f rows) (f row) (map-IsFenced f rows k h) (clashes-map f rows row k ∙ free))

or-false : (a b : Bool) → (a || b) ≡ false → (a ≡ false) × (b ≡ false)
or-false a b h = (ground arith, ground arith)

names-same :
    (id : String) (a b : Option String)
    → names a id ≡ true
    → names b id ≡ true
    → same_follow_up a b ≡ true
names-same id none b h k = cc
names-same id (some x) none h k = cc
names-same id (some x) (some y) h k =
    let (to_x, of_x) = ==_iff x id in
    let (to_y, of_y) = ==_iff y id in let (to, of) = ==_iff x y in of (to_x h ∙ sym (to_y k))

-- No row before the one that was added follows the same ending up.
keep-none :
    (id : String) (rows : List Row) (row : Row)
    → clashes rows row ≡ false
    → follows id row ≡ true
    → keep (follows id) rows ≡ []
unfolding clashes clash
keep-none id [] row free h = refl
keep-none id (r ∷ rows) row free h =
    let (apart, rest) = or-false (clash r row) (clashes rows row) free in
    let (near, parent) =
      or-false (r.id == row.id || (r.task_id == row.task_id && r.n == row.n)) _ apart in
    elim (Bool-cases (follows id r)) [
      | inl e ↦ cc (rw (names-same id r.follow_up_of row.follow_up_of e h) at parent)
      | inr e ↦ rw e (keep-none id rows row rest h)
    ]

length-keep-one : (p : Row → Bool) (r : Row) → length (keep p (r ∷ [])) ≤ 1
length-keep-one p r = ground arith

-- At most one attempt follows an ending up.
IsFenced-once :
    (rows : List Row) (id : String) → IsFenced rows → length (keep (follows id) rows) ≤ 1
IsFenced-once _ id IsFenced.start = omega arith
IsFenced-once _ id (IsFenced.add rows row h free) = elim (Bool-cases (follows id row)) [
  | inl e ↦
      rw (keep-append (follows id) rows (row ∷ []), keep-none id rows row free e, e) (omega arith)
  | inr e ↦
      rw (keep-append (follows id) rows (row ∷ []), e, append-nil (keep (follows id) rows))
        (IsFenced-once rows id h)
]

-- One call, or an insert of another process.
pub data Step : Store → Store → Type 0 where
  created : (draws : List Draw) (st : Store) (q : Request) → Step st (stored (create draws st q))
  listed :
      (id : String) (now : ℕ) (st : Store) (task_id : String) → Step st (list id now st task_id).0
  bound :
      (st : Store) (id : String) (b : Binding)
      → Step st (record st { attempts = bind st.attempts id b })
  finished :
      (now : ℕ) (st : Store) (id : String) (e : Ending)
      → Step st (record st { attempts = end now st.attempts id e })
  spent :
      (st : Store) (id : String) (cost tokens : Option ℕ)
      → Step st (record st { attempts = spend st.attempts id cost tokens })

pub data Reach : Store → Store → Type 0 where
  here : (st : Store) → Reach st st
  then_ : {st mid t : Store} → Reach st mid → Step mid t → Reach st t

ended-IsFenced :
    (st : Store) (row : Row) (inserted : Bool) (other : Option Row) (again : Created)
    → IsFenced st.attempts
    → IsFenced (stored again).attempts
    → IsFenced (stored (ended st row inserted other again)).attempts
unfolding ended
ended-IsFenced st row true other again h k = h
ended-IsFenced st row false none again h k = k
ended-IsFenced st row false (some x) again h k = h

create-IsFenced :
    (draws : List Draw) (st : Store) (q : Request)
    → IsFenced st.attempts
    → IsFenced (stored (create draws st q)).attempts
unfolding create
create-IsFenced [] st q h = h
create-IsFenced (d ∷ draws) st q h =
    let row = new_row d (next_n st.attempts q.task_id) q in
    let after =
      insert-IsFenced (insert_all st.attempts d.raced) row
        (insert_all-IsFenced st.attempts d.raced h) in
    ended-IsFenced _ row _ _ _ after (create-IsFenced draws _ q after)

if-Keeps : (f : Row → Row) (id : String) → Keeps f → Keeps (λ r. if r.id == id then f r else r)
if-Keeps f id k = record {
  id = λ r. elim (Bool-cases (r.id == id)) [ inl e ↦ rw e (k.id r) | inr e ↦ rw e refl ];
  task_id = λ r. elim (Bool-cases (r.id == id)) [ inl e ↦ rw e (k.task_id r) | inr e ↦ rw e refl ];
  place = λ r. elim (Bool-cases (r.id == id)) [ inl e ↦ rw e (k.place r) | inr e ↦ rw e refl ];
  parent = λ r. elim (Bool-cases (r.id == id)) [ inl e ↦ rw e (k.parent r) | inr e ↦ rw e refl ];
}

update-IsFenced :
    (f : Row → Row) (id : String) (rows : List Row)
    → Keeps f
    → IsFenced rows
    → IsFenced (update f id rows)
unfolding update
update-IsFenced f id rows k h = map-IsFenced _ rows (if-Keeps f id k) h

list_found-IsFenced :
    (id : String) (now : ℕ) (st : Store) (task_id : String) (rows : List Row) (task : Option Task)
    → IsFenced st.attempts
    → IsFenced (list_found id now st task_id rows task).0.attempts
unfolding list_found
list_found-IsFenced id now st task_id (r ∷ rows) task h = h
list_found-IsFenced id now st task_id [] none h = h
list_found-IsFenced id now st task_id [] (some t) h =
    insert-IsFenced st.attempts (first_row id now t) h

Step-IsFenced : (st t : Store) → Step st t → IsFenced st.attempts → IsFenced t.attempts
unfolding bind end spend bound_row ended_row spent_row list
Step-IsFenced st _ (Step.created draws _ q) h = create-IsFenced draws st q h
Step-IsFenced st _ (Step.listed id now _ task_id) h = elim (Bool-cases (task_id == "")) [
  | inl e ↦ rw e h
  | inr e ↦ rw e (list_found-IsFenced id now st task_id _ _ h)
]
Step-IsFenced st _ (Step.bound _ id b) h =
    update-IsFenced _ id st.attempts
      (record { id = λ r. refl; task_id = λ r. refl; place = λ r. refl; parent = λ r. refl }) h
Step-IsFenced st _ (Step.finished now _ id e) h =
    update-IsFenced _ id st.attempts
      (record { id = λ r. refl; task_id = λ r. refl; place = λ r. refl; parent = λ r. refl }) h
Step-IsFenced st _ (Step.spent _ id cost tokens) h =
    update-IsFenced _ id st.attempts
      (record { id = λ r. refl; task_id = λ r. refl; place = λ r. refl; parent = λ r. refl }) h

Reach-IsFenced : (st t : Store) → Reach st t → IsFenced st.attempts → IsFenced t.attempts
Reach-IsFenced st _ (Reach.here _) h = h
Reach-IsFenced st t (Reach.then_ before step) h =
    Step-IsFenced _ t step (Reach-IsFenced st _ before h)

-- One ending starts at most one follow-up: over any sequence of calls, with the inserts of other
-- processes between them, at most one attempt of the table follows any attempt up, if the table was
-- filled by such inserts before.
pub Reach-follows-once :
    (st t : Store) (id : String)
    → Reach st t
    → IsFenced st.attempts
    → length (keep (follows id) t.attempts) ≤ 1
Reach-follows-once st t id calls h = IsFenced-once t.attempts id (Reach-IsFenced st t calls h)

find-append {ℓ} :
    {A : Type ℓ} (p : A → Bool) (xs ys : List A) (x : A)
    → find p xs ≡ some x
    → find p (xs ++ ys) ≡ some x
find-append p [] ys x h = cc
find-append p (y ∷ xs) ys x h = elim (Bool-cases (p y)) [
  | inl e ↦ rw e (rw e at h)
  | inr e ↦ rw e (find-append p xs ys x (rw e at h))
]

insert_all-follow_up :
    (id : String) (rows others : List Row) (row : Row)
    → find (follows id) rows ≡ some row
    → find (follows id) (insert_all rows others) ≡ some row
unfolding insert_all insert
insert_all-follow_up id rows [] row h = h
insert_all-follow_up id rows (r ∷ others) row h = elim (Bool-cases (clashes rows r)) [
  | inl e ↦ rw e (insert_all-follow_up id rows others row h)
  | inr e ↦ rw e (insert_all-follow_up id (rows ++ r ∷ []) others row (find-append _ rows _ row h))
]

or-left : (a b : Bool) → a ≡ true → (a || b) ≡ true
or-left a b h = ground arith

or-right : (a b : Bool) → b ≡ true → (a || b) ≡ true
or-right a b h = ground arith

insert-clashes :
    (rows : List Row) (row : Row) → clashes rows row ≡ true → insert rows row ≡ (rows, false)
unfolding insert
insert-clashes rows row h = rw (h, insert) refl

-- A row that follows the same ending up clashes.
clashes-found :
    (id : String) (rows : List Row) (row new : Row)
    → find (follows id) rows ≡ some row
    → follows id new ≡ true
    → clashes rows new ≡ true
unfolding clashes clash
clashes-found id [] row new h k = cc
clashes-found id (r ∷ rows) row new h k = elim (Bool-cases (follows id r)) [
  | inl e ↦ or-left (clash r new) (clashes rows new) (
      or-right (r.id == new.id || (r.task_id == new.task_id && r.n == new.n)) _
        (names-same id r.follow_up_of new.follow_up_of e k))
  | inr e ↦ or-right (clash r new) (clashes rows new) (clashes-found id rows row new (rw e at h) k)
]

-- A second call for the same ending, in any round and whatever others insert meanwhile, answers the
-- attempt that follows it up already and writes no row of its own.
pub create-seen :
    (d : Draw) (draws : List Draw) (st : Store) (q : Request) (id : String) (row : Row)
    → q.follow_up_of ≡ some id
    → follow_up st.attempts (some id) ≡ some row
    → create (d ∷ draws) st q ≡ seen row (record st { attempts = insert_all st.attempts d.raced })
unfolding create follow_up ended new_row
create-seen d draws st q id row e h =
    let others = insert_all st.attempts d.raced in
    let new = new_row d (next_n st.attempts q.task_id) q in
    let there : find (follows id) others ≡ some row =
      insert_all-follow_up id st.attempts d.raced row h in
    let same : names (some id) id ≡ true = (==_iff id id).1 refl in
    let parent : follows id new ≡ true = ap (λ o. names o id) e ∙ same in
    let kept : insert others new ≡ (others, false) =
      insert-clashes others new (clashes-found id others row new there parent) in
    rw (kept, e, there) refl
