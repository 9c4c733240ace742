-- ===== src/Server/Approvals/Once.antt =====
-- server/domain/approvals.js: an approval is asked for once and decided once, over every sequence of
-- calls.
use mathlib.Core.Option
use mathlib.Core.Path.{subst}
use mathlib.Core.List.{append-nil}
use open_vibe_codes.Prelude.{
  ℕ, ◌≤◌, ◌≡◌, refl, inl, inr, ◌∙◌, ap, String, Bool, true, false, ◌&&◌, Option, none, some, List,
  [], ◌∷◌, ◌++◌, map, arith, Bool-cases, Option-cases, ◌==◌, string_eq, ==_iff, get_elem?,
  get_elem?-map, get_elem?-append, keep, keep-append, length, length-keep-map, find,
}
use open_vibe_codes.Runtime.{Runtime}
use open_vibe_codes.Server.Approvals.{
  Approval, Task, Store, Request, World, Answer, row, is_waiting, asks, newest, tool_name,
  request_line, new_row, seen_or_new, create_for, create_named, create, get, decided, write_once,
  settle, decide, decide_any, owns, stop_row, stop,
}

-- One call of the inbox. `read` is what the SELECT of `create` read, which may be older than the table
-- that its INSERT writes to.
pub data Step (js : Runtime) (st : Store) : Store → Type 0 where
  asked :
      (w : World) (read : List Approval) (r : Request) {a : Approval} {st' : Store}
      → create js w read st r ≡ row a st'
      → Step js st st'
  answered :
      (now : ℕ) (task_id id : String) (answer : Answer) (message : Option String)
      → Step js st
          (record st { approvals = (decide js now st.approvals task_id id answer message).0 })
  answered_any :
      (now : ℕ) (subject id : String) (answer : Answer) (message : Option String)
      → Step js st (record st { approvals = (decide_any js now st subject id answer message).0 })
  stopped :
      (now : ℕ) (task_id : String)
      → Step js st (record st { approvals = stop now st.approvals task_id })

pub data Reach (js : Runtime) (st : Store) : Store → Type 0 where
  here : Reach js st st
  next : {t u : Store} → Reach js st t → Step js t u → Reach js st u

-- What a call read before it writes.
abbrev pub read_of : {js : Runtime} {st t : Store} → Step js st t → List Approval
read_of (asked w read r h) = read
read_of {st = st} (answered now task_id id answer message) = st.approvals
read_of {st = st} (answered_any now subject id answer message) = st.approvals
read_of {st = st} (stopped now task_id) = st.approvals

-- Nothing is written between the SELECT and the INSERT of a call.
abbrev pub Apart : {js : Runtime} {st t : Store} → Reach js st t → Type 0
Apart here = Unit
Apart (next {t = u} r step) = Apart r × (read_of step ≡ u.approvals)

-- Every decided row stands where it stood, unchanged.
abbrev pub KeepsDecided : List Approval → List Approval → Type 0
KeepsDecided rows rows' =
    (i : ℕ) (a : Approval)
    → get_elem? rows i ≡ some a
    → is_waiting a.decision ≡ false
    → get_elem? rows' i ≡ some a

-- No call waits twice: of each task, tool and summary at most one row is undecided.
abbrev pub AsksOnce : List Approval → Type 0
AsksOnce rows = (task_id tool summary : String) → length (keep (asks task_id tool summary) rows) ≤ 1

map-KeepsDecided :
    (f : Approval → Approval) (rows : List Approval)
    → ((a : Approval) → is_waiting a.decision ≡ false → f a ≡ a)
    → KeepsDecided rows (map f rows)
map-KeepsDecided f rows fix i a at done =
    get_elem?-map f rows i ∙ ap (Option.map f) at ∙ ap some (fix a done)

write_once-decided :
    (js : Runtime) (now : ℕ) (id : String) (answer : Answer) (message : Option String)
    (a : Approval)
    → is_waiting a.decision ≡ false
    → write_once js now id answer message a ≡ a
unfolding write_once
write_once-decided js now id answer message a h = ground arith

stop_row-decided :
    (now : ℕ) (task_id : String) (a : Approval)
    → is_waiting a.decision ≡ false
    → stop_row now task_id a ≡ a
unfolding stop_row
stop_row-decided now task_id a h = ground arith

asks-write_once :
    (js : Runtime) (now : ℕ) (id : String) (answer : Answer) (message : Option String)
    (t tool s : String) (a : Approval)
    → asks t tool s (write_once js now id answer message a) ≡ true
    → asks t tool s a ≡ true
unfolding asks write_once decided
asks-write_once js now id answer message t tool s a h = ground arith

asks-stop_row :
    (now : ℕ) (task_id t tool s : String) (a : Approval)
    → asks t tool s (stop_row now task_id a) ≡ true
    → asks t tool s a ≡ true
unfolding asks stop_row
asks-stop_row now task_id t tool s a h = ground arith

asks-inv :
    (t tool s : String) (a : Approval)
    → asks t tool s a ≡ true
    → (a.task_id ≡ t) × (a.tool ≡ tool) × (a.summary ≡ s)
unfolding asks
asks-inv t tool s a h = ground (arith, ==_iff a.task_id t, ==_iff a.tool tool, ==_iff a.summary s)

pub newest-none :
    (p : Approval → Bool) (rows : List Approval) → newest p rows ≡ none → keep p rows ≡ []
unfolding newest
newest-none p [] h = refl
newest-none p (a ∷ rows) h = ground (arith, newest-none p rows)

-- What a call does to the rows: it changes some that wait, or adds one that nobody asked for when it
-- read them.
data Change (rows read : List Approval) : List Approval → Type 0 where
  same : Change rows read rows
  mapped :
      (f : Approval → Approval)
      → ((a : Approval) → is_waiting a.decision ≡ false → f a ≡ a)
      → ((t tool s : String) (a : Approval) → asks t tool s (f a) ≡ true → asks t tool s a ≡ true)
      → Change rows read (map f rows)
  added :
      (a : Approval)
      → keep (asks a.task_id a.tool a.summary) read ≡ []
      → Change rows read (rows ++ a ∷ [])

Change-KeepsDecided :
    {rows read rows' : List Approval} → Change rows read rows' → KeepsDecided rows rows'
Change-KeepsDecided same i a at done = at
Change-KeepsDecided {rows} (mapped f fix mono) i a at done = map-KeepsDecided f rows fix i a at done
Change-KeepsDecided {rows} (added b none_waits) i a at done = get_elem?-append rows (b ∷ []) i a at

Change-AsksOnce :
    {rows rows' : List Approval} → Change rows rows rows' → AsksOnce rows → AsksOnce rows'
Change-AsksOnce same once t tool s = once t tool s
Change-AsksOnce {rows} (mapped f fix mono) once t tool s =
    omega (arith, once t tool s, length-keep-map (asks t tool s) f rows (mono t tool s))
Change-AsksOnce {rows} (added a none_waits) once t tool s =
    rw (keep-append (asks t tool s) rows (a ∷ [])) (elim (Bool-cases (asks t tool s a)) [
      | inl e ↦
          let (same_task, same_tool, same_line) = asks-inv t tool s a e in
          let free : keep (asks t tool s) rows ≡ [] =
            rw (← same_task, ← same_tool, ← same_line) none_waits in
          rw (free, e) (omega arith)
      | inr e ↦ rw (e, append-nil) (once t tool s)
    ])

decide-Change :
    (js : Runtime) (now : ℕ) (rows : List Approval) (task_id id : String) (answer : Answer)
    (message : Option String)
    → Change rows rows (decide js now rows task_id id answer message).0
unfolding decide settle
decide-Change js now rows task_id id answer message = elim (Option-cases (get js rows task_id id)) [
  | inl e ↦ rw (e, decide) same
  | inr (a, e) ↦
      rw (e, decide)
        (mapped _ (write_once-decided js now a.id answer message)
          (asks-write_once js now a.id answer message))
]

decide_any-Change :
    (js : Runtime) (now : ℕ) (st : Store) (subject id : String) (answer : Answer)
    (message : Option String)
    → Change st.approvals st.approvals (decide_any js now st subject id answer message).0
unfolding decide_any settle
decide_any-Change js now st subject id answer message =
    elim (Option-cases (find (λ a. a.id == id && owns st.tasks subject a.task_id) st.approvals)) [
      | inl e ↦ rw (e, decide_any) same
      | inr (a, e) ↦
          rw (e, decide_any)
            (mapped _ (write_once-decided js now a.id answer message)
              (asks-write_once js now a.id answer message))
    ]

row-store : {a b : Approval} {s t : Store} → row a s ≡ row b t → s ≡ t
row-store h = cc

seen_or_new-Change :
    (js : Runtime) (w : World) (read : List Approval) (st : Store) (task : Task) (r : Request)
    (o : Option Approval) {a : Approval} {st' : Store}
    → newest (asks task.id (tool_name js r) (request_line js r)) read ≡ o
    → seen_or_new js w st task r o ≡ row a st'
    → Change st.approvals read st'.approvals
unfolding seen_or_new new_row
seen_or_new-Change js w read st task r none e h =
    subst (λ (x : Store). Change st.approvals read x.approvals) (row-store h)
      (added (new_row js w task r) (newest-none _ read e))
seen_or_new-Change js w read st task r (some seen) e h =
    subst (λ (x : Store). Change st.approvals read x.approvals) (row-store h) same

create_named-Change :
    (js : Runtime) (w : World) (read : List Approval) (st : Store) (task : Task) (r : Request)
    {a : Approval} {st' : Store}
    → create_named js w read st task r ≡ row a st'
    → Change st.approvals read st'.approvals
unfolding create_named create_for
create_named-Change js w read st task r h = elim (Bool-cases (task.id == "")) [
  | inl e ↦ cc (rw (e, create_named) at h)
  | inr e ↦ elim (Bool-cases (tool_name js r == "")) [
    | inl f ↦ cc (rw (e, f, create_named) at h)
    | inr f ↦ seen_or_new-Change js w read st task r _ refl (rw (e, f, create_named) at h)
  ]
]

create-Change :
    (js : Runtime) (w : World) (read : List Approval) (st : Store) (r : Request) {a : Approval}
    {st' : Store}
    → create js w read st r ≡ row a st'
    → Change st.approvals read st'.approvals
unfolding create
create-Change js w read st r h = elim (Option-cases r.task) [
  | inl e ↦ cc (rw (e, create) at h)
  | inr (task, e) ↦ create_named-Change js w read st task r (rw (e, create) at h)
]

Step-Change :
    {js : Runtime} {st t : Store} (s : Step js st t) → Change st.approvals (read_of s) t.approvals
unfolding stop
Step-Change {js} {st} (asked w read r h) = create-Change js w read st r h
Step-Change {js} {st} (answered now task_id id answer message) =
    decide-Change js now st.approvals task_id id answer message
Step-Change {js} {st} (answered_any now subject id answer message) =
    decide_any-Change js now st subject id answer message
Step-Change (stopped now task_id) =
    mapped _ (stop_row-decided now task_id) (asks-stop_row now task_id)

-- A decision is final: over any sequence of calls, whoever makes them, a row that was decided stays
-- as it is and where it is; the first answer wins.
pub Reach-KeepsDecided :
    (js : Runtime) (st t : Store) → Reach js st t → KeepsDecided st.approvals t.approvals
Reach-KeepsDecided js st t here i a at done = at
Reach-KeepsDecided js st t (next {t = u} r step) i a at done =
    Change-KeepsDecided (Step-Change step) i a (Reach-KeepsDecided js st u r i a at done) done

-- Over any sequence of calls in which nothing is written between the SELECT and the INSERT of a call
-- of create, of each task, tool and summary at most one row waits, if that held before.
pub Reach-AsksOnce :
    (js : Runtime) (st t : Store) (r : Reach js st t)
    → Apart r
    → AsksOnce st.approvals
    → AsksOnce t.approvals
Reach-AsksOnce js st t here apart once = once
Reach-AsksOnce js st t (next {t = u} r step) (before, now) once =
    Change-AsksOnce (subst (λ read. Change u.approvals read t.approvals) now (Step-Change step))
      (Reach-AsksOnce js st u r before once)
