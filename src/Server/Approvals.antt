-- ===== src/Server/Approvals.antt =====
-- server/domain/approvals.js: the approvals inbox. The table codes_approvals is a list of rows in the
-- order of insertion, and an operation returns the new store; a text of the tool's arguments stands
-- for what String() and JSON.stringify make of them. The log is left out.
pub mod Once
pub mod Overlapping
pub mod Inbox
use open_vibe_codes.Prelude.{
  ℕ, ◌≤◌, String, Bool, true, false, not, ◌&&◌, ◌||◌, Option, none, some, List, [], ◌∷◌, ◌++◌, map,
  leb, ltb, if◌then◌else◌, ◌==◌, string_eq, lookup, truthy, get_or, find, keep, take, template,
  is_some,
}
use open_vibe_codes.Runtime.{Runtime}

pub data Decision : Type 0 where
  allow deny : Decision

-- The tool's arguments: an object by its fields' texts, or `none` for anything that is no object.
abbrev pub Input : Type 0
Input = Option (List (String × String))

pub record Approval : Type 0 where
  pub id : String
  pub task_id : String
  pub tool : String
  pub input : Input
  pub summary : String
  pub created_at : ℕ
  pub decision : Option Decision
  pub message : Option String
  pub decided_at : Option ℕ

-- A row of run_tasks, as the approvals read it.
pub record Task : Type 0 where
  pub id : String
  pub subject : String

-- A notification to a person: the subject, the message and the task that the link names.
pub record Notice : Type 0 where
  pub subject : String
  pub message : String
  pub task_id : String

pub record Store : Type 0 where
  pub approvals : List Approval
  pub tasks : List Task
  pub sent : List Notice

abbrev pub summary_max : ℕ
summary_max = 400

abbrev pub input_max : ℕ
input_max = 16384

abbrev pub summary_fields : List String
summary_fields =
    "command" ∷ "cmd" ∷ "file_path" ∷ "filePath" ∷ "path" ∷ "notebook_path" ∷ "url" ∷ "pattern"
    ∷ "query" ∷ "description" ∷ []

-- `i.command || i.cmd || … || ''`.
unfoldable pub first_field : List String → List (String × String) → String
first_field [] input = ""
first_field (k ∷ fields) input =
    let v = lookup k input in if truthy v then get_or v "" else first_field fields input

module _ (js : Runtime) where
  open js use {trim, cut, units, replace}

  -- `s.replace(/\s+/g, ' ').trim()`.
  unfoldable pub one_line : String → String
  one_line s = trim (replace "\\s+ g" " " s)

  -- A short line for the person.
  unfoldable pub summarize : String → Input → String
  summarize tool input =
      let line = one_line (first_field summary_fields (get_or input [])) in
      cut summary_max (if line == "" then (if tool == "" then "a tool" else tool) else line)

  -- The input kept for the record: whole when its JSON is short, else with its texts cut.
  unfoldable pub kept_input : (Input → String) → Input → Input
  kept_input json none = none
  kept_input json (some fields) =
      let clone = some (map (λ (k, v). (k, cut 2000 v)) fields) in
      if leb (units (json (some fields))) input_max
      then some fields
      else if leb (units (json clone)) input_max
      then clone
      else some (("note", "the arguments were too long to keep whole") ∷ [])

-- A row that waits for this call's answer.
abbrev pub is_waiting : Option Decision → Bool
is_waiting none = true
is_waiting (some d) = false

unfoldable pub asks : String → String → String → Approval → Bool
asks task_id tool summary a =
    a.task_id == task_id && a.tool == tool && a.summary == summary && is_waiting a.decision

-- Of two rows the one created later; of equals the first.
unfoldable pub newer : Approval → Option Approval → Approval
newer a none = a
newer a (some b) = if ltb a.created_at b.created_at then b else a

-- `ORDER BY created_at DESC LIMIT 1` over the rows that pass.
unfoldable pub newest : (Approval → Bool) → List Approval → Option Approval
newest p [] = none
newest p (a ∷ rows) = let rest = newest p rows in if p a then some (newer a rest) else rest

-- `tell`: one notification, unless the person turned them off. `wants` is what their settings say,
-- `none` where there are no settings; a failed push changes nothing here.
unfoldable pub tell : Option (String → Bool) → Task → Approval → List Notice → List Notice
tell wants task row sent =
    let asked : Bool = elim wants [ none ↦ true | some choice ↦ choice task.subject ] in
    if not (task.subject == "") && asked
    then sent
      ++ record {
        subject = task.subject;
        message = template (
            row.tool
            ∷ ": "
            ∷ (if row.summary == "" then "a tool wants to run" else row.summary)
            ∷ []);
        task_id = task.id;
      }
        ∷ []
    else sent

pub data Error : Type 0 where
  task_required tool_required : Error

pub data Created : Type 0 where
  row : Approval → Store → Created
  refused : Error → Created

-- A request: who asks, for which tool, and the line it brings, if it brings one.
pub record Request : Type 0 where
  pub task : Option Task
  pub tool : String
  pub input : Input
  pub summary : Option String

-- What the world supplies: the new row's id, the clock, JSON.stringify and the person's settings.
pub record World : Type 0 where
  pub id : String
  pub now : ℕ
  pub json : Input → String
  pub wants : Option (String → Bool)

module _ (js : Runtime) where
  unfoldable pub tool_name : Request → String
  tool_name r = js.cut 100 (js.trim r.tool)

  unfoldable pub request_line : Request → String
  request_line r =
      js.cut summary_max
        (elim r.summary [ none ↦ summarize js (tool_name r) r.input | some s ↦ one_line js s ])

  unfoldable pub new_row : World → Task → Request → Approval
  new_row w task r = record {
    id = w.id;
    task_id = task.id;
    tool = tool_name r;
    input = kept_input js w.json r.input;
    summary = request_line r;
    created_at = w.now;
    decision = none;
    message = none;
    decided_at = none;
  }

  -- The row that waits is answered as it is, else a row is written and the person is told.
  unfoldable pub seen_or_new : World → Store → Task → Request → Option Approval → Created
  seen_or_new w st task r (some seen) = row seen st
  seen_or_new w st task r none =
      let fresh = new_row w task r in
      row fresh (record st {
        approvals = st.approvals ++ fresh ∷ [];
        sent = tell w.wants task fresh st.sent;
      })

  unfoldable pub create_for : World → List Approval → Store → Task → Request → Created
  create_for w read st task r =
      seen_or_new w st task r (newest (asks task.id (tool_name r) (request_line r)) read)

  unfoldable pub create_named : World → List Approval → Store → Task → Request → Created
  create_named w read st task r =
      if task.id == ""
      then refused task_required
      else if tool_name r == ""
      then refused tool_required
      else create_for w read st task r

  -- `create`: its SELECT and its INSERT are two statements outside a transaction, so `read` is the
  -- table that the SELECT read, and the store the one that the INSERT writes to.
  unfoldable pub create : World → List Approval → Store → Request → Created
  create w read st r = elim r.task [
    | none ↦ refused task_required
    | some task ↦ create_named w read st task r
  ]

  -- `get`: the task's id has the form of one.
  unfoldable pub get : List Approval → String → String → Option Approval
  get rows task_id id =
      if js.test "^tsk_[0-9A-HJKMNP-TV-Z]{26}$" task_id && not (id == "")
      then find (λ a. a.id == id && a.task_id == task_id) rows
      else none

-- `ORDER BY created_at ASC`, an insertion that keeps equals in their order.
unfoldable pub insert_row : Approval → List Approval → List Approval
insert_row a [] = a ∷ []
insert_row a (b ∷ rows) =
    if leb a.created_at b.created_at then a ∷ b ∷ rows else b ∷ insert_row a rows

unfoldable pub by_age : List Approval → List Approval
by_age [] = []
by_age (a ∷ rows) = insert_row a (by_age rows)

unfoldable pub pending : List Approval → String → List Approval
pending rows task_id = by_age (keep (λ a. a.task_id == task_id && is_waiting a.decision) rows)

-- The task of an approval is the subject's.
unfoldable pub owns : List Task → String → String → Bool
owns tasks subject task_id =
    is_some (find (λ (t : Task). t.id == task_id && t.subject == subject) tasks)

unfoldable pub inbox : Store → String → List Approval
inbox st subject =
    take 50
      (by_age (keep (λ a. owns st.tasks subject a.task_id && is_waiting a.decision) st.approvals))

-- The words that a person's answer comes in.
pub data Answer : Type 0 where
  allow always deny other : Answer

unfoldable pub made : Answer → Decision
made Answer.allow = Decision.allow
made Answer.always = Decision.allow
made Answer.deny = Decision.deny
made Answer.other = Decision.deny

-- `message ? String(message).slice(0, 500) : null`.
unfoldable pub kept_message : Runtime → Option String → Option String
kept_message js message = if truthy message then some (js.cut 500 (get_or message "")) else none

unfoldable pub decided : Runtime → ℕ → Answer → Option String → Approval → Approval
decided js now answer message a = record a {
  decision = some (made answer);
  message = kept_message js message;
  decided_at = some now;
}

-- The row of the id, when it still waits, is written; a decided row is left as it is.
unfoldable pub write_once : Runtime → ℕ → String → Answer → Option String → Approval → Approval
write_once js now id answer message a =
    if a.id == id && is_waiting a.decision then decided js now answer message a else a

unfoldable pub settle :
    Runtime → ℕ → List Approval → String → Answer → Option String → List Approval
settle js now rows id answer message = map (write_once js now id answer message) rows

-- `decide` and `decideAny`: the new rows, and the row as it is answered.
unfoldable pub decide :
    Runtime
    → ℕ
    → List Approval
    → String
    → String
    → Answer
    → Option String
    → List Approval × Option Approval
decide js now rows task_id id answer message = elim (get js rows task_id id) [
  | none ↦ (rows, none)
  | some a ↦
      let after = settle js now rows a.id answer message in (after, find (λ b. b.id == a.id) after)
]

unfoldable pub decide_any :
    Runtime → ℕ → Store → String → String → Answer → Option String → List Approval × Option Approval
decide_any js now st subject id answer message =
    elim (find (λ a. a.id == id && owns st.tasks subject a.task_id) st.approvals) [
      | none ↦ (st.approvals, none)
      | some a ↦
          let after = settle js now st.approvals a.id answer message in
          (after, find (λ b. b.id == a.id) after)
    ]

-- The conductor stopped: what waits on the task is denied.
unfoldable pub stop_row : ℕ → String → Approval → Approval
stop_row now task_id a =
    if a.task_id == task_id && is_waiting a.decision
    then record a {
      decision = some Decision.deny;
      message = some "the conductor was stopped";
      decided_at = some now;
    }
    else a

unfoldable pub stop : ℕ → List Approval → String → List Approval
stop now rows task_id = map (stop_row now task_id) rows
