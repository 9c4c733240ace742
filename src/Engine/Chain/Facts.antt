-- ===== src/Engine/Chain/Facts.antt =====
-- engine/chain.js, `facts` and `detect`: what an attempt's transcript holds, and why it stopped.
use open_vibe_codes.Prelude.{
  ℕ, String, Bool, true, false, not, ◌&&◌, ◌||◌, Option, none, some, List, [], ◌∷◌, if◌then◌else◌,
  ◌==◌, string_eq, nat_eq, get_or,
}
use open_vibe_codes.Runtime.{Runtime}
use open_vibe_codes.Engine.Budget.{Status}
use open_vibe_codes.Engine.Chain.Attempt.{
  Reason, is_switchable, Event, final, failure, other, Facts, Attempt, reason_of,
}

abbrev pub context_re : String
context_re =
    "prompt is too long|context length|maximum context|context window|too many tokens|input too long|context_length_exceeded|exceeds the context|prompt exceeds i"

abbrev pub incomplete_re : String
incomplete_re =
    "i'?ll continue|ran out of|max(?:imum)? turns?|not finished|remaining steps|still (?:need|needs|to do|to finish)|more (?:work )?(?:to do|remains)|to be continued|incomplete i"

abbrev pub stop_kind_re : String
stop_kind_re = "max_?tokens|length i"

-- One event of the loop in `facts`.
unfoldable pub read_event : Event → Facts → Facts
read_event (final none is_error) f = record f { has_final = true }
read_event (final (some text) is_error) f = record f {
  has_final = true;
  final_text = text;
  api_error = if is_error && f.api_error == "" then text else f.api_error;
}
read_event (failure text) f =
    if f.api_error == "" then record f { api_error = get_or text "" } else f
read_event other f = f

unfoldable pub read_events : List Event → Facts → Facts
read_events [] f = f
read_events (e ∷ es) f = read_events es (read_event e f)

-- `if (!apiError && attempt.error) apiError = attempt.error`.
unfoldable pub with_error : Option String → Facts → Facts
with_error error f = if f.api_error == "" then record f { api_error = get_or error "" } else f

unfoldable pub facts : Attempt → Facts
facts a = with_error a.error (read_events a.events a.facts)

abbrev pub is_status : Status → Status → Bool
is_status Status.queued Status.queued = true
is_status Status.running Status.running = true
is_status Status.done Status.done = true
is_status Status.failed Status.failed = true
is_status Status.interrupted Status.interrupted = true
is_status Status.stopped Status.stopped = true
is_status Status.budget_stopped Status.budget_stopped = true
is_status _ _ = false

-- `f.exit === code`.
abbrev pub exited : Option ℕ → ℕ → Bool
exited none code = false
exited (some n) code = n == code

module _ (js : Runtime) where
  open js use {test}

  -- The tests of `detect` behind the switchable reasons.
  unfoldable pub detect_early : Facts → Option Reason
  detect_early f =
      if exited f.exit 124
      then some Reason.timeout
      else if exited f.exit 8
      then some Reason.incomplete
      else if test stop_kind_re f.stop_kind
      then some Reason.incomplete
      else if f.has_final && test incomplete_re f.final_text
      then some Reason.incomplete
      else if not f.has_final && f.api_error == ""
      then some Reason.crash
      else none

  -- Why an attempt stopped, or `none` when nothing is to be done about it on the same runner.
  unfoldable pub detect : Status → Facts → Option Reason
  detect status f =
      let why = if f.api_error == "" then Reason.error else reason_of js (some f.api_error) in
      if is_status status Status.done
      then none
      else if test context_re f.api_error || test context_re f.final_text
      then some Reason.context
      else if is_status status Status.interrupted
      then some Reason.crash
      else if is_switchable why
      then none
      else detect_early f
