-- ===== src/Engine/Chain/Retry.antt =====
-- engine/chain.js, `step`: when a task is switched, continued or left to its owner.
use open_vibe_codes.Prelude.{
  ℕ, ◌<◌, ◌≡◌, refl, ◌≢◌, ◌⊎◌, inl, inr, String, Bool, true, false, ◌||◌, Option, none, some, List,
  arith, Bool-cases, Option-cases, string_eq, get_or, leb, if◌then◌else◌,
}
use open_vibe_codes.Runtime.{Runtime}
use open_vibe_codes.Engine.Budget.{Status}
use open_vibe_codes.Engine.Chain.Attempt.{Reason, Attempt, is_switchable}
use open_vibe_codes.Engine.Chain.Facts.{facts}
use open_vibe_codes.Engine.Chain.Runner.{Options, Takeover, next_runner}
use open_vibe_codes.Engine.Chain.Switch.{TakesOver, next_runner-TakesOver}
use open_vibe_codes.Engine.Chain.Step.{
  continue, switch, settled_parent, switch_to, step_turns, step_hit, step_switch, is_error,
  step_checked, hit_of, step_on, step_ended, why_of, step_at, step,
}

switch_to-switch :
    (parent : Option Attempt) (choice : Option Takeover) (up : Option String) (words : String)
    (t : Takeover) (effort : Option String)
    → switch_to parent choice up words ≡ switch t effort
    → (parent ≡ none) × (choice ≡ some t)
unfolding switch_to
switch_to-switch (some p) choice up words t effort h = cc
switch_to-switch none none up words t effort h = cc
switch_to-switch none (some c) up words t effort h = (refl, ground arith)

switch_to-continue :
    (parent : Option Attempt) (choice : Option Takeover) (up : Option String) (words : String)
    (session why : String)
    → switch_to parent choice up words ≢ continue session why
unfolding switch_to
switch_to-continue (some p) choice up words session why = λ h. cc
switch_to-continue none none up words session why = λ h. cc
switch_to-continue none (some c) up words session why = λ h. cc

-- The reasons that a task may be switched to another runner for.
pub data IsSwitched (tries : ℕ) (session : Option String) : Reason → Type 0 where
  handed : {why : Reason} → is_switchable why ≡ true → tries < 4 → IsSwitched tries session why
  second : tries < 2 → IsSwitched tries session Reason.error
  capped : session ≡ none → IsSwitched tries session Reason.turns

module _ (js : Runtime) (shown : ℕ → String) (o : Options) (runs : List Attempt) (end : Attempt)
    (t : Takeover) (effort : Option String) where
  step_hit-switch : (hit : Reason) → step_hit end hit ≢ switch t effort
  unfolding step_hit
  step_hit-switch Reason.context = λ h. cc
  step_hit-switch hit = λ h. ground arith

  -- What a switch shows of the chain: no attempt that the owner settled is behind it, and the
  -- runner was chosen for the attempt's reason.
  abbrev Chosen : Type 0
  Chosen = (settled_parent runs end ≡ none) × (next_runner o end end.reason ≡ some t)

  step_switch-switch :
      (why : Reason)
      → step_switch shown o runs end why (is_error why) ≡ switch t effort
      → (is_switchable why || is_error why) ≡ true
      → IsSwitched (get_or end.attempt 1) (facts end).session why × Chosen
  unfolding step_switch
  step_switch-switch why h owned =
      elim (Bool-cases (leb (if is_error why then 2 else 4) (get_or end.attempt 1))) [
        | inl over ↦ cc (rw (over, step_switch) at h)
        | inr left ↦
            (tries why owned left, switch_to-switch _ _ _ _ t effort (rw (left, step_switch) at h))
      ]
    where
      tries :
          (why : Reason)
          → (is_switchable why || is_error why) ≡ true
          → leb (if is_error why then 2 else 4) (get_or end.attempt 1) ≡ false
          → IsSwitched (get_or end.attempt 1) (facts end).session why
      tries Reason.error own left = IsSwitched.second (ground arith)
      tries why own left = IsSwitched.handed (ground arith) (ground arith)

  step_turns-switch :
      step_turns shown o runs end ≡ switch t effort
      → IsSwitched (get_or end.attempt 1) (facts end).session Reason.turns × Chosen
  unfolding step_turns
  step_turns-switch h = elim (Option-cases (facts end).session) [
    | inl e ↦ (IsSwitched.capped e, switch_to-switch _ _ _ _ t effort (rw (e, step_turns) at h))
    | inr (session, e) ↦ cc (rw (e, step_turns) at h)
  ]

  step_checked-switch :
      (why : Reason) (hit : Option Reason)
      → step_checked js shown o runs end why hit ≡ switch t effort
      → (hit ≡ none) × IsSwitched (get_or end.attempt 1) (facts end).session why × Chosen
  unfolding step_checked
  step_checked-switch why (some hit) h = absurd (step_hit-switch hit h)
  step_checked-switch why none h = elim (Bool-cases (is_switchable why || is_error why)) [
    | inl own ↦
        let (switched, chosen) = step_switch-switch why (rw (own, step_checked) at h) own in
        (refl, switched, chosen)
    | inr not_own ↦ cc (rw (not_own, step_checked) at h)
  ]

  -- Why the task is switched: its turns ran out, or there is nothing to fix on the same runner.
  step_on-switch :
      (why : Reason)
      → step_on js shown o runs end why ≡ switch t effort
      → ((why ≡ Reason.turns) ⊎ (hit_of js end ≡ none))
        × IsSwitched (get_or end.attempt 1) (facts end).session why
        × Chosen
  unfolding step_on
  step_on-switch Reason.turns h =
      let (switched, chosen) = step_turns-switch h in (inl refl, switched, chosen)
  step_on-switch why h =
      let (fixed, switched, chosen) = step_checked-switch why _ h in (inr fixed, switched, chosen)

  step_ended-switch :
      (why : Reason)
      → step_ended js shown o runs end why ≡ switch t effort
      → ((why ≡ Reason.turns) ⊎ (hit_of js end ≡ none))
        × IsSwitched (get_or end.attempt 1) (facts end).session why
        × Chosen
  unfolding step_ended
  step_ended-switch Reason.stopped h = cc
  step_ended-switch Reason.budget h = cc
  step_ended-switch why h = step_on-switch why h

  step_at-switch :
      (status : Status)
      → step_at js shown o runs end status ≡ switch t effort
      → (status ≢ Status.running)
        × (status ≢ Status.queued)
        × (status ≢ Status.done)
        × (step_ended js shown o runs end (why_of js end) ≡ switch t effort)
  unfolding step_at
  step_at-switch Status.running h = cc
  step_at-switch Status.queued h = cc
  step_at-switch Status.done h = cc
  step_at-switch status h = (λ e. cc, λ e. cc, λ e. cc, h)

-- What a switch to another runner shows of the chain's end.
pub record MaySwitch (js : Runtime) (o : Options) (runs : List Attempt) (end : Attempt)
    (t : Takeover) : Type 0 where
  pub not_running : end.status ≢ Status.running
  pub not_queued : end.status ≢ Status.queued
  pub not_done : end.status ≢ Status.done
  pub switched : IsSwitched (get_or end.attempt 1) (facts end).session (why_of js end)
  pub not_fixable : (why_of js end ≡ Reason.turns) ⊎ (hit_of js end ≡ none)
  pub unsettled : settled_parent runs end ≡ none
  pub chosen : TakesOver o end end.reason t

-- A task goes to another runner only when its last attempt has ended unfinished; for a limit, a lost
-- sign-in, a busy model or a runner turned off on fewer than four tries, for an error on fewer than
-- two, or for a turn cap with no session to continue; when nothing could be fixed on the same runner
-- (a turn cap apart); never behind an attempt that the owner settled; and to a runner that may take
-- the job over.
pub step-MaySwitch :
    (js : Runtime) (shown : ℕ → String) (o : Options) (runs : List Attempt) (end : Attempt)
    (t : Takeover) (effort : Option String)
    → step js shown o runs (some end) ≡ switch t effort
    → MaySwitch js o runs end t
unfolding step
step-MaySwitch js shown o runs end t effort h =
    let (running, queued, finished, ended) =
      step_at-switch js shown o runs end t effort end.status h in
    let (fix, switched, (unsettled, chosen)) =
      step_ended-switch js shown o runs end t effort (why_of js end) ended in
    record {
      not_running = running;
      not_queued = queued;
      not_done = finished;
      switched = switched;
      not_fixable = fix;
      unsettled = unsettled;
      chosen = (next_runner-TakesOver o end end.reason t chosen).1;
    }

-- Continuing in the same session: the session that the attempt's facts name.
step_hit-continue :
    (end : Attempt) (hit : Reason) (session words : String)
    → step_hit end hit ≡ continue session words
    → (facts end).session ≡ some session
unfolding step_hit
step_hit-continue end Reason.context session words h = cc
step_hit-continue end hit session words h = ground arith

module _ (js : Runtime) (shown : ℕ → String) (o : Options) (runs : List Attempt) (end : Attempt)
    (session words : String) where
  step_switch-continue :
      (why : Reason) (e : Bool) → step_switch shown o runs end why e ≢ continue session words
  unfolding step_switch
  step_switch-continue why e h =
      elim (Bool-cases (leb (if e then 2 else 4) (get_or end.attempt 1))) [
        | inl over ↦ cc (rw (over, step_switch) at h)
        | inr left ↦ switch_to-continue _ _ _ _ session words (rw (left, step_switch) at h)
      ]

  step_turns-continue :
      step_turns shown o runs end ≡ continue session words → (facts end).session ≡ some session
  unfolding step_turns
  step_turns-continue h = elim (Option-cases (facts end).session) [
    | inl e ↦ absurd (switch_to-continue _ _ _ _ session words (rw (e, step_turns) at h))
    | inr (s, e) ↦ cc (rw (e, step_turns) at h)
  ]

  step_checked-continue :
      (why : Reason) (hit : Option Reason)
      → step_checked js shown o runs end why hit ≡ continue session words
      → (facts end).session ≡ some session
  unfolding step_checked
  step_checked-continue why (some hit) h = step_hit-continue end hit session words h
  step_checked-continue why none h = elim (Bool-cases (is_switchable why || is_error why)) [
    | inl own ↦ absurd (step_switch-continue why (is_error why) (rw (own, step_checked) at h))
    | inr not_own ↦ cc (rw (not_own, step_checked) at h)
  ]

  step_ended-continue :
      (why : Reason)
      → step_ended js shown o runs end why ≡ continue session words
      → (why ≢ Reason.stopped) × (why ≢ Reason.budget) × ((facts end).session ≡ some session)
  unfolding step_ended step_on
  step_ended-continue Reason.stopped h = cc
  step_ended-continue Reason.budget h = cc
  step_ended-continue Reason.turns h = (λ e. cc, λ e. cc, step_turns-continue h)
  step_ended-continue why h = (λ e. cc, λ e. cc, step_checked-continue why _ h)

  step_at-continue :
      (status : Status)
      → step_at js shown o runs end status ≡ continue session words
      → (status ≢ Status.done)
        × (step_ended js shown o runs end (why_of js end) ≡ continue session words)
  unfolding step_at
  step_at-continue Status.running h = cc
  step_at-continue Status.queued h = cc
  step_at-continue Status.done h = cc
  step_at-continue status h = (λ e. cc, h)

-- A task is continued only in the session that its last attempt names, and never when that attempt
-- finished, was stopped on purpose, or ran into a limit of the owner's.
pub step-continue :
    (js : Runtime) (shown : ℕ → String) (o : Options) (runs : List Attempt) (end : Attempt)
    (session words : String)
    → step js shown o runs (some end) ≡ continue session words
    → (end.status ≢ Status.done)
      × (why_of js end ≢ Reason.stopped)
      × (why_of js end ≢ Reason.budget)
      × ((facts end).session ≡ some session)
unfolding step
step-continue js shown o runs end session words h =
    let (finished, ended) = step_at-continue js shown o runs end session words end.status h in
    let (stopped, budget, same) =
      step_ended-continue js shown o runs end session words (why_of js end) ended in
    (finished, stopped, budget, same)
