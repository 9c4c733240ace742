-- ===== src/Server/Outbox/Announced.antt =====
-- server/events/outbox.js: which changes of a task are announced, and what is written for one.
use mathlib.Core.Option.{some-injective}
use mathlib.Core.Path.{subst}
use open_vibe_codes.Prelude.{
  ap, sym, ◌≡◌, refl, ◌↔◌, ◌⊎◌, inl, inr, String, false, Option, none, some, List, [], ◌∷◌, ◌++◌,
  template, ◌==◌, string_eq, ==_iff, Bool-cases, truthy,
}
use open_vibe_codes.Runtime.{Runtime}
use open_vibe_codes.Server.Outbox.Emit.{
  group_of, same_group, topic_of, topic_for, Task, Payload, Row, World, insert, payload_of,
  step_type, step_rows, emit_agent_step, emit_topic, emit_task,
}

topic_of-none : (g b : Option String) → (topic_of g b ≡ none) ↔ ((g ≡ none) ⊎ (b ≡ g))
unfolding topic_of
topic_of-none none b = (λ h. inl refl, λ h. refl)
topic_of-none (some g) none = (λ h. cc, λ h. elim h [ inl e ↦ cc | inr e ↦ cc ])
topic_of-none (some g) (some b) = elim (Bool-cases (b == g)) [
  | inl e ↦ (λ h. inr (ap some (let (to, of) = ==_iff b g in to e)), λ h. rw (e, topic_of) refl)
  | inr e ↦ (
    λ h. cc (rw (e, topic_of) at h),
    λ h. elim h [
      | inl k ↦ cc
      | inr k ↦ let (to, of) = ==_iff b g in cc (rw (of (some-injective _ _ k)) at e)
    ],
  )
]

topic_of-some :
    (g b : Option String) (topic : String)
    → topic_of g b ≡ some topic
    → (x : String) × (g ≡ some x) × (topic ≡ template ("codes.task." ∷ x ∷ []))
unfolding topic_of
topic_of-some none b topic h = cc
topic_of-some (some g) b topic h = elim (Bool-cases (same_group b g)) [
  | inl e ↦ cc (rw (e, topic_of) at h)
  | inr e ↦ (g, refl, sym (some-injective _ _ (rw (e, topic_of) at h)))
]

-- No topic is announced for a change exactly when the new state has no group, or both states have
-- the same one.
pub topic_for-none :
    (state before : String)
    → (topic_for state (some before) ≡ none)
      ↔ ((group_of state ≡ none) ⊎ (group_of before ≡ group_of state))
unfolding topic_for
topic_for-none state before = topic_of-none (group_of state) (group_of before)

-- The groups that are announced.
data IsGroup : String → Type 0 where
  queued : IsGroup "queued"
  running : IsGroup "running"
  succeeded : IsGroup "succeeded"
  failed : IsGroup "failed"
  cancelled : IsGroup "cancelled"

group_of-IsGroup : (state g : String) → group_of state ≡ some g → IsGroup g
unfolding group_of
group_of-IsGroup state g h =
    let named : (x : String) → IsGroup x → some x ≡ some g → IsGroup g =
      λ x i e. subst IsGroup (some-injective _ _ e) i in
    elim (Bool-cases (state == "queued")) [
      | inl e ↦ named _ IsGroup.queued (rw (e, group_of) at h)
      | inr a ↦ elim (Bool-cases (state == "placed")) [
        | inl e ↦ named _ IsGroup.running (rw (a, e, group_of) at h)
        | inr b ↦ elim (Bool-cases (state == "running")) [
          | inl e ↦ named _ IsGroup.running (rw (a, b, e, group_of) at h)
          | inr c ↦ elim (Bool-cases (state == "succeeded")) [
            | inl e ↦ named _ IsGroup.succeeded (rw (a, b, c, e, group_of) at h)
            | inr d ↦ elim (Bool-cases (state == "failed")) [
              | inl e ↦ named _ IsGroup.failed (rw (a, b, c, d, e, group_of) at h)
              | inr f ↦ elim (Bool-cases (state == "expired")) [
                | inl e ↦ named _ IsGroup.failed (rw (a, b, c, d, f, e, group_of) at h)
                | inr k ↦ elim (Bool-cases (state == "cancelled")) [
                  | inl e ↦ named _ IsGroup.cancelled (rw (a, b, c, d, f, k, e, group_of) at h)
                  | inr l ↦ cc (rw (a, b, c, d, f, k, l, group_of) at h)
                ]
              ]
            ]
          ]
        ]
      ]
    ]

-- The rows of the agent's step for a group: none yet for a queued task, the step's start for a
-- running one, its end for one that ended.
pub data IsStepped : String → List Row → Type 0 where
  not_yet : IsStepped "queued" []
  started : (s : Row) → s.topic ≡ "agent.step.started" → IsStepped "running" (s ∷ [])
  ended :
      (g : String) (s : Row)
      → (g == "queued") ≡ false
      → (g == "running") ≡ false
      → s.topic ≡ "agent.step.ended"
      → IsStepped g (s ∷ [])

emit_agent_step-IsStepped :
    (js : Runtime) (w : World) (t : Task) (subject g : String)
    → group_of t.state ≡ some g
    → IsGroup g
    → IsStepped g (emit_agent_step js w t subject)
unfolding emit_agent_step step_rows step_type insert
emit_agent_step-IsStepped js w t subject g h IsGroup.queued = rw h IsStepped.not_yet
emit_agent_step-IsStepped js w t subject g h IsGroup.running = rw h (IsStepped.started _ refl)
emit_agent_step-IsStepped js w t subject g h IsGroup.succeeded =
    rw h (IsStepped.ended _ _ refl refl refl)
emit_agent_step-IsStepped js w t subject g h IsGroup.failed =
    rw h (IsStepped.ended _ _ refl refl refl)
emit_agent_step-IsStepped js w t subject g h IsGroup.cancelled =
    rw h (IsStepped.ended _ _ refl refl refl)

-- What an announced change leaves behind.
pub record IsAnnounced (rows after : List Row) (t : Task) (id : String) : Type 0 where
  pub group : String
  pub named : group_of t.state ≡ some group
  pub event : Row
  pub steps : List Row
  pub written : after ≡ rows ++ event ∷ steps
  pub event_id : event.event_id ≡ id
  pub topic : event.topic ≡ template ("codes.task." ∷ group ∷ [])
  pub untried : (event.published_at ≡ none) × (event.dead_at ≡ none) × (event.attempts ≡ 0)
  pub stepped : IsStepped group steps

emit_topic-IsAnnounced :
    (js : Runtime) (w : World) (rows after : List Row) (t : Task) (subject id : String)
    (topic before : Option String)
    → topic ≡ topic_of (group_of t.state) before
    → emit_topic js w rows t subject topic ≡ (after, some id)
    → IsAnnounced rows after t id
unfolding emit_topic insert
emit_topic-IsAnnounced js w rows after t subject id none before e h = cc (ap (λ p. p.1) h)
emit_topic-IsAnnounced js w rows after t subject id (some topic) before e h =
    let (g, named, same) = topic_of-some _ before topic (sym e) in
    record {
      group = g;
      named = named;
      event = insert w.event topic subject (Payload.task (payload_of js t)) w.now;
      steps = emit_agent_step js w t subject;
      written = sym (ap (λ p. p.0) h);
      event_id = some-injective _ _ (ap (λ p. p.1) h);
      topic = same;
      untried = (refl, refl, refl);
      stepped = emit_agent_step-IsStepped js w t subject g named (group_of-IsGroup _ g named);
    }

-- When a change of a task is announced, the outbox has at its end one new row of the task's event,
-- under the answered id and the topic of the state's group, not sent, not dead and never tried; and
-- behind it the agent's step: none for a queued task, its start for a running one, its end for one
-- that ended. The rows before are as they were.
pub emit_task-IsAnnounced :
    (js : Runtime) (w : World) (rows after : List Row) (t : Task) (previous : Option String)
    (id : String)
    → emit_task js w rows (some t) previous ≡ (after, some id)
    → IsAnnounced rows after t id
unfolding emit_task topic_for
emit_task-IsAnnounced js w rows after t previous id h = elim (Bool-cases (t.id == "")) [
  | inl e ↦ cc (ap (λ p. p.1) (rw (e, emit_task) at h))
  | inr e ↦ elim (Bool-cases (truthy t.subject)) [
    | inl k ↦ emit_topic-IsAnnounced js w rows after t _ id _ _ refl (rw (e, k, emit_task) at h)
    | inr k ↦ cc (ap (λ p. p.1) (rw (e, k, emit_task) at h))
  ]
]
