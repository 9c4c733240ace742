-- ===== src/Engine/Chain/Switch.antt =====
-- engine/chain.js, `nextRunner`: which runner takes a failed job over.
use mathlib.Core.List.{Memᴰ}
use mathlib.Core.Option
use mathlib.Core.Path.{subst}
use open_vibe_codes.Prelude.{
  drop, zero, suc, [], ◌∷◌, ◌<◌, ◌≡◌, refl, ◌≢◌, ◌⊎◌, inl, inr, ◌∙◌, ap, String, true, false, not,
  ◌&&◌, ◌||◌, Option, none, some, List, arith, Bool-cases, Option-cases, ◌==◌, string_eq, ==_iff,
  lookup, get_or, includes, find_sound, mem-keep, and-true, not-true, ==_refl, ℕ,
}
use open_vibe_codes.Engine.Router.Pick.{Subagent}
use open_vibe_codes.Engine.Router.Ladder.{slot-of, healthy-of}
use open_vibe_codes.Engine.Chain.Attempt.{Reason, Attempt}
use open_vibe_codes.Engine.Chain.Runner.{
  start_at, Options, Takeover, is_enabled, on_model, is_basic, takes, takeover, second_try, differs,
  other_model, same_runner, next_in_order, busy, next_runner,
}

-- A runner that may be given the job: known, on, under its number of jobs and healthy; `pg` only for
-- a basic job.
pub record Fits (o : Options) (k : String) : Type 0 where
  pub known : includes o.runners k ≡ true
  pub subagent : Subagent
  pub configured : lookup k o.subagents ≡ some subagent
  pub on : subagent.enabled ≡ true
  pub slot : get_or (lookup k o.counts) 0 < subagent.max
  pub healthy : lookup k o.health ≡ some "ok"
  pub light : ((k == "pg") ≡ false) ⊎ (o.tier ≡ some "basic")

basic-of :
    (k : String) (tier : Option String)
    → (not (k == "pg") || is_basic tier) ≡ true
    → ((k == "pg") ≡ false) ⊎ (tier ≡ some "basic")
basic-of k none h = inl (ground arith)
basic-of k (some t) h = ground (arith, ==_iff t "basic")

Fits-of : (o : Options) (k : String) → takes o k ≡ true → Fits o k
unfolding takes
Fits-of o k h =
    let (s, configured, on, slot) =
      slot-of (lookup k o.subagents) (get_or (lookup k o.counts) 0) (ground arith) in
    record {
      known = ground arith;
      subagent = s;
      configured = configured;
      on = on;
      slot = slot;
      healthy = healthy-of (lookup k o.health) (ground arith);
      light = basic-of k o.tier (ground arith);
    }

mem-drop {ℓ} : {A : Type ℓ} (n : ℕ) (xs : List A) {x : A} → Memᴰ x (drop n xs) → Memᴰ x xs
mem-drop zero xs m = m
mem-drop (suc n) [] m = m
mem-drop (suc n) (y ∷ xs) m = Memᴰ.tail (mem-drop n xs m)

enabled-of :
    (o : Option Subagent) → is_enabled o ≡ true → (s : Subagent) × (o ≡ some s) × (s.enabled ≡ true)
enabled-of none h = cc
enabled-of (some s) h = (s, refl, h)

-- Another runner takes the job over, or the same one, which is on, on another of the models that are
-- listed for it.
pub data TakesOver (o : Options) (run : Attempt) (why : Option Reason) (t : Takeover) : Type 0 where
  other : t.runner ≢ run.runner → Fits o t.runner → TakesOver o run why t
  another_model :
      (m : String) (s : Subagent)
      → lookup run.runner o.subagents ≡ some s
      → s.enabled ≡ true
      → Memᴰ m (get_or (lookup run.runner o.models) [])
      → why ≡ some Reason.capacity
      → t.runner ≡ run.runner
      → t.model ≡ some m
      → run.model ≢ some m
      → TakesOver o run why t

module _ (o : Options) (run : Attempt) (why : Option Reason) (t : Takeover) where
  ne-of : (k : String) → (k == run.runner) ≡ false → k ≢ run.runner
  ne-of k h e = cc ((==_iff k run.runner).1 e)

  other-of :
      (words k : String)
      → takeover o words k ≡ t
      → (k == run.runner) ≡ false
      → takes o k ≡ true
      → TakesOver o run why t
  unfolding takeover
  other-of words k e differ fits =
      TakesOver.other (λ same. ne-of k differ (ap (λ (x : Takeover). x.runner) e ∙ same))
        (subst (Fits o) (ap (λ (x : Takeover). x.runner) e) (Fits-of o k fits))

  second_try-TakesOver : second_try o run ≡ some t → TakesOver o run why t
  unfolding second_try
  second_try-TakesOver h =
      let (k, found, same) = (Option.map-eq-some_iff _ _).0 h in
      let (fits, listed) = find_sound (takes o) _ found in
      let (may, _) = mem-keep (λ x. includes o.runners x && not (x == run.runner)) o.order listed in
      other-of _ k same (not-true _ (and-true _ _ may).1) fits

  next_in_order-TakesOver :
      (words : String) → next_in_order o run words ≡ some t → TakesOver o run why t
  unfolding next_in_order
  next_in_order-TakesOver words h =
      let (k, found, same) = (Option.map-eq-some_iff _ _).0 h in
      let (may, _) = find_sound (λ x. not (x == run.runner) && takes o x) _ found in
      let (differ, fits) = and-true _ _ may in other-of _ k same (not-true _ differ) fits

  other_model-differs :
      (current : Option String) (list : List String) (m : String)
      → other_model current list ≡ some m
      → current ≢ some m
  unfolding other_model differs
  other_model-differs none list m h e = cc
  other_model-differs (some c) list m h e =
      let (differ, _) = find_sound (differs (some c)) _ h in cc (not-true _ differ, ==_refl m, e)

  other_model-listed :
      (current : Option String) (list : List String) (m : String)
      → other_model current list ≡ some m
      → Memᴰ m list
  unfolding other_model
  other_model-listed current list m h =
      mem-drop (suc (start_at current list)) list (find_sound (differs current) _ h).1

  on_model-of :
      (choice : Option String)
      → on_model run choice ≡ some t
      → (m : String) × (choice ≡ some m) × (t.runner ≡ run.runner) × (t.model ≡ some m)
  unfolding on_model
  on_model-of none h = cc
  on_model-of (some m) h = (m, refl, ground arith, ground arith)

  same_runner-TakesOver :
      why ≡ some Reason.capacity → same_runner o run ≡ some t → TakesOver o run why t
  unfolding same_runner
  same_runner-TakesOver busy_model h =
      elim (Bool-cases (is_enabled (lookup run.runner o.subagents))) [
        | inl on ↦
            let (m, chosen, same, model) = on_model-of _ (rw (on, same_runner) at h) in
            let (s, configured, enabled) = enabled-of (lookup run.runner o.subagents) on in
            TakesOver.another_model m s configured enabled (other_model-listed run.model _ m chosen)
              busy_model same model (other_model-differs run.model _ m chosen)
        | inr off ↦ cc (rw (off, same_runner) at h)
      ]

  busy-TakesOver : why ≡ some Reason.capacity → busy o run ≡ some t → TakesOver o run why t
  unfolding busy
  busy-TakesOver busy_model h = elim (Option-cases (same_runner o run)) [
    | inl e ↦ next_in_order-TakesOver _ (rw (e, busy) at h)
    | inr (t', e) ↦ same_runner-TakesOver busy_model (e ∙ (rw (e, busy) at h))
  ]

-- A failed job is taken over by another runner, which is known, on, under its number of jobs and
-- healthy, and is `pg` only for a basic job; or, when its model was busy, by the same runner, which is
-- on, on a model that is listed for it and is not the run's (its number of jobs and its health are
-- not looked at then). A job that was stopped on purpose is taken over by nobody.
pub next_runner-TakesOver :
    (o : Options) (run : Attempt) (why : Option Reason) (t : Takeover)
    → next_runner o run why ≡ some t
    → (why ≢ some Reason.stopped) × TakesOver o run why t
unfolding next_runner
next_runner-TakesOver o run none t h = (λ e. cc, next_in_order-TakesOver o run none t _ h)
next_runner-TakesOver o run (some Reason.stopped) t h = cc
next_runner-TakesOver o run (some Reason.error) t h = (λ e. cc, second_try-TakesOver o run _ t h)
next_runner-TakesOver o run (some Reason.capacity) t h = (λ e. cc, busy-TakesOver o run _ t refl h)
next_runner-TakesOver o run (some w) t h = (λ e. cc, next_in_order-TakesOver o run _ t _ h)
