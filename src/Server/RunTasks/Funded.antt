-- ===== src/Server/RunTasks/Funded.antt =====
-- server/domain/run-tasks.js: the cache of the connections and what pays for an attempt.
use mathlib.Core.Option.{some-injective}
use mathlib.Core.Path.{subst₂}
use open_vibe_codes.Prelude.{
  ℕ, ◌≡◌, refl, String, Bool, true, false, Option, none, some, List, ◌==◌, string_eq, ltb, lookup,
  if◌then◌else◌, Bool-cases, inl, inr, truthy, ◌&&◌, get_or, ==_iff,
}
use open_vibe_codes.Server.RunTokens.{World, Log, Request, mint}
use open_vibe_codes.Server.RunTasks.Spending.{Caps}
use open_vibe_codes.Server.RunTasks.Funding.{
  Desk, Funds, Funding, person_connections, harness_info, provider_for, keeps_key, has_own_key,
  is_cli, plan_in, plan_for, unfunded, funded_by, mint_for, on_plan, funded, funded_with,
  attempt_env, token_request,
}
use open_vibe_codes.Server.RunTasks.Connected.{
  Kept, Connections, Plan, cached, cached_or, keep_reading, connection_ttl_ms,
}

-- What the service answers now, with no cache between.
abbrev pub direct {ℓ} : {A : Type ℓ} → Option (String → Option A) → String → Option A
direct none subject = none
direct (some read) subject = if subject == "" then none else read subject

-- What the cache still holds is what the service answers now.
abbrev pub IsFresh {ℓ} :
    {A : Type ℓ} → ℕ → Option (String → Option A) → List (String × Kept A) → Type ℓ
IsFresh now read cache =
    (subject : String) (hit : Kept _)
    → lookup subject cache ≡ some hit
    → ltb now hit.until ≡ true
    → hit.value ≡ direct read subject

module _ {ℓ} {A : Type ℓ} (now ttl : ℕ) (read : Option (String → Option A)) where
  keep_reading-IsFresh :
      (subject : String) (cache : List (String × Kept A))
      → IsFresh now read cache
      → IsFresh now read (keep_reading now ttl (direct read subject) subject cache).1
  unfolding keep_reading
  keep_reading-IsFresh subject cache h other hit e k = elim (Bool-cases (subject == other)) [
    | inl same ↦
        let (to, of) = ==_iff subject other in
        subst₂ (λ s (x : Kept A). x.value ≡ direct read s) (to same)
          (some-injective _ _ (rw same at e)) refl
    | inr apart ↦ h other hit (rw apart at e) k
  ]

  cached_or-IsFresh :
      (ask : String → Option A) (subject : String) (found : Option (Kept A))
      (cache : List (String × Kept A))
      → ask subject ≡ direct read subject
      → IsFresh now read cache
      → lookup subject cache ≡ found
      → (cached_or now ttl ask subject found cache).0 ≡ direct read subject
        × IsFresh now read (cached_or now ttl ask subject found cache).1
  unfolding cached_or keep_reading
  cached_or-IsFresh ask subject none cache a h e = rw a (refl, keep_reading-IsFresh subject cache h)
  cached_or-IsFresh ask subject (some hit) cache a h e = elim (Bool-cases (ltb now hit.until)) [
    | inl k ↦ rw k (h subject hit e k, h)
    | inr k ↦ rw (k, a) (refl, keep_reading-IsFresh subject cache h)
  ]

cached-IsFresh {ℓ} :
    {A : Type ℓ} (now ttl : ℕ) (read : Option (String → Option A)) (subject : String)
    (cache : List (String × Kept A))
    → IsFresh now read cache
    → (cached now ttl read subject cache).0 ≡ direct read subject
      × IsFresh now read (cached now ttl read subject cache).1
unfolding cached
cached-IsFresh now ttl none subject cache h = (refl, h)
cached-IsFresh now ttl (some ask) subject cache h = elim (Bool-cases (subject == "")) [
  | inl k ↦ rw k (refl, h)
  | inr k ↦
      rw k (rw k at (cached_or-IsFresh now ttl (some ask) ask subject _ cache (rw k refl) h refl))
]

-- The payment as it follows from the connections: the person's own key, else their own plan of the
-- harness, else a token without a key.
abbrev pub paid_by_plan : Desk → World → Request → Option String → Log → Option Plan → Funding × Log
paid_by_plan d w q agent log (some plan) = (record { env = none; mode = "plan" }, log)
paid_by_plan d w q agent log none =
    (funded_by d agent q.provider false (mint d.js w q log).0, (mint d.js w q log).1)

abbrev pub paid_with_key :
    Desk → World → Request → Option String → Option Connections → Log → Bool → Funding × Log
paid_with_key d w q agent conns log true =
    (funded_by d agent q.provider true (mint d.js w q log).0, (mint d.js w q log).1)
paid_with_key d w q agent conns log false = paid_by_plan d w q agent log (
    if truthy (harness_info d agent).provider && is_cli (harness_info d agent).kind
    then plan_in d.js (get_or (harness_info d agent).provider "") agent conns
    else none)

abbrev pub keeps_own : Option String → Option Connections → Bool
keeps_own none conns = false
keeps_own (some provider) conns = if provider == "" then false else keeps_key provider conns

abbrev pub paid :
    Desk
    → Option World
    → String
    → String
    → Option String
    → Option String
    → Option Caps
    → Option Connections
    → Log
    → Funding × Log
paid d none subject task attempt agent budget conns log = (unfunded, log)
paid d (some w) subject task attempt agent budget conns log =
    paid_with_key d w (token_request d subject task attempt (provider_for d agent) budget) agent
      conns log (keeps_own (provider_for d agent) conns)

-- The cache of the connections is fresh at this desk.
abbrev pub IsCurrent : Desk → Funds → Type 0
IsCurrent d s = IsFresh d.now d.connections s.cache

-- An outcome that is the payment, with a cache that is fresh.
abbrev pub Pays : Desk → Funding × Log → Funding × Funds → Type 0
Pays d p x = x.0 ≡ p.0 × x.1.log ≡ p.1 × IsCurrent d x.1

module _ (d : Desk) where
  person_connections-reads :
      (subject : String) (s : Funds)
      → IsCurrent d s
      → (person_connections d subject s).0 ≡ direct d.connections subject
        × IsCurrent d (person_connections d subject s).1
  unfolding person_connections
  person_connections-reads subject s h =
      cached-IsFresh d.now connection_ttl_ms d.connections subject s.cache h

  person_connections-log :
      (subject : String) (s : Funds) → (person_connections d subject s).1.log ≡ s.log
  unfolding person_connections
  person_connections-log subject s = refl

  has_own_key-reads :
      (subject : String) (provider : Option String) (s : Funds)
      → IsCurrent d s
      → (has_own_key d subject provider s).0 ≡ keeps_own provider (direct d.connections subject)
        × (has_own_key d subject provider s).1.log ≡ s.log
        × IsCurrent d (has_own_key d subject provider s).1
  unfolding has_own_key
  has_own_key-reads subject none s h = (refl, refl, h)
  has_own_key-reads subject (some provider) s h =
      let (value, fresh) = person_connections-reads subject s h in
      elim (Bool-cases (provider == "")) [
        | inl k ↦ rw k (refl, refl, h)
        | inr k ↦ rw (k, value) (refl, person_connections-log subject s, fresh)
      ]

  plan_for-reads :
      (subject : String) (agent : Option String) (s : Funds)
      → IsCurrent d s
      → (plan_for d subject agent s).0 ≡ (
          if truthy (harness_info d agent).provider && is_cli (harness_info d agent).kind
          then plan_in d.js
              (get_or (harness_info d agent).provider "")
              agent
              (direct d.connections subject)
          else none)
        × (plan_for d subject agent s).1.log ≡ s.log
        × IsCurrent d (plan_for d subject agent s).1
  unfolding plan_for
  plan_for-reads subject agent s h =
      let (value, fresh) = person_connections-reads subject s h in
      elim (Bool-cases
        (truthy (harness_info d agent).provider && is_cli (harness_info d agent).kind)) [
          | inl k ↦ rw (k, value) (refl, person_connections-log subject s, fresh)
          | inr k ↦ rw k (refl, refl, h)
        ]

  on_plan-Pays :
      (w : World) (q : Request) (agent : Option String) (plan : Option Plan) (s : Funds)
      → IsCurrent d s
      → Pays d (paid_by_plan d w q agent s.log plan) (on_plan d w q agent plan s)
  unfolding on_plan mint_for
  on_plan-Pays w q agent (some plan) s h = (refl, refl, h)
  on_plan-Pays w q agent none s h = (refl, refl, h)

  funded-Pays :
      (w : World) (q : Request) (agent : Option String) (own : Bool) (s : Funds)
      → IsCurrent d s
      → Pays d
          (paid_with_key d w q agent (direct d.connections q.subject) s.log own)
          (funded d w q agent own s)
  unfolding funded mint_for
  funded-Pays w q agent true s h = (refl, refl, h)
  funded-Pays w q agent false s h =
      let (plan, kept, fresh) = plan_for-reads q.subject agent s h in
      subst₂ (λ p log. Pays d (paid_by_plan d w q agent log p) (funded d w q agent false s)) plan
        kept (on_plan-Pays w q agent _ _ fresh)

  funded_with-Pays :
      (tokens : Option World) (subject task : String) (attempt agent : Option String)
      (budget : Option Caps) (s : Funds)
      → IsCurrent d s
      → Pays d
          (paid d tokens subject task attempt agent budget (direct d.connections subject) s.log)
          (funded_with d tokens subject task attempt agent budget s)
  unfolding funded_with token_request
  funded_with-Pays none subject task attempt agent budget s h = (refl, refl, h)
  funded_with-Pays (some w) subject task attempt agent budget s h =
      let (own, kept, fresh) = has_own_key-reads subject (provider_for d agent) s h in
      subst₂
        (λ o log.
          Pays d
            (paid_with_key d w (token_request d subject task attempt (provider_for d agent) budget)
              agent (direct d.connections subject) log o)
            (funded_with d (some w) subject task attempt agent budget s))
        own kept
        (funded-Pays w (token_request d subject task attempt (provider_for d agent) budget) agent _
          _ fresh)

-- For a cache that holds, of what is not past its time, what the service answers now: what pays for an
-- attempt is what the person's connections say now. Without run tokens nothing pays; with the person's
-- own key for the harness's provider a token with that key is minted, whatever their plans; without it
-- a plan of theirs for a command-line harness pays, and then no token is written; in every other case
-- a token without a key is minted, and a refusal leaves the attempt without an environment. The cache
-- afterwards holds what the service answers as well.
pub attempt_env-Pays :
    (d : Desk) (subject task : String) (attempt agent : Option String) (budget : Option Caps)
    (s : Funds)
    → IsCurrent d s
    → Pays d
        (paid d d.tokens subject task attempt agent budget (direct d.connections subject) s.log)
        (attempt_env d subject task attempt agent budget s)
unfolding attempt_env
attempt_env-Pays d subject task attempt agent budget s h =
    funded_with-Pays d d.tokens subject task attempt agent budget s h
