-- ===== src/Server/RunTasks/Ordered.antt =====
-- server/domain/run-tasks.js: the states that are delivered for one task, in any order.
use mathlib.Core.List.{Perm, foldr}
use mathlib.Core.List.Perm
use open_vibe_codes.Prelude.{
  ℕ, zero, suc, max, ◌≡◌, refl, ap, sym, ◌∙◌, String, Bool, true, false, ◌&&◌, some, List, [], ◌∷◌,
  map, arith, ◌==◌, string_eq, and-true,
}
use open_vibe_codes.Server.Outbox.Emit.{World}
use open_vibe_codes.Server.RunTasks.{Db}
use open_vibe_codes.Server.RunTasks.Spending.{Env}
use open_vibe_codes.Server.RunTasks.Record.{Next, record_state}
use open_vibe_codes.Server.RunTasks.Advance.{
  End, succeeded, failed, cancelled, expired, Phase, queued, placed, running, ended, word, arrive,
  level,
}
use open_vibe_codes.Server.RunTasks.Delivered.{state_of, record_state-Refines}

-- A delivery: where the job stands, what came with it, and what is drawn for its event.
pub record Sent : Type 0 where
  pub world : World
  pub phase : Phase
  pub rest : Next

-- The deliveries, one after another.
abbrev pub deliver : Env → String → List Sent → Db → Db
deliver env id [] db = db
deliver env id (s ∷ sent) db =
    deliver env id sent (record_state env s.world id (record s.rest { state = word s.phase }) db)

abbrev arrive_all : Phase → List Phase → Phase
arrive_all p [] = p
arrive_all p (s ∷ phases) = arrive_all (arrive p s) phases

abbrev same_end : End → End → Bool
same_end succeeded succeeded = true
same_end failed failed = true
same_end cancelled cancelled = true
same_end expired expired = true
same_end _ _ = false

-- A phase that is no other end.
abbrev pub agrees : End → Phase → Bool
agrees e (ended d) = same_end e d
agrees e _ = true

abbrev pub agree_all : End → List Phase → Bool
agree_all e phases = foldr (λ s b. agrees e s && b) true phases

state_of-deliver :
    (env : Env) (id : String) (sent : List Sent) (db : Db) (p : Phase)
    → (id == "") ≡ false
    → state_of db id ≡ some (word p)
    → state_of (deliver env id sent db) id
      ≡ some (word (arrive_all p (map (λ (s : Sent). s.phase) sent)))
state_of-deliver env id [] db p named at = at
state_of-deliver env id (s ∷ sent) db p named at =
    state_of-deliver env id sent _ (arrive p s.phase) named
      (record_state-Refines env s.world id (record s.rest { state = word s.phase }) db p s.phase
        named at refl).state

-- The phase of a level, with the one end that may come.
abbrev top : End → ℕ → Phase
top e zero = queued
top e (suc zero) = placed
top e (suc (suc zero)) = running
top e (suc (suc (suc n))) = ended e

same_end-eq : (d e : End) → same_end d e ≡ true → e ≡ d
same_end-eq succeeded succeeded h = refl
same_end-eq failed failed h = refl
same_end-eq cancelled cancelled h = refl
same_end-eq expired expired h = refl
same_end-eq _ _ h = cc

top-level : (e : End) (p : Phase) → agrees e p ≡ true → p ≡ top e (level p)
top-level e queued h = refl
top-level e placed h = refl
top-level e running h = refl
top-level e (ended d) h = ap ended (same_end-eq e d h)

max-level : (n : ℕ) (s : Phase) → max (suc (suc (suc n))) (level s) ≡ suc (suc (suc n))
max-level n queued = omega arith
max-level n placed = omega arith
max-level n running = omega arith
max-level n (ended e) = omega arith

foldr-max : (n k : ℕ) (levels : List ℕ) → foldr max (max n k) levels ≡ max k (foldr max n levels)
foldr-max n k [] = omega arith
foldr-max n k (l ∷ levels) = omega (arith, foldr-max n k levels)

top-max : (e : End) (n : ℕ) (s : Phase) → top e (max (suc (suc (suc n))) (level s)) ≡ ended e
top-max e n s = ap (top e) (max-level n s)

arrive-top :
    (e : End) (n : ℕ) (s : Phase) → agrees e s ≡ true → arrive (top e n) s ≡ top e (max n (level s))
unfolding arrive
arrive-top e zero queued h = refl
arrive-top e zero placed h = refl
arrive-top e zero running h = refl
arrive-top e zero (ended d) h = ap ended (same_end-eq e d h)
arrive-top e (suc zero) queued h = refl
arrive-top e (suc zero) placed h = refl
arrive-top e (suc zero) running h = refl
arrive-top e (suc zero) (ended d) h = ap ended (same_end-eq e d h)
arrive-top e (suc (suc zero)) queued h = refl
arrive-top e (suc (suc zero)) placed h = refl
arrive-top e (suc (suc zero)) running h = refl
arrive-top e (suc (suc zero)) (ended d) h = ap ended (same_end-eq e d h)
arrive-top e (suc (suc (suc n))) s h = sym (top-max e n s)

arrive_all-top :
    (e : End) (phases : List Phase) (n : ℕ)
    → agree_all e phases ≡ true
    → arrive_all (top e n) phases ≡ top e (foldr max n (map level phases))
arrive_all-top e [] n h = refl
arrive_all-top e (s ∷ phases) n h =
    let (agrees, rest) = and-true _ _ h in
    rw (arrive-top e n s agrees) (
      arrive_all-top e phases (max n (level s)) rest
      ∙ ap (top e) (foldr-max n (level s) (map level phases)))

agree_all-Perm : (e : End) {xs ys : List Phase} → Perm xs ys → agree_all e xs ≡ agree_all e ys
agree_all-Perm e p =
    Perm.foldr-eq (hlevel) (λ (s : Phase) (b : Bool). agrees e s && b)
      (λ (s t : Phase) (b : Bool). and_swap (agrees e s) (agrees e t) b) p true
  where
    and_swap : (a b c : Bool) → (a && (b && c)) ≡ (b && (a && c))
    and_swap a b c = ground arith

max-swap : (a b c : ℕ) → max a (max b c) ≡ max b (max a c)
max-swap a b c = omega arith

levels-Perm :
    {xs ys : List Phase} (n : ℕ)
    → Perm xs ys
    → foldr max n (map level xs) ≡ foldr max n (map level ys)
levels-Perm n p = Perm.foldr-eq (hlevel) max max-swap (Perm.map level p) n

arrive_all-ended : (d : End) (phases : List Phase) → arrive_all (ended d) phases ≡ ended d
unfolding arrive
arrive_all-ended d [] = refl
arrive_all-ended d (s ∷ phases) = arrive_all-ended d phases

arrive_all-open :
    (e : End) (p : Phase) (xs ys : List Phase)
    → agrees e p ≡ true
    → Perm xs ys
    → agree_all e xs ≡ true
    → arrive_all p xs ≡ arrive_all p ys
arrive_all-open e p xs ys agree perm h =
    let from = top-level e p agree in
    ap (λ q. arrive_all q xs) from
    ∙ (arrive_all-top e xs (level p) h
        ∙ (ap (top e) (levels-Perm (level p) perm)
            ∙ (sym (arrive_all-top e ys (level p) (sym (agree_all-Perm e perm) ∙ h))
                ∙ ap (λ q. arrive_all q ys) (sym from))))

arrive_all-Perm :
    (e : End) (p : Phase) (xs ys : List Phase)
    → Perm xs ys
    → agree_all e xs ≡ true
    → arrive_all p xs ≡ arrive_all p ys
arrive_all-Perm e (ended d) xs ys perm h = arrive_all-ended d xs ∙ sym (arrive_all-ended d ys)
arrive_all-Perm e queued xs ys perm h = arrive_all-open e queued xs ys refl perm h
arrive_all-Perm e placed xs ys perm h = arrive_all-open e placed xs ys refl perm h
arrive_all-Perm e running xs ys perm h = arrive_all-open e running xs ys refl perm h

-- Deliveries that name at most one end leave the task in the same state in whatever order they come.
pub deliver-any_order :
    (env : Env) (id : String) (e : End) (xs ys : List Sent) (db : Db) (p : Phase)
    → (id == "") ≡ false
    → state_of db id ≡ some (word p)
    → Perm xs ys
    → agree_all e (map (λ (s : Sent). s.phase) xs) ≡ true
    → state_of (deliver env id xs db) id ≡ state_of (deliver env id ys db) id
deliver-any_order env id e xs ys db p named at perm one =
    state_of-deliver env id xs db p named at
    ∙ (ap (λ q. some (word q)) (arrive_all-Perm e p _ _ (Perm.map (λ (s : Sent). s.phase) perm) one)
        ∙ sym (state_of-deliver env id ys db p named at))
