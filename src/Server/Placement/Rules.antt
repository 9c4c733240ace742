-- ===== src/Server/Placement/Rules.antt =====
-- server/domain/harness-placement.js: the person's rules hold of every offer that the planner sees.
use mathlib.Core.List.{Memᴰ}
use mathlib.Core.Option.{some-injective}
use mathlib.Core.Path.{subst}
use open_vibe_codes.Prelude.{
  mem-keep, ◌≡◌, refl, inl, inr, ap, String, Bool, true, false, ◌||◌, Option, none, some, List, [],
  ◌∷◌, ◌++◌, map, arith, Bool-cases, All, keep, includes, ◌==◌, string_eq, nat_eq, if◌then◌else◌,
  ==_refl, lookup,
}
use open_vibe_codes.Server.Placement.{
  Offer, Requirements, PlacementContext, wanted, owned_by, on_own_machine, costs_nothing, free_only,
  offers_under, set_from, requirements_of, requirements_for, tasks,
}

keep-All {ℓ} :
    {A : Type 0} (P : A → Type ℓ) (p : A → Bool) (xs : List A) → All P xs → All P (keep p xs)
keep-All P p [] h = tt
keep-All P p (x ∷ xs) (h, hs) = elim (Bool-cases (p x)) [
  | inl e ↦ rw e (h, keep-All P p xs hs)
  | inr e ↦ rw e (keep-All P p xs hs)
]

keep-passes : {A : Type 0} (p : A → Bool) (xs : List A) → All (λ x. p x ≡ true) (keep p xs)
keep-passes p [] = tt
keep-passes p (x ∷ xs) = elim (Bool-cases (p x)) [
  | inl e ↦ rw e (e, keep-passes p xs)
  | inr e ↦ rw e (keep-passes p xs)
]

-- An offer stands on the person's own machine: it is one of those given, for a harness that the machine
-- runs, with the person as its owner and nothing else changed.
pub record IsOwn (person : String) (agents : List String) (offers : List Offer) (o : Offer)
    : Type 0 where
  pub source : Offer
  pub listed : Memᴰ source offers
  pub runs : includes agents source.harness ≡ true
  pub same : o ≡ record source { trust = "user-owned"; owner = some person }

map-owned :
    (person : String) (agents : List String) (offers xs : List Offer)
    → ((x : Offer) → Memᴰ x xs → (includes agents x.harness ≡ true) × Memᴰ x offers)
    → All (IsOwn person agents offers) (map (owned_by person) xs)
unfolding owned_by
map-owned person agents offers [] h = tt
map-owned person agents offers (x ∷ xs) h =
    let (runs, listed) = h x (Memᴰ.head refl) in
    (
      record { source = x; listed = listed; runs = runs; same = refl },
      map-owned person agents offers xs (λ y m. h y (Memᴰ.tail m)),
    )

wanted-listed :
    (agent : Option String) (offers : List Offer) {x : Offer}
    → Memᴰ x (wanted agent offers)
    → Memᴰ x offers
unfolding wanted
wanted-listed none offers m = m
wanted-listed (some agent) offers m = elim (Bool-cases (agent == "")) [
  | inl e ↦ rw e at m
  | inr e ↦ (mem-keep (λ (o : Offer). o.harness == agent) offers (rw e at m)).1
]

free_only-All {ℓ} :
    (P : Offer → Type ℓ) (only_free : Bool) (person : String) (offers : List Offer)
    → All P offers
    → All P (free_only only_free person offers)
unfolding free_only
free_only-All P true person offers h = keep-All P (costs_nothing person) offers h
free_only-All P false person offers h = h

free_only-costs_nothing :
    (only_free : Bool) (person : String) (offers : List Offer)
    → only_free ≡ true
    → All (λ o. costs_nothing person o ≡ true) (free_only only_free person offers)
unfolding free_only
free_only-costs_nothing true person offers h = keep-passes (costs_nothing person) offers
free_only-costs_nothing false person offers h = cc

own_machine-used :
    (no_cloud : Bool) (own : Option (List String)) (agents : List String)
    → no_cloud ≡ true
    → own ≡ some agents
    → some agents ≡ (if no_cloud then own else none)
own_machine-used no_cloud own agents e f = rw (e, f) refl

on_own_machine-IsOwn :
    (person : String) (agents : List String) (agent : Option String) (offers : List Offer)
    → All (IsOwn person agents offers) (on_own_machine person (some agents) (wanted agent offers))
unfolding on_own_machine
on_own_machine-IsOwn person agents agent offers =
    map-owned person agents offers (keep (λ o. includes agents o.harness) (wanted agent offers))
      (λ x m.
        let (runs, listed) = mem-keep (λ (o : Offer). includes agents o.harness) _ m in
        (runs, wanted-listed agent offers listed))

-- With noCloud, and where the person's own machine is known, every offer that the planner sees is one
-- of those given, for a harness that this machine runs, with the person as its owner and nothing else
-- changed. Of a person whose machine is not known nothing is said: no offer is made their own then, and
-- it is the planner's rule that refuses them.
pub offers_under-IsOwn :
    (ctx : PlacementContext) (agents : List String) (offers : List Offer)
    → ctx.no_cloud ≡ true
    → ctx.own_machine ≡ some agents
    → All (IsOwn ctx.person agents offers) (offers_under ctx offers)
unfolding offers_under
offers_under-IsOwn ctx agents offers e f =
    free_only-All (IsOwn ctx.person agents offers) ctx.only_free ctx.person _ (
      subst
        (λ own.
          All (IsOwn ctx.person agents offers)
            (on_own_machine ctx.person own (wanted ctx.only_agent offers)))
        (own_machine-used ctx.no_cloud ctx.own_machine agents e f)
        (on_own_machine-IsOwn ctx.person agents ctx.only_agent offers))

-- With onlyFree, every offer that the planner sees is the person's own or costs nothing.
pub offers_under-costs_nothing :
    (ctx : PlacementContext) (offers : List Offer)
    → ctx.only_free ≡ true
    → All (λ o. costs_nothing ctx.person o ≡ true) (offers_under ctx offers)
unfolding offers_under
offers_under-costs_nothing ctx offers e = free_only-costs_nothing ctx.only_free ctx.person _ e

-- A list without a text twice, built at its end.
pub data HasNoRepeats : List String → Type 0 where
  start : HasNoRepeats []
  add :
      (xs : List String) (x : String)
      → HasNoRepeats xs
      → includes xs x ≡ false
      → HasNoRepeats (xs ++ x ∷ [])

set_from-HasNoRepeats :
    (seen xs : List String) → HasNoRepeats seen → HasNoRepeats (set_from seen xs)
unfolding set_from
set_from-HasNoRepeats seen [] h = h
set_from-HasNoRepeats seen (x ∷ xs) h = elim (Bool-cases (includes seen x)) [
  | inl e ↦ rw e (set_from-HasNoRepeats seen xs h)
  | inr e ↦ rw e (set_from-HasNoRepeats (seen ++ x ∷ []) xs (HasNoRepeats.add seen x h e))
]

or-keeps : (a b : Bool) → a ≡ true → (a || b) ≡ true
or-keeps a b h = ground arith

includes-more :
    (xs ys : List String) (a : String) → includes xs a ≡ true → includes (xs ++ ys) a ≡ true
includes-more [] ys a h = cc
includes-more (x ∷ xs) ys a h = elim (Bool-cases (x == a)) [
  | inl e ↦ rw e refl
  | inr e ↦ rw e (includes-more xs ys a (rw e at h))
]

includes-last : (xs : List String) (a : String) → includes (xs ++ a ∷ []) a ≡ true
includes-last [] a = rw (==_refl a) refl
includes-last (x ∷ xs) a = elim (Bool-cases (x == a)) [
  | inl e ↦ rw e refl
  | inr e ↦ rw e (includes-last xs a)
]

set_from-seen :
    (seen xs : List String) (a : String)
    → includes seen a ≡ true
    → includes (set_from seen xs) a ≡ true
unfolding set_from
set_from-seen seen [] a h = h
set_from-seen seen (x ∷ xs) a h = elim (Bool-cases (includes seen x)) [
  | inl e ↦ rw e (set_from-seen seen xs a h)
  | inr e ↦ rw e (set_from-seen (seen ++ x ∷ []) xs a (includes-more seen (x ∷ []) a h))
]

includes-next :
    (seen : List String) (x : String)
    → includes (if includes seen x then seen else seen ++ x ∷ []) x ≡ true
includes-next seen x = elim (Bool-cases (includes seen x)) [
  | inl e ↦ rw e e
  | inr e ↦ rw e (includes-last seen x)
]

set_from-All :
    (seen xs ys : List String) → All (λ a. includes (set_from seen (xs ++ ys)) a ≡ true) xs
unfolding set_from
set_from-All seen [] ys = tt
set_from-All seen (x ∷ xs) ys =
    let next = if includes seen x then seen else seen ++ x ∷ [] in
    (set_from-seen next (xs ++ ys) x (includes-next seen x), set_from-All next xs ys)

-- A known task asks for each capability once, and for all that its row of the table names, whatever
-- the caller adds.
pub requirements_for-HasNoRepeats :
    (task : String) (extra needed : List String) (req : Requirements)
    → lookup task tasks ≡ some needed
    → requirements_for task extra ≡ some req
    → HasNoRepeats req.capabilities × All (λ a. includes req.capabilities a ≡ true) needed
unfolding requirements_for requirements_of
requirements_for-HasNoRepeats task extra needed req e h =
    let same : set_from [] (needed ++ extra) ≡ req.capabilities =
      ap (λ r. r.capabilities)
        (some-injective _ _ (rw (e, requirements_for, requirements_of) at h)) in
    subst (λ caps. HasNoRepeats caps × All (λ a. includes caps a ≡ true) needed) same
      (set_from-HasNoRepeats [] (needed ++ extra) HasNoRepeats.start, set_from-All [] needed extra)
