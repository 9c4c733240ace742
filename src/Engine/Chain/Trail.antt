-- ===== src/Engine/Chain/Trail.antt =====
-- engine/chain.js, `settleChain`: the trail of a chain has no run twice, stays in the runs, and ends
-- where no run leads on.
use open_vibe_codes.Prelude.{
  ℕ, zero, suc, ◌≤◌, ◌≡◌, refl, ◌⊎◌, inl, inr, sym, Bool, true, false, none, some, List, [], ◌∷◌,
  ◌++◌, arith, Bool-cases, Option-cases, All, any, length, string_eq, ◌||◌,
}
use mathlib.Core.List.{append-nil, append_assoc}
use mathlib.Core.Path.{◌∙◌, ap, subst}
use open_vibe_codes.Engine.Chain.Attempt.{Attempt}
use open_vibe_codes.Engine.Chain.Settle.{
  step_of, same_run, trail_from, trail, last_of, settle_chain,
}

-- No two runs of the list have one key.
abbrev pub HasDistinctKeys : List Attempt → Type 0
HasDistinctKeys [] = Unit
HasDistinctKeys (r ∷ rs) = All (λ x. same_run x r ≡ false) rs × HasDistinctKeys rs

any-append :
    (p : Attempt → Bool) (xs : List Attempt) (y : Attempt)
    → any p (xs ++ y ∷ []) ≡ (any p xs || p y)
any-append p [] y = ground arith
any-append p (x ∷ xs) y = ground (arith, any-append p xs y)

-- Each run of the trail is the one that its predecessor leads to.
abbrev pub IsPath : List Attempt → Attempt → Attempt → List Attempt → Type 0
IsPath runs start r [] = Unit
IsPath runs start r (next ∷ rest) = (step_of runs start r ≡ some next) × IsPath runs start next rest

-- Nothing leads on from the run, or what it leads to is on the trail.
abbrev pub EndsAt : List Attempt → Attempt → List Attempt → Attempt → Type 0
EndsAt runs start trail end =
    (step_of runs start end ≡ none)
    ⊎ ((next : Attempt) × (step_of runs start end ≡ some next) × (any (same_run next) trail ≡ true))

All-snoc :
    (P : Attempt → Type 0) (xs : List Attempt) (y : Attempt) → All P xs → P y → All P (xs ++ y ∷ [])
All-snoc P [] y h k = (k, tt)
All-snoc P (x ∷ xs) y (h, hs) k = (h, All-snoc P xs y hs k)

HasDistinctKeys-snoc :
    (xs : List Attempt) (y : Attempt)
    → HasDistinctKeys xs
    → any (same_run y) xs ≡ false
    → HasDistinctKeys (xs ++ y ∷ [])
HasDistinctKeys-snoc [] y h k = (tt, tt)
HasDistinctKeys-snoc (x ∷ xs) y (h, hs) k = (
  All-snoc (λ z. same_run z x ≡ false) xs y h (ground arith),
  HasDistinctKeys-snoc xs y hs (ground arith),
)

-- What the loop adds to a trail that ends in `end`.
record Follows (runs : List Attempt) (start : Attempt) (rounds : ℕ) (before : List Attempt)
    (end : Attempt) (result : List Attempt) : Type 0 where
  more : List Attempt
  added : result ≡ before ++ more
  path : IsPath runs start end more
  bounded : length more ≤ rounds
  distinct : HasDistinctKeys result
  ends : EndsAt runs start result (last_of end more) ⊎ (length more ≡ rounds)

trail_from-Follows :
    (runs : List Attempt) (start : Attempt) (rounds : ℕ) (before : List Attempt) (end : Attempt)
    → HasDistinctKeys before
    → Follows runs start rounds before end (trail_from rounds runs start before end)
unfolding trail_from last_of
trail_from-Follows runs start zero before end d = record {
  more = [];
  added = sym (append-nil before);
  path = tt;
  bounded = omega arith;
  distinct = d;
  ends = inr refl;
}
trail_from-Follows runs start (suc rounds) before end d =
    elim (Option-cases (step_of runs start end)) [
      | inl e ↦
          rw (e, trail_from)
            (record {
              more = [];
              added = sym (append-nil before);
              path = tt;
              bounded = omega arith;
              distinct = d;
              ends = inl (inl e);
            })
      | inr (next, e) ↦ elim (Bool-cases (any (same_run next) before)) [
        | inl seen ↦
            rw (e, trail_from)
              (rw seen (record {
                more = [];
                added = sym (append-nil before);
                path = tt;
                bounded = omega arith;
                distinct = d;
                ends = inl (inr (next, e, seen));
              }))
        | inr new ↦
            let later =
              trail_from-Follows runs start rounds (before ++ next ∷ []) next
                (HasDistinctKeys-snoc before next d new) in
            rw (e, trail_from)
              (rw new (record {
                more = next ∷ later.more;
                added = later.added ∙ append_assoc before (next ∷ []) later.more;
                path = (e, later.path);
                bounded = omega (arith, later.bounded);
                distinct = later.distinct;
                ends = elim later.ends [ inl at ↦ inl at | inr full ↦ inr (ap suc full) ];
              }))
      ]
    ]

-- How a chain settles.
pub record IsSettled (runs : List Attempt) (start : Attempt) (trail : List Attempt) (end : Attempt)
    : Type 0 where
  pub more : List Attempt
  pub begins : trail ≡ start ∷ more
  pub path : IsPath runs start start more
  pub bounded : length trail ≤ 13
  pub distinct : HasDistinctKeys trail
  pub last : end ≡ last_of start more
  pub ends : EndsAt runs start trail end ⊎ (length trail ≡ 13)

-- The trail of a chain begins at its start, visits no run twice, follows each run's successor, takes
-- twelve steps at most, and the run that it settles on is its last: one that nothing leads on from
-- (or only back to the trail), unless the twelve steps were used up.
pub settle_chain-IsSettled :
    (runs : List Attempt) (start : Attempt)
    → IsSettled runs start (trail runs start) (settle_chain runs start)
unfolding settle_chain trail last_of
settle_chain-IsSettled runs start =
    let f = trail_from-Follows runs start 12 (start ∷ []) start (tt, tt) in
    let last : last_of start (trail_from 12 runs start (start ∷ []) start) ≡ last_of start f.more =
      ap (last_of start) f.added in
    record {
      more = f.more;
      begins = f.added;
      path = f.path;
      bounded = omega (arith, ap (length {A = Attempt}) f.added, f.bounded);
      distinct = f.distinct;
      last = last;
      ends = elim f.ends [
        | inl at ↦ inl (subst (EndsAt runs start _) (sym last) at)
        | inr full ↦ inr (omega (arith, ap (length {A = Attempt}) f.added, full))
      ];
    }
