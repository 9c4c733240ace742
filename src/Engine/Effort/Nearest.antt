-- ===== src/Engine/Effort/Nearest.antt =====
-- engine/effort.js, `fitEffort`: the search for the nearest level, against its description.
use open_vibe_codes.Prelude.{
  ℕ, zero, suc, ◌+◌, ◌-◌, ◌≤◌, ◌<◌, ◌≡◌, refl, ap, ◌∙◌, String, Bool, true, false, none, some, List,
  [], ◌∷◌, arith, ◌⊎◌, inl, inr, Bool-cases, includes, index_of, get_elem?, get_elem?-index_of,
  get_elem?-lt-length, is_nil, ◌==◌, string_eq, ==_iff, lookup, get_or, length,
}
use native.Mathlib.Decide.{ℕ_discrete}
use mathlib.Core.Option.{some-injective}
use open_vibe_codes.Engine.Effort.{
  efforts, order, accepts, below, nearest, fit_in, harness_of, fit_effort,
}

abbrev pub dist : ℕ → ℕ → ℕ
dist a b = a - b + (b - a)

-- Index i passes, nothing that passes is closer to `at`, and nothing as close is higher.
pub record IsNearest (ok : ℕ → Bool) (at i : ℕ) : Type 0 where
  pub passes : ok i ≡ true
  pub closest : (j : ℕ) → ok j ≡ true → dist at i ≤ dist at j
  pub tie_up : (j : ℕ) → ok j ≡ true → dist at j ≡ dist at i → j ≤ i

-- The same, among the indices at distance d or more.
record IsNearestFrom (ok : ℕ → Bool) (at d i : ℕ) : Type 0 where
  passes : ok i ≡ true
  closest : (j : ℕ) → ok j ≡ true → d ≤ dist at j → dist at i ≤ dist at j
  tie_up : (j : ℕ) → ok j ≡ true → d ≤ dist at j → dist at j ≡ dist at i → j ≤ i

module _ (ok : ℕ → Bool) (at : ℕ) where
  at_distance : (d j : ℕ) → dist at j ≡ d → (j ≡ at + d) ⊎ ((d ≤ at) × (j ≡ at - d))
  at_distance d j h = grind arith

  below-true : (d : ℕ) → below ok at d ≡ true → (d ≤ at) × (ok (at - d) ≡ true)
  unfolding below
  below-true d h = ground arith

  below-false : (d : ℕ) → below ok at d ≡ false → d ≤ at → ok (at - d) ≡ false
  unfolding below
  below-false d h k = ground arith

  -- With neither side passing at distance d, what passes lies further away.
  further :
      (d j : ℕ)
      → ok (at + d) ≡ false
      → below ok at d ≡ false
      → ok j ≡ true
      → d ≤ dist at j
      → d + 1 ≤ dist at j
  further d j up down h k = elim (ℕ_discrete (dist at j) d) [
    | yes e ↦ elim (at_distance d j e) [ inl p ↦ cc | inr (le, p) ↦ cc (below-false d down le) ]
    | no n ↦ omega arith
  ]

  nearest_sound : (rounds d i : ℕ) → nearest ok at rounds d ≡ some i → IsNearestFrom ok at d i
  unfolding nearest
  nearest_sound zero d i h = cc
  nearest_sound (suc rounds) d i h = elim (Bool-cases (ok (at + d))) [
    | inl up ↦
        let here = some-injective _ _ (rw up at h) in
        rw (← here) (record {
          passes = up;
          closest = λ j passes le. omega arith;
          tie_up = λ j passes le tie. omega arith;
        })
    | inr up ↦ elim (Bool-cases (below ok at d)) [
      | inl down ↦
          let here = some-injective _ _ (rw (up, down) at h) in
          let (le, found) = below-true d down in
          rw (← here) (record {
            passes = found;
            closest = λ j passes far. omega arith;
            tie_up = λ j passes far tie. elim (at_distance d j (omega arith)) [
              | inl p ↦ cc
              | inr (_, p) ↦ omega arith
            ];
          })
      | inr down ↦
          let later = nearest_sound rounds (d + 1) i (rw (up, down) at h) in
          record {
            passes = later.passes;
            closest = λ j passes far. later.closest j passes (further d j up down passes far);
            tie_up = λ j passes far. later.tie_up j passes (further d j up down passes far);
          }
    ]
  ]

  -- An index that passes within the rounds is not missed.
  nearest_complete :
      (rounds d j : ℕ)
      → ok j ≡ true
      → d ≤ dist at j
      → dist at j < d + rounds
      → (i : ℕ) × (nearest ok at rounds d ≡ some i)
  unfolding nearest
  nearest_complete zero d j h far near = absurd (omega arith)
  nearest_complete (suc rounds) d j h far near = elim (Bool-cases (ok (at + d))) [
    | inl up ↦ (at + d, rw up)
    | inr up ↦ elim (Bool-cases (below ok at d)) [
      | inl down ↦ (at - d, rw (up, down))
      | inr down ↦
          let next = further d j up down h far in
          let (i, found) = nearest_complete rounds (d + 1) j h next (omega arith) in
          (i, rw (up, down) found)
    ]
  ]

  nearest-IsNearest :
      (rounds j : ℕ)
      → ok j ≡ true
      → dist at j < rounds
      → (i : ℕ) × (nearest ok at rounds 0 ≡ some i) × IsNearest ok at i
  nearest-IsNearest rounds j h near =
      let (i, found) = nearest_complete rounds 0 j h (omega arith) (omega arith) in
      let from = nearest_sound rounds 0 i found in
      (
        i,
        found,
        record {
          passes = from.passes;
          closest = λ k passes. from.closest k passes (omega arith);
          tie_up = λ k passes. from.tie_up k passes (omega arith);
        },
      )

-- What the list accepts is a level of the order.
accepts-get :
    (levels list : List String) (i : ℕ)
    → accepts levels list i ≡ true
    → (r : String) × (get_elem? levels i ≡ some r) × (includes list r ≡ true)
unfolding accepts
accepts-get levels list i h = ground arith

accepts_of_get :
    (levels list : List String) (i : ℕ) (r : String)
    → get_elem? levels i ≡ some r
    → includes list r ≡ true
    → accepts levels list i ≡ true
unfolding accepts
accepts_of_get levels list i r h k = rw (h, accepts) k

accepts-lt-length :
    (levels list : List String) (i : ℕ) → accepts levels list i ≡ true → i < length levels
accepts-lt-length levels list i h =
    let (r, found, _) = accepts-get levels list i h in get_elem?-lt-length levels i r found

is_nil-false : (list : List String) (r : String) → includes list r ≡ true → is_nil list ≡ false
is_nil-false [] r h = cc
is_nil-false (x ∷ xs) r h = refl

module _ (levels list : List String) (named : index_of levels "" ≡ none) (e : String) (at : ℕ)
    (known : index_of levels e ≡ some at) where
  level_at : get_elem? levels at ≡ some e
  level_at = get_elem?-index_of levels e at known

  e-ne-empty : (e == "") ≡ false
  e-ne-empty = elim (Bool-cases (e == "")) [
    | inl same ↦ cc ((==_iff e "").0 same)
    | inr other ↦ other
  ]

  -- A level that the list holds is kept, and is the nearest.
  at-IsNearest : includes list e ≡ true → IsNearest (accepts levels list) at at
  at-IsNearest held = record {
    passes = accepts_of_get levels list at e level_at held;
    closest = λ j passes. omega arith;
    tie_up = λ j passes tie. omega arith;
  }

  fit_in-IsNearest :
      (j : ℕ)
      → accepts levels list j ≡ true
      → (i : ℕ) × (r : String) × (fit_in levels list (some e) ≡ some r)
        × (get_elem? levels i ≡ some r)
        × (includes list r ≡ true)
        × IsNearest (accepts levels list) at i
  unfolding fit_in
  fit_in-IsNearest j h = elim (Bool-cases (includes list e)) [
    | inl held ↦
        (at, e, rw (e-ne-empty, is_nil-false list e held, held), level_at, held, at-IsNearest held)
    | inr missing ↦
        let near : dist at j < length levels =
          omega
            (arith, accepts-lt-length levels list j h, get_elem?-lt-length levels at e level_at) in
        let (i, found, best) =
          nearest-IsNearest (accepts levels list) at (length levels) j h near in
        let (r, level, held) = accepts-get levels list i best.passes in
        let some_level = is_nil-false list r held in
        (i, r, rw (e-ne-empty, some_level, missing, known, found) level, level, held, best)
  ]

-- For a harness of the catalog that has levels, and a wanted level that the order knows, `fitEffort`
-- answers a level that the harness accepts, the nearest of those to the wanted one, and of two
-- equally near the higher. The harness id may be any spelling that `harnessOf` maps to the catalog.
pub fit_effort-IsNearest :
    (lower : String → String) (runner e : String) (list : List String) (at j : ℕ)
    → lookup (harness_of lower (some runner)) efforts ≡ some list
    → index_of order e ≡ some at
    → accepts order list j ≡ true
    → (i : ℕ) × (r : String) × (fit_effort lower runner (some e) ≡ some r)
      × (get_elem? order i ≡ some r)
      × (includes list r ≡ true)
      × IsNearest (accepts order list) at i
unfolding fit_effort
fit_effort-IsNearest lower runner e list at j offered known h =
    let (i, r, fit, level, held, best) = fit_in-IsNearest order list refl e at known j h in
    (i, r, ap (λ l. fit_in order (get_or l []) (some e)) offered ∙ fit, level, held, best)
