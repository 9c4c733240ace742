-- ===== src/Server/Failover/Order.antt =====
-- server/domain/conductor-failover.js, `choose`: the agent that a turn runs on.
use mathlib.Core.Option.{some-injective}
use mathlib.Core.Path.{subst}
use open_vibe_codes.Prelude.{
  ℕ, zero, suc, ◌+◌, ◌≤◌, ◌<◌, ◌≡◌, refl, ◌⊎◌, inl, inr, ap, sym, String, true, false, Option, none,
  some, ◌↔◌, List, [], ◌∷◌, arith, Bool-cases, Option-cases, get_elem?, find_index,
  find_index_first, find_index-none, get_or,
}
use native.Mathlib.Decide.{dec_lt}
use open_vibe_codes.Engine.Router.Windows.{Row}
use open_vibe_codes.Server.Failover.{
  Fallback, UsageState, unknown, near, room, is_first, is_near, is_unknown, find_first_room,
  choose_index, or_place, usages, choose,
}

-- How well an agent of the chain serves, by its place: 0 with room under the switch point (or the
-- primary with no reading), 1 near it, 2 a fallback with no reading, 3 not at all.
abbrev pub rank : ℕ → UsageState → ℕ
rank i room = 0
rank zero unknown = 0
rank (suc i) unknown = 2
rank i near = 1
rank i _ = 3

find_first_room-some :
    (i k : ℕ) (us : List UsageState)
    → find_first_room i us ≡ some k
    → (m : ℕ) × (k ≡ i + m)
      × ((u : UsageState) × (get_elem? us m ≡ some u) × (is_first k u ≡ true))
      × ((j : ℕ) (v : UsageState) → j < m → get_elem? us j ≡ some v → is_first (i + j) v ≡ false)
unfolding find_first_room
find_first_room-some i k [] h = cc
find_first_room-some i k (u ∷ us) h = elim (Bool-cases (is_first i u)) [
  | inl e ↦
      let here = some-injective _ _ (rw e at h) in
      (
        0,
        omega arith,
        (u, refl, subst (λ n. is_first n u ≡ true) here e),
        λ j v lt. absurd (omega arith),
      )
  | inr e ↦
      let (m, place, at, before) = find_first_room-some (i + 1) k us (rw e at h) in
      (suc m, omega arith, at, skipped e before)
]
  where
    skipped :
        {m : ℕ}
        → is_first i u ≡ false
        → ((j : ℕ) (v : UsageState)
            → j < m
            → get_elem? us j ≡ some v
            → is_first (i + 1 + j) v ≡ false)
        → (j : ℕ) (v : UsageState) → j < suc m
        → get_elem? (u ∷ us) j ≡ some v
        → is_first (i + j) v ≡ false
    skipped fails before zero v lt e =
        let same : i ≡ i + 0 = omega arith in
        subst (λ n. is_first n v ≡ false) same
          (subst (λ w. is_first i w ≡ false) (some-injective _ _ e) fails)
    skipped fails before (suc j) v lt e =
        let same : i + 1 + j ≡ i + suc j = omega arith in
        subst (λ n. is_first n v ≡ false) same (before j v (omega arith) e)

find_first_room-none :
    (i : ℕ) (us : List UsageState)
    → find_first_room i us ≡ none
    → (j : ℕ) (v : UsageState) → get_elem? us j ≡ some v
    → is_first (i + j) v ≡ false
unfolding find_first_room
find_first_room-none i [] h j v at = cc
find_first_room-none i (u ∷ us) h zero v at =
    let same : i ≡ i + 0 = omega arith in
    elim (Bool-cases (is_first i u)) [
      | inl e ↦ cc (rw e at h)
      | inr e ↦
          subst (λ n. is_first n v ≡ false) same
            (subst (λ w. is_first i w ≡ false) (some-injective _ _ at) e)
    ]
find_first_room-none i (u ∷ us) h (suc j) v at =
    let same : i + 1 + j ≡ i + suc j = omega arith in
    elim (Bool-cases (is_first i u)) [
      | inl e ↦ cc (rw e at h)
      | inr e ↦
          subst (λ n. is_first n v ≡ false) same
            (find_first_room-none (i + 1) us (rw e at h) j v at)
    ]

-- What a test of the order says of a rank.
rank-first : (i : ℕ) (u : UsageState) → is_first i u ≡ true → rank i u ≡ 0
rank-first zero unknown h = refl
rank-first (suc i) unknown h = cc
rank-first i room h = refl
rank-first i u h = cc

rank-not_first : (i : ℕ) (u : UsageState) → is_first i u ≡ false → 1 ≤ rank i u
rank-not_first zero unknown h = cc
rank-not_first (suc i) unknown h = omega arith
rank-not_first i room h = cc
rank-not_first i u h = omega arith

rank-not_near : (i : ℕ) (u : UsageState) → is_first i u ≡ false → is_near u ≡ false → 2 ≤ rank i u
rank-not_near i near h k = cc
rank-not_near zero unknown h k = cc
rank-not_near (suc i) unknown h k = omega arith
rank-not_near i room h k = cc
rank-not_near i u h k = omega arith

rank-none :
    (i : ℕ) (u : UsageState)
    → is_first i u ≡ false
    → is_near u ≡ false
    → is_unknown u ≡ false
    → rank i u ≡ 3
rank-none i near h k l = cc
rank-none i unknown h k l = cc
rank-none i room h k l = cc
rank-none i u h k l = refl

rank-near : (i : ℕ) (u : UsageState) → is_near u ≡ true → rank i u ≡ 1
rank-near i near h = refl
rank-near i u h = cc

rank-unknown : (i : ℕ) (u : UsageState) → is_first i u ≡ false → is_unknown u ≡ true → rank i u ≡ 2
rank-unknown zero unknown h k = cc
rank-unknown (suc i) unknown h k = refl
rank-unknown i u h k = cc

-- The agent at the place serves better than any other, or as well and stands before it.
pub record IsBest (us : List UsageState) (i : ℕ) : Type 0 where
  pub state : UsageState
  pub at : get_elem? us i ≡ some state
  pub serves : rank i state ≤ 2
  pub best : (j : ℕ) (v : UsageState) → get_elem? us j ≡ some v → rank i state ≤ rank j v
  pub earliest :
      (j : ℕ) (v : UsageState) → get_elem? us j ≡ some v → rank j v ≡ rank i state → i ≤ j

module _ (us : List UsageState) where
  not_first :
      find_first_room 0 us ≡ none
      → (j : ℕ) (v : UsageState) → get_elem? us j ≡ some v
      → is_first j v ≡ false
  not_first e j v at =
      let same : 0 + j ≡ j = omega arith in
      subst (λ n. is_first n v ≡ false) same (find_first_room-none 0 us e j v at)

  first-IsBest : (k : ℕ) → find_first_room 0 us ≡ some k → IsBest us k
  first-IsBest k e =
      let (m, place, (u, at, passes), before) = find_first_room-some 0 k us e in
      let same : m ≡ k = omega arith in
      let zeroth = rank-first k u passes in
      record {
        state = u;
        at = subst (λ n. get_elem? us n ≡ some u) same at;
        serves = omega arith;
        best = λ j v here. omega arith;
        earliest = λ j v here tie.
            let index : 0 + j ≡ j = omega arith in
            elim (dec_lt j m) [
              | yes lt ↦
                  let off = subst (λ n. is_first n v ≡ false) index (before j v lt here) in
                  absurd (omega (arith, rank-not_first j v off))
              | no ge ↦ omega arith
            ];
      }

  near-IsBest : (k : ℕ) → find_first_room 0 us ≡ none → find_index is_near us ≡ some k → IsBest us k
  near-IsBest k e f =
      let ((u, at, passes), before) = find_index_first is_near us k f in
      let first = rank-near k u passes in
      record {
        state = u;
        at = at;
        serves = omega arith;
        best = λ j v here. omega (arith, rank-not_first j v (not_first e j v here));
        earliest = λ j v here tie. elim (dec_lt j k) [
          | yes lt ↦
              absurd (omega (arith, rank-not_near j v (not_first e j v here) (before j v lt here)))
          | no ge ↦ omega arith
        ];
      }

  unknown-IsBest :
      (k : ℕ)
      → find_first_room 0 us ≡ none
      → find_index is_near us ≡ none
      → find_index is_unknown us ≡ some k
      → IsBest us k
  unknown-IsBest k e f g =
      let ((u, at, passes), before) = find_index_first is_unknown us k g in
      let second = rank-unknown k u (not_first e k u at) passes in
      let near_off = find_index-none is_near us f in
      record {
        state = u;
        at = at;
        serves = omega arith;
        best =
            λ j v here. omega (arith, rank-not_near j v (not_first e j v here) (near_off j v here));
        earliest = λ j v here tie. elim (dec_lt j k) [
          | yes lt ↦ absurd (
              omega (
                arith,
                rank-none j v (not_first e j v here) (near_off j v here) (before j v lt here),
              ))
          | no ge ↦ omega arith
        ];
      }

  -- The place that the tests find is the best of the chain.
  choose_index-IsBest : (i : ℕ) → choose_index us ≡ some i → IsBest us i
  unfolding choose_index or_place
  choose_index-IsBest i h = elim (Option-cases (find_first_room 0 us)) [
    | inr (k, e) ↦ subst (IsBest us) (some-injective _ _ (rw (e, or_place) at h)) (first-IsBest k e)
    | inl e ↦ elim (Option-cases (find_index is_near us)) [
      | inr (k, f) ↦
          subst (IsBest us) (some-injective _ _ (rw (e, f, or_place) at h)) (near-IsBest k e f)
      | inl f ↦ unknown-IsBest i e f (rw (e, f, or_place) at h)
    ]
  ]

  choose_index-none :
      choose_index us ≡ none → (j : ℕ) (v : UsageState) → get_elem? us j ≡ some v → rank j v ≡ 3
  unfolding choose_index or_place
  choose_index-none h j v at = elim (Option-cases (find_first_room 0 us)) [
    | inr (k, e) ↦ cc (rw (e, or_place) at h)
    | inl e ↦ elim (Option-cases (find_index is_near us)) [
      | inr (k, f) ↦ cc (rw (e, f, or_place) at h)
      | inl f ↦
          let g = rw (e, f, or_place) at h in
          rank-none j v (not_first e j v at) (find_index-none is_near us f j v at)
            (find_index-none is_unknown us g j v at)
    ]
  ]

-- Nobody in the chain serves, and the primary is tried.
abbrev pub IsLastResort : List UsageState → ℕ → Type 0
IsLastResort us i = (i ≡ 0) × ((j : ℕ) (v : UsageState) → get_elem? us j ≡ some v → rank j v ≡ 3)

verdict :
    (us : List UsageState) (i : ℕ)
    → get_or (choose_index us) 0 ≡ i
    → IsBest us i ⊎ IsLastResort us i
verdict us i same = elim (Option-cases (choose_index us)) [
  | inl e ↦ inr (sym (rw e at same), choose_index-none us e)
  | inr (k, e) ↦ inl (subst (IsBest us) (rw e at same) (choose_index-IsBest us k e))
]

-- The turn runs on the agent of the chain that serves best by its usage, the earliest of equals: room
-- under the switch point before near it, near it before a fallback that was never read; when none
-- serves at all it runs on the primary. `switched` says that it is another than the primary.
pub choose-IsBest :
    (chain : List Fallback) (fleet : Option (List (String × Row))) (point now i : ℕ)
    → (choose chain fleet point now).index ≡ some i
    → (IsBest (usages chain fleet point now) i ⊎ IsLastResort (usages chain fleet point now) i)
      × ((choose chain fleet point now).pick ≡ get_elem? chain i)
      × (((choose chain fleet point now).switched ≡ true) ↔ (0 < i))
unfolding choose
choose-IsBest [] fleet point now i h = cc
choose-IsBest (primary ∷ rest) fleet point now i h =
    let same = some-injective _ _ h in
    (
      verdict (usages (primary ∷ rest) fleet point now) i same,
      ap (get_elem? (primary ∷ rest)) same,
      (λ t. ground arith, λ lt. ground arith),
    )
