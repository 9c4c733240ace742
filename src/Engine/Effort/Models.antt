-- ===== src/Engine/Effort/Models.antt =====
-- engine/effort.js: the step up of a retry, and the models that a provider refused.
use mathlib.Core.Option.{some-injective}
use mathlib.Core.Path.{subst}
use open_vibe_codes.Prelude.{
  zero, ◌-◌, ◌+◌, get_elem?-drop, ℕ, suc, ◌<◌, ◌≡◌, refl, ap, ◌∙◌, sym, String, Bool, true, false,
  not, Option, none, some, List, [], ◌∷◌, ◌++◌, arith, ◌⊎◌, ◌↔◌, inl, inr, Bool-cases, Option-cases,
  includes, index_of, get_elem?, All, ◌==◌, string_eq, ==_refl, get_or, or_else_word, drop, find,
  find_sound, ◌||◌, find-none, All-imp, All-mem, keep,
}
use open_vibe_codes.Engine.Effort.{
  step_order, wanted_level, level_or, step_from, after, step_in, step_up, blocked_list, is_blocked,
  catalog_for, launch, refused, pick_from, pick_model, block_model, unblock_model, refusal_re,
}

-- The list holds no level of these below index k.
abbrev HoldsNoneBelow : List String → List String → ℕ → Type 0
HoldsNoneBelow levels list k =
    (i : ℕ) (x : String) → i < k → get_elem? levels i ≡ some x → includes list x ≡ false

HoldsNoneBelow-cons :
    (x : String) (levels list : List String) (k : ℕ)
    → includes list x ≡ false
    → HoldsNoneBelow levels list k
    → HoldsNoneBelow (x ∷ levels) list (suc k)
HoldsNoneBelow-cons x levels list k missing before zero y lt e =
    subst (λ z. includes list z ≡ false) (some-injective _ _ e) missing
HoldsNoneBelow-cons x levels list k missing before (suc i) y lt e = before i y (omega arith) e

-- The first level that the list holds, with its place: no level before it is held.
step_from-first :
    (levels list : List String) (l : String)
    → step_from levels (some list) ≡ some l
    → (k : ℕ) × (get_elem? levels k ≡ some l)
      × (includes list l ≡ true)
      × HoldsNoneBelow levels list k
unfolding step_from
step_from-first [] list l h = cc
step_from-first (x ∷ xs) list l h = elim (Bool-cases (includes list x)) [
  | inl held ↦
      let same = some-injective _ _ (rw held at h) in
      (
        0,
        ap some same,
        subst (λ y. includes list y ≡ true) same held,
        λ i y lt. absurd (omega arith),
      )
  | inr missing ↦
      let (k, found, held, before) = step_from-first xs list l (rw missing at h) in
      (suc k, found, held, HoldsNoneBelow-cons x xs list k missing before)
]

step_from-none :
    (levels list : List String)
    → step_from levels (some list) ≡ none
    → (k : ℕ) → HoldsNoneBelow levels list k
unfolding step_from
step_from-none [] list h k i x lt e = cc
step_from-none (x ∷ xs) list h k i y lt e = elim (Bool-cases (includes list x)) [
  | inl held ↦ cc (rw held at h)
  | inr missing ↦
      HoldsNoneBelow-cons x xs list k missing (step_from-none xs list (rw missing at h) k) i y
        (omega arith) e
]

-- Level l is the first above index i that the list holds.
pub record IsNext (levels list : List String) (i : ℕ) (l : String) : Type 0 where
  pub place : ℕ
  pub above : i < place
  pub level : get_elem? levels place ≡ some l
  pub held : includes list l ≡ true
  pub first :
      (j : ℕ) (x : String)
      → i < j
      → j < place
      → get_elem? levels j ≡ some x
      → includes list x ≡ false

-- No level above index i is held.
abbrev pub HoldsNoneAbove : List String → List String → ℕ → Type 0
HoldsNoneAbove levels list i =
    (j : ℕ) (x : String) → i < j → get_elem? levels j ≡ some x → includes list x ≡ false

module _ (levels list : List String) (e : String) (i : ℕ) (known : index_of levels e ≡ some i)
    (word : (e == "") ≡ false) where
  shift :
      (k : ℕ)
      → HoldsNoneBelow (drop (suc i) levels) list k
      → (j : ℕ) (x : String) → i < j
      → j < suc i + k
      → get_elem? levels j ≡ some x
      → includes list x ≡ false
  shift k none_below j x lt near h =
      none_below (j - suc i) x (omega arith)
        (get_elem?-drop (suc i) (j - suc i) levels ∙ rw place h)
    where
      place : suc i + (j - suc i) ≡ j
      place = omega arith

  starts_above :
      step_in levels (some e) (some list)
      ≡ level_or (some e) (step_from (drop (suc i) levels) (some list))
  unfolding step_in after wanted_level level_or
  starts_above =
      rw (ap (λ w. get_or w "medium") (or_else_word e (some "medium") word), wanted_level)
        (rw known refl)

  step_in-IsNext :
      ((step_in levels (some e) (some list) ≡ some e) × HoldsNoneAbove levels list i)
      ⊎ ((l : String) × (step_in levels (some e) (some list) ≡ some l) × IsNext levels list i l)
  unfolding level_or
  step_in-IsNext = elim (Option-cases (step_from (drop (suc i) levels) (some list))) [
    | inl out ↦
        let before = step_from-none (drop (suc i) levels) list out in
        inl (
          starts_above ∙ rw out (or_else_word e none word),
          λ j x lt. shift j (before j) j x lt (omega arith),
        )
    | inr (l, answer) ↦
        let (k, found, held, before) = step_from-first (drop (suc i) levels) list l answer in
        inr (
          l,
          starts_above ∙ rw answer refl,
          record {
            place = suc i + k;
            above = omega arith;
            level = sym (get_elem?-drop (suc i) k levels) ∙ found;
            held = held;
            first = shift k before;
          },
        )
  ]

-- From a known level, a retry steps to the first higher level that the list holds, and keeps its
-- level exactly when the list holds none above it.
pub step_up-IsNext :
    (list : List String) (e : String) (i : ℕ)
    → index_of step_order e ≡ some i
    → (e == "") ≡ false
    → ((step_up (some e) (some list) ≡ some e) × HoldsNoneAbove step_order list i)
      ⊎ ((l : String) × (step_up (some e) (some list) ≡ some l) × IsNext step_order list i l)
unfolding step_up
step_up-IsNext list e i known word = step_in-IsNext step_order list e i known word

module _ (runner : String) (refusals catalog : List String) where
  abbrev free : String → Bool
  free m = not (includes refusals m)

  pick_from-free :
      (model : Option String) (m : String)
      → pick_from runner refusals catalog model ≡ launch (some m)
      → ((m == "") ≡ true) ⊎ (includes refusals m ≡ false)
  unfolding pick_from
  pick_from-free none m h = cc
  pick_from-free (some w) m h = elim (Option-cases (find free catalog)) [
    | inl e ↦ ground arith
    | inr (o, e) ↦ ground (arith, (find_sound free catalog e).0)
  ]

  pick_from-refused :
      (w : String)
      → All (λ m. (m == "") ≡ false) catalog
      → (pick_from runner refusals catalog (some w) ≡ refused runner) ↔ (
          ((w == "") ≡ false)
          × (includes refusals w ≡ true)
          × All (λ m. includes refusals m ≡ true) catalog)
  unfolding pick_from
  pick_from-refused w named = elim (Option-cases (find free catalog)) [
    | inl e ↦ (
      λ h. (
        ground arith,
        ground arith,
        All-imp _ _ catalog (λ m free. ground arith) (find-none free catalog e),
      ),
      λ (named, blocked, _). ground arith,
    )
    | inr (o, e) ↦
        let (passes, listed) = find_sound free catalog e in
        let word = All-mem (λ m. (m == "") ≡ false) catalog named listed in
        (
          λ h. absurd (ground arith),
          λ (_, _, all).
              absurd (ground (arith, All-mem (λ m. includes refusals m ≡ true) catalog all listed)),
        )
  ]

-- A launch never uses a model that the provider refused on that harness, whether it was the wanted
-- model or the one that replaced it.
pub pick_model-is_blocked :
    (lower : String → String) (runner : String) (model : Option String)
    (models blocked : Option (List (String × List String))) (m : String)
    → pick_model lower runner model models blocked ≡ launch (some m)
    → is_blocked lower blocked runner (some m) ≡ false
unfolding pick_model is_blocked
pick_model-is_blocked lower runner model models blocked m h = ground (
  arith,
  pick_from-free runner (blocked_list lower blocked runner) (catalog_for lower models runner) model
      m h,
)

-- A launch is refused exactly when the wanted model is blocked on the harness and so is every model
-- of the harness's catalog (whose entries are not "").
pub pick_model-refused :
    (lower : String → String) (runner w : String)
    (models blocked : Option (List (String × List String)))
    → All (λ m. (m == "") ≡ false) (catalog_for lower models runner)
    → (pick_model lower runner (some w) models blocked ≡ refused runner) ↔ (
        (is_blocked lower blocked runner (some w) ≡ true)
        × All
            (λ m. includes (blocked_list lower blocked runner) m ≡ true)
            (catalog_for lower models runner))
unfolding pick_model is_blocked
pick_model-refused lower runner w models blocked named =
    let (fails, only) =
      pick_from-refused runner (blocked_list lower blocked runner) (catalog_for lower models runner)
        w named in
    (
      λ h. let (word, blocked, all) = fails h in (ground arith, all),
      λ (h, all). only (ground arith, ground arith, all),
    )

includes-append :
    (xs ys : List String) (a : String) → includes (xs ++ ys) a ≡ (includes xs a || includes ys a)
includes-append [] ys a = refl
includes-append (x ∷ xs) ys a = ground (arith, includes-append xs ys a)

includes-keep_ne :
    (xs : List String) (a : String) → includes (keep (λ m. not (m == a)) xs) a ≡ false
includes-keep_ne [] a = refl
includes-keep_ne (x ∷ xs) a = ground (arith, includes-keep_ne xs a)

-- After an error, a model is in the blocked list exactly when the provider's words refuse it or it
-- was there before.
pub block_model-includes :
    (re_test : String → String → Bool) (list : List String) (model error : String)
    → (model == "") ≡ false
    → includes (block_model re_test (some list) (some model) (some error)) model
      ≡ (re_test refusal_re error || includes list model)
unfolding block_model
block_model-includes re_test list model error word =
    ground (arith, includes-append list (model ∷ []) model, ==_refl model)

-- A model that is unblocked is in the blocked list no more.
pub unblock_model-includes :
    (list : List String) (model : String)
    → includes (unblock_model (some list) (some model)) model ≡ false
unfolding unblock_model
unblock_model-includes list model = includes-keep_ne list model
