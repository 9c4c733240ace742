-- ===== src/Prelude/Lists.antt =====
-- Lists by Boolean tests, as the array methods use them, and lists measured by native numbers.
use Prim.Native.Nat.{ℕ, zero, suc, ◌+◌, ◌≤◌, ◌<◌}
use mathlib.Core.Path.{◌≡◌, refl, sym, subst, ap}
use mathlib.Core.Bool.{Bool, true, false, ◌||◌}
use mathlib.Core.Option
use mathlib.Core.Option.{Option, none, some, some-injective, some-ne-none}
use mathlib.Core.Logic.{inl, inr}
use mathlib.Core.List.{List, [], ◌∷◌, ◌++◌, map, Memᴰ}
use Prim.Native.Nat.add
use native.Mathlib.Nat.{suc-add}
use native.Mathlib.Omega.{arith}
use open_vibe_codes.Prelude.Tests.{Eq, ◌==◌, if◌then◌else◌, Bool-cases}

module _ {ℓ} {A : Type ℓ} where
  abbrev pub length : List A → ℕ
  length [] = 0
  length (x ∷ xs) = suc (length xs)

  abbrev pub take : ℕ → List A → List A
  take zero xs = []
  take (suc n) [] = []
  take (suc n) (x ∷ xs) = x ∷ take n xs

  abbrev pub drop : ℕ → List A → List A
  drop zero xs = xs
  drop (suc n) [] = []
  drop (suc n) (x ∷ xs) = drop n xs

  abbrev pub get_elem? : List A → ℕ → Option A
  get_elem? [] i = none
  get_elem? (x ∷ xs) zero = some x
  get_elem? (x ∷ xs) (suc i) = get_elem? xs i

  -- `Array.prototype.some`.
  abbrev pub any : (A → Bool) → List A → Bool
  any p [] = false
  any p (x ∷ xs) = p x || any p xs

  -- `Array.prototype.find`.
  abbrev pub find : (A → Bool) → List A → Option A
  find p [] = none
  find p (x ∷ xs) = if p x then some x else find p xs

  -- `Array.prototype.findIndex`, `none` for -1.
  abbrev pub find_index : (A → Bool) → List A → Option ℕ
  find_index p [] = none
  find_index p (x ∷ xs) = if p x then some 0 else Option.map suc (find_index p xs)

  -- `Array.prototype.filter`.
  abbrev pub keep : (A → Bool) → List A → List A
  keep p [] = []
  keep p (x ∷ xs) = if p x then x ∷ keep p xs else keep p xs

  -- Every element has the property.
  abbrev pub All {κ} : (A → Type κ) → List A → Type κ
  All P [] = Unit
  All P (x ∷ xs) = P x × All P xs

module _ {ℓ} {A : Type ℓ} ⦃e : Eq A⦄ where
  -- `Array.prototype.includes`.
  abbrev pub includes : List A → A → Bool
  includes [] a = false
  includes (x ∷ xs) a = x == a || includes xs a

  -- `Array.prototype.indexOf`, `none` for -1.
  abbrev pub index_of : List A → A → Option ℕ
  index_of [] a = none
  index_of (x ∷ xs) a = if x == a then some 0 else Option.map suc (index_of xs a)

module _ {ℓ} {A : Type ℓ} where
  -- What `find` answers was listed and passes the test.
  pub find_sound :
      (p : A → Bool) (xs : List A) {x : A} → find p xs ≡ some x → (p x ≡ true) × Memᴰ x xs
  find_sound p [] h = cc
  find_sound p (x ∷ xs) h = elim (Bool-cases (p x)) [
    | inl e ↦
        let same = some-injective _ _ (rw e at h) in
        (subst (λ y. p y ≡ true) same e, Memᴰ.head (sym same))
    | inr e ↦ let (passes, listed) = find_sound p xs (rw e at h) in (passes, Memᴰ.tail listed)
  ]

  -- `find` answers nothing only when no element passes.
  pub find-none : (p : A → Bool) (xs : List A) → find p xs ≡ none → All (λ x. p x ≡ false) xs
  find-none p [] h = tt
  find-none p (x ∷ xs) h = elim (Bool-cases (p x)) [
    | inl e ↦ absurd (some-ne-none _ (rw e at h))
    | inr e ↦ (e, find-none p xs (rw e at h))
  ]

module _ {ℓ} {A : Type ℓ} ⦃e : Eq A⦄ where
  pub get_elem?-index_of :
      (xs : List A) (a : A) (i : ℕ) → index_of xs a ≡ some i → get_elem? xs i ≡ some a
  get_elem?-index_of [] a i h = cc
  get_elem?-index_of (x ∷ xs) a i h = elim (Bool-cases (x == a)) [
    | inl same ↦
        let zeroth = some-injective _ _ (rw same at h) in
        rw (← zeroth) (ap some ((e.decides x a).0 same))
    | inr other ↦
        let (k, found, next) = (Option.map-eq-some_iff _ _).0 (rw other at h) in
        rw (← next) (get_elem?-index_of xs a k found)
  ]

module _ {ℓ} {A : Type ℓ} where
  pub get_elem?-lt-length : (xs : List A) (i : ℕ) (a : A) → get_elem? xs i ≡ some a → i < length xs
  get_elem?-lt-length [] i a h = cc
  get_elem?-lt-length (x ∷ xs) zero a h = omega arith
  get_elem?-lt-length (x ∷ xs) (suc i) a h = omega (arith, get_elem?-lt-length xs i a h)

  pub All-mem {κ} : (P : A → Type κ) (xs : List A) {x : A} → All P xs → Memᴰ x xs → P x
  All-mem P [] h m = elim m [ ]
  All-mem P (x ∷ xs) h (Memᴰ.head e) = subst P (sym e) h.0
  All-mem P (x ∷ xs) h (Memᴰ.tail m) = All-mem P xs h.1 m

  pub get_elem?-drop : (n i : ℕ) (xs : List A) → get_elem? (drop n xs) i ≡ get_elem? xs (n + i)
  get_elem?-drop zero i xs = rw add.zero
  get_elem?-drop (suc n) i [] = refl
  get_elem?-drop (suc n) i (x ∷ xs) = rw suc-add (get_elem?-drop n i xs)

  pub All-imp {κ μ} :
      (P : A → Type κ) (Q : A → Type μ) (xs : List A) → ((x : A) → P x → Q x) → All P xs → All Q xs
  All-imp P Q [] f h = tt
  All-imp P Q (x ∷ xs) f (h, hs) = (f x h, All-imp P Q xs f hs)

  -- `find` answers the first element that passes, with its place.
  pub find_first :
      (p : A → Bool) (xs : List A) {x : A}
      → find p xs ≡ some x
      → (k : ℕ) × (get_elem? xs k ≡ some x)
        × (p x ≡ true)
        × ((j : ℕ) (y : A) → j < k → get_elem? xs j ≡ some y → p y ≡ false)
  find_first p [] h = cc
  find_first p (x ∷ xs) h = elim (Bool-cases (p x)) [
    | inl e ↦
        let same = some-injective _ _ (rw e at h) in
        (0, ap some same, subst (λ y. p y ≡ true) same e, λ j y lt. absurd (omega arith))
    | inr e ↦
        let (k, found, passes, before) = find_first p xs (rw e at h) in
        (suc k, found, passes, skipped e before)
  ]
    where
      skipped :
          {k : ℕ}
          → p x ≡ false
          → ((j : ℕ) (y : A) → j < k → get_elem? xs j ≡ some y → p y ≡ false)
          → (j : ℕ) (y : A) → j < suc k
          → get_elem? (x ∷ xs) j ≡ some y
          → p y ≡ false
      skipped fails before zero y lt e = subst (λ z. p z ≡ false) (some-injective _ _ e) fails
      skipped fails before (suc j) y lt e = before j y (omega arith) e

  -- `find` answers nothing exactly when every place fails.
  pub find-none_of : (p : A → Bool) (xs : List A) → All (λ x. p x ≡ false) xs → find p xs ≡ none
  find-none_of p [] h = refl
  find-none_of p (x ∷ xs) (h, hs) = rw h (find-none_of p xs hs)

  -- What `filter` keeps passes the test, and was listed.
  pub mem-keep :
      (p : A → Bool) (xs : List A) {x : A} → Memᴰ x (keep p xs) → (p x ≡ true) × Memᴰ x xs
  mem-keep p [] m = elim m [ ]
  mem-keep p (y ∷ xs) {x} m = elim (Bool-cases (p y)) [
    | inl e ↦ split e (rw e at m) (mem-keep p xs)
    | inr e ↦ let (passes, listed) = mem-keep p xs (rw e at m) in (passes, Memᴰ.tail listed)
  ]
    where
      split :
          p y ≡ true
          → Memᴰ x (y ∷ keep p xs)
          → (Memᴰ x (keep p xs) → (p x ≡ true) × Memᴰ x xs)
          → (p x ≡ true) × Memᴰ x (y ∷ xs)
      split e (Memᴰ.head same) ih = (subst (λ z. p z ≡ true) (sym same) e, Memᴰ.head same)
      split e (Memᴰ.tail rest) ih = ((ih rest).0, Memᴰ.tail (ih rest).1)

module _ {ℓ κ} {A : Type ℓ} {B : Type κ} where
  pub get_elem?-map :
      (f : A → B) (xs : List A) (i : ℕ) → get_elem? (map f xs) i ≡ Option.map f (get_elem? xs i)
  get_elem?-map f [] i = refl
  get_elem?-map f (x ∷ xs) zero = refl
  get_elem?-map f (x ∷ xs) (suc i) = get_elem?-map f xs i

module _ {ℓ} {A : Type ℓ} where
  pub get_elem?-append :
      (xs ys : List A) (i : ℕ) (a : A) → get_elem? xs i ≡ some a → get_elem? (xs ++ ys) i ≡ some a
  get_elem?-append [] ys i a h = cc
  get_elem?-append (x ∷ xs) ys zero a h = h
  get_elem?-append (x ∷ xs) ys (suc i) a h = get_elem?-append xs ys i a h

  pub keep-append : (p : A → Bool) (xs ys : List A) → keep p (xs ++ ys) ≡ keep p xs ++ keep p ys
  keep-append p [] ys = refl
  keep-append p (x ∷ xs) ys = ground (arith, keep-append p xs ys)

  -- A change that makes no element pass that did not keeps no more of them.
  pub length-keep-map :
      (p : A → Bool) (f : A → A) (xs : List A)
      → ((x : A) → p (f x) ≡ true → p x ≡ true)
      → length (keep p (map f xs)) ≤ length (keep p xs)
  length-keep-map p f [] h = omega arith
  length-keep-map p f (x ∷ xs) h = ground (arith, h x, length-keep-map p f xs h)

  -- The place that `findIndex` answers passes, and none before it does.
  pub find_index_first :
      (p : A → Bool) (xs : List A) (i : ℕ)
      → find_index p xs ≡ some i
      → ((x : A) × (get_elem? xs i ≡ some x) × (p x ≡ true))
        × ((j : ℕ) (y : A) → j < i → get_elem? xs j ≡ some y → p y ≡ false)
  find_index_first p [] i h = cc
  find_index_first p (x ∷ xs) i h = elim (Bool-cases (p x)) [
    | inl e ↦
        let zeroth = some-injective _ _ (rw e at h) in
        rw (← zeroth) ((x, refl, e), λ j y lt. absurd (omega arith))
    | inr e ↦
        let (k, found, next) = (Option.map-eq-some_iff _ _).0 (rw e at h) in
        let (at, before) = find_index_first p xs k found in rw (← next) (at, skipped e before)
  ]
    where
      skipped :
          {k : ℕ}
          → p x ≡ false
          → ((j : ℕ) (y : A) → j < k → get_elem? xs j ≡ some y → p y ≡ false)
          → (j : ℕ) (y : A) → j < suc k
          → get_elem? (x ∷ xs) j ≡ some y
          → p y ≡ false
      skipped fails before zero y lt e = subst (λ z. p z ≡ false) (some-injective _ _ e) fails
      skipped fails before (suc j) y lt e = before j y (omega arith) e

  pub find_index-none :
      (p : A → Bool) (xs : List A)
      → find_index p xs ≡ none
      → (j : ℕ) (y : A) → get_elem? xs j ≡ some y
      → p y ≡ false
  find_index-none p [] h j y at = cc
  find_index-none p (x ∷ xs) h zero y at = ground arith
  find_index-none p (x ∷ xs) h (suc j) y at = elim (Bool-cases (p x)) [
    | inl e ↦ cc (rw e at h)
    | inr e ↦ find_index-none p xs ((Option.map-eq-none_iff _ _).0 (rw e at h)) j y at
  ]
