-- ===== src/Engine/Router/Room.antt =====
-- engine/router.js: when a window is full, and when a runner has room.
use mathlib.Core.Option.{some-injective}
use open_vibe_codes.Prelude.{
  ℕ, ◌*◌, ◌≤◌, ◌<◌, ◌≡◌, refl, ◌≢◌, ◌↔◌, ◌⊎◌, inl, inr, String, Bool, true, false, Option, none,
  some, List, [], ◌∷◌, arith, Bool-cases, All, any, not,
}
use open_vibe_codes.Engine.Router.Windows.{
  Ratio, Window, Row, window_full, freed, pct_of, used_pct, at_least, full_pct, room_for, row_of,
  row_room, low, min_balance_usd,
}

-- A window is at 95% or more when its own percentage says so, or, where it has none, what was used
-- of a limit above 0.
abbrev pub AtLimit : Option Ratio → Option ℕ → Option ℕ → Type 0
AtLimit pct used limit =
    ((p : Ratio) × (pct ≡ some p) × (95 * p.den ≤ p.num))
    ⊎ ((u l : ℕ) × (pct ≡ none) × (used ≡ some u) × (limit ≡ some l) × (0 < l) × (95 * l ≤ u * 100))

abbrev pub IsAtLimit : Window → Type 0
IsAtLimit w = AtLimit w.pct w.used w.limit

AtLimit-of :
    (pct : Option Ratio) (used limit : Option ℕ)
    → at_least full_pct (pct_of pct used limit) ≡ true
    → AtLimit pct used limit
unfolding pct_of used_pct
AtLimit-of (some p) used limit h = inl (p, refl, ground arith)
AtLimit-of none (some u) (some l) h = inr (u, l, refl, refl, refl, ground arith, ground arith)
AtLimit-of none (some u) none h = cc
AtLimit-of none none limit h = cc

of-AtLimit :
    (pct : Option Ratio) (used limit : Option ℕ)
    → AtLimit pct used limit
    → at_least full_pct (pct_of pct used limit) ≡ true
unfolding pct_of used_pct
of-AtLimit pct used limit (inl (p, e, h)) = rw e (ground arith)
of-AtLimit pct used limit (inr (u, l, e, f, g, h, k)) = rw (e, f, g) (ground arith)

-- The window has a reset, and it has passed.
abbrev pub HasReset : Window → ℕ → Type 0
HasReset w now = (t : ℕ) × (w.resets_at ≡ some t) × (0 < t) × (t ≤ now)

HasReset-of :
    (o : Option ℕ) (now : ℕ) → freed o now ≡ true → (t : ℕ) × (o ≡ some t) × (0 < t) × (t ≤ now)
unfolding freed
HasReset-of none now h = cc
HasReset-of (some t) now h = (t, refl, ground arith, ground arith)

freed-of : (w : Window) (now : ℕ) → HasReset w now → freed w.resets_at now ≡ true
unfolding freed
freed-of w now (t, e, h, k) = rw e (ground arith)

-- A window is full exactly when it is at its limit and has not reset since it was read.
pub window_full_iff :
    (w : Window) (now : ℕ) → (window_full w now ≡ true) ↔ (IsAtLimit w × ¬ HasReset w now)
unfolding window_full
window_full_iff w now = elim (Bool-cases (freed w.resets_at now)) [
  | inl gone ↦
      (λ h. cc (rw gone at h), λ (_, still). absurd (still (HasReset-of w.resets_at now gone)))
  | inr here ↦ (
    λ h. (AtLimit-of w.pct w.used w.limit (rw here at h), λ r. cc (freed-of w now r)),
    λ (full, _). rw here (of-AtLimit w.pct w.used w.limit full),
  )
]

-- What a runner of the fleet must show to be given a job: an agent that no machine reported is
-- unknown and takes it; one that was reported is signed in, or does not say, has no known balance
-- under a dollar, and none of its windows is full.
abbrev pub HasRoom : Option (List (String × Row)) → String → ℕ → Type 0
HasRoom fleet runner now =
    (f : Row)
    → row_of fleet runner ≡ some f
    → (f.signed_in ≢ some false)
      × ((usd : ℕ) → f.balance_usd ≡ some usd → min_balance_usd ≤ usd)
      × All (λ w. window_full w now ≡ false) f.windows

any-not :
    {A : Type 0} (p : A → Bool) (xs : List A) → not (any p xs) ≡ true ↔ All (λ x. p x ≡ false) xs
any-not p [] = (λ h. tt, λ h. refl)
any-not p (x ∷ xs) =
    let (none_of, all_of) = any-not p xs in
    elim (Bool-cases (p x)) [
      | inl e ↦ (λ h. cc (rw e at h), λ h. cc (h.0))
      | inr e ↦ (λ h. (e, none_of (rw e at h)), λ h. rw e (all_of h.1))
    ]

row_fits :
    (f : Row) (now : ℕ)
    → (row_room (some f) now ≡ true) ↔ (
        (f.signed_in ≢ some false)
        × (low f.balance_usd min_balance_usd ≡ false)
        × (not (any (λ w. window_full w now) f.windows) ≡ true))
row_fits f now = (λ h. (ground arith, ground arith, ground arith), λ h. ground arith)

not_low_iff :
    (o : Option ℕ) (least : ℕ) → (low o least ≡ false) ↔ ((usd : ℕ) → o ≡ some usd → least ≤ usd)
unfolding low
not_low_iff none least = (λ h usd e. cc, λ h. refl)
not_low_iff (some n) least = (λ h usd e. ground arith, λ h. ground (arith, h n refl))

row_room_iff :
    (o : Option Row) (now : ℕ)
    → (row_room o now ≡ true) ↔ (
        (f : Row)
        → o ≡ some f
        → (f.signed_in ≢ some false)
          × ((usd : ℕ) → f.balance_usd ≡ some usd → min_balance_usd ≤ usd)
          × All (λ w. window_full w now ≡ false) f.windows)
row_room_iff none now = (λ h f e. cc, λ h. refl)
row_room_iff (some f) now = (
  λ h g e.
      let same = some-injective _ _ e in
      let (signed, rich, open_windows) = (row_fits f now).0 h in
      rw (← same) (
        signed,
        (not_low_iff f.balance_usd min_balance_usd).0 rich,
        (any-not (λ w. window_full w now) f.windows).0 open_windows,
      ),
  λ h.
      let (signed, rich, open_windows) = h f refl in
      (row_fits f now).1 (
        signed,
        (not_low_iff f.balance_usd min_balance_usd).1 rich,
        (any-not (λ w. window_full w now) f.windows).1 open_windows,
      ),
)

-- A runner may take a job now exactly when no fleet was read, the fleet does not list it, or its row
-- shows no reason against it: it is not signed out, its balance is not known to be under a dollar,
-- and no window of it is full.
pub room_for_iff :
    (fleet : Option (List (String × Row))) (runner : String) (now : ℕ)
    → (room_for fleet runner now ≡ true) ↔ HasRoom fleet runner now
unfolding room_for
room_for_iff fleet runner now = row_room_iff (row_of fleet runner) now
