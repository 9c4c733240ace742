-- ===== src/Engine/Router/Tallies.antt =====
-- engine/router.js, `track`: the tallies against a count of the runs.
use open_vibe_codes.Prelude.{
  ℕ, ◌+◌, ◌*◌, ◌≤◌, ◌<◌, ◌≡◌, ◌↔◌, String, Bool, false, ◌&&◌, List, [], ◌∷◌, inl, inr, arith,
  Bool-cases, if◌then◌else◌, ◌==◌, string_eq, ==_iff, lookup, get_or, length, keep,
}
use open_vibe_codes.Engine.Router.Track.{
  Run, Tally, no_tally, counts_run, tally_run, tally_in, track_from, track, reliable,
}

-- The runs of one runner that count, and those of them that were done.
abbrev pub counted : ℕ → String → List Run → List Run
counted now runner runs = keep (λ r. counts_run now r && r.runner == runner) runs

abbrev pub was_done : Run → Bool
was_done r = r.status == "done"

abbrev pub finished : ℕ → String → List Run → ℕ
finished now runner runs = length (keep was_done (counted now runner runs))

abbrev pub tally_of : String → List (String × Tally) → Tally
tally_of runner rec = get_or (lookup runner rec) no_tally

tally_of-tally_in :
    (r : Run) (rec : List (String × Tally)) (runner : String)
    → tally_of runner (tally_in r rec)
      ≡ (if r.runner == runner then tally_run r (tally_of runner rec) else tally_of runner rec)
unfolding tally_in
tally_of-tally_in r [] runner = elim (Bool-cases (r.runner == runner)) [
  | inl e ↦ rw e
  | inr e ↦ rw e
]
tally_of-tally_in r ((k, t) ∷ rec) runner = ground (
  arith,
  ==_iff k r.runner,
  ==_iff r.runner runner,
  ==_iff k runner,
  tally_of-tally_in r rec runner,
)

-- What one run adds to a runner's tally.
tally_step :
    (now : ℕ) (rec : List (String × Tally)) (r : Run) (runner : String)
    → let next = if counts_run now r then tally_in r rec else rec in
      tally_of runner next ≡ (
        if counts_run now r && r.runner == runner
        then tally_run r (tally_of runner rec)
        else tally_of runner rec)
tally_step now rec r runner = elim (Bool-cases (counts_run now r)) [
  | inl e ↦ rw e (tally_of-tally_in r rec runner)
  | inr e ↦ rw e
]

track_from-counts :
    (now : ℕ) (rec : List (String × Tally)) (runs : List Run) (runner : String)
    → ((tally_of runner (track_from now rec runs)).done
        ≡ (tally_of runner rec).done + finished now runner runs)
      × ((tally_of runner (track_from now rec runs)).done
            + (tally_of runner (track_from now rec runs)).failed
          ≡ (tally_of runner rec).done
            + (tally_of runner rec).failed
            + length (counted now runner runs))
unfolding track_from tally_run
track_from-counts now rec [] runner = (omega arith, omega arith)
track_from-counts now rec (r ∷ runs) runner =
    let next = if counts_run now r then tally_in r rec else rec in
    ground (arith, tally_step now rec r runner, track_from-counts now next runs runner)

-- The record of a runner says how many of its counted runs were done and how many were not, over any
-- list of runs; a runner that no counted run names has none of either.
pub track-counts :
    (now : ℕ) (runs : List Run) (runner : String)
    → ((tally_of runner (track now runs)).done ≡ finished now runner runs)
      × ((tally_of runner (track now runs)).done + (tally_of runner (track now runs)).failed
          ≡ length (counted now runner runs))
unfolding track
track-counts now runs runner =
    let (done, total) = track_from-counts now [] runs runner in
    (omega (arith, done), omega (arith, total))

-- A runner is skipped exactly when at least four of its runs count and fewer than two in five of
-- those were done.
pub reliable_iff :
    (now : ℕ) (runs : List Run) (runner : String)
    → (reliable (track now runs) runner ≡ false) ↔ (
        (4 ≤ length (counted now runner runs))
        × (5 * finished now runner runs < 2 * length (counted now runner runs)))
unfolding reliable
reliable_iff now runs runner =
    let (done, total) = track-counts now runs runner in
    let t = tally_of runner (track now runs) in
    (λ h. (ground arith, ground arith), λ h. ground arith)
