-- ===== src/Server/Outbox/Tries.antt =====
-- server/events/outbox.js: how often an event is tried, and how long a retry waits.
use open_vibe_codes.Prelude.{
  ℕ, zero, suc, ◌+◌, ◌≤◌, ◌<◌, ◌≡◌, refl, inl, inr, max, min, Bool, true, false, List, [], ◌∷◌,
  arith, Bool-cases, length, leb, All, is_some, if◌then◌else◌,
}
use open_vibe_codes.Server.Outbox.Emit.{Row}
use open_vibe_codes.Server.Outbox.Relay.{
  backoff_ms, Config, dead_after_refusals, dead_after_attempts, dead_after, is_refused, Reply,
  accepted, threw, settled, dead, retried,
}

backoff_ms-most : (m : ℕ) → 6 ≤ m → backoff_ms m ≡ 300000
unfolding backoff_ms
backoff_ms-most m h = let e : min 6 m ≡ 6 = omega arith in rw (e, backoff_ms) refl

-- A retry waits from five seconds to five minutes, and no shorter than the one before.
pub backoff_ms-bounds :
    (n : ℕ) → (5000 ≤ backoff_ms n) × (backoff_ms n ≤ 300000) × (backoff_ms n ≤ backoff_ms (n + 1))
unfolding backoff_ms
backoff_ms-bounds zero = (omega arith, omega arith, omega arith)
backoff_ms-bounds (suc zero) = (omega arith, omega arith, omega arith)
backoff_ms-bounds (suc (suc zero)) = (omega arith, omega arith, omega arith)
backoff_ms-bounds (suc (suc (suc zero))) = (omega arith, omega arith, omega arith)
backoff_ms-bounds (suc (suc (suc (suc zero)))) = (omega arith, omega arith, omega arith)
backoff_ms-bounds (suc (suc (suc (suc (suc zero))))) = (omega arith, omega arith, omega arith)
backoff_ms-bounds (suc (suc (suc (suc (suc (suc n)))))) =
    rw
      (
        backoff_ms-most (suc (suc (suc (suc (suc (suc n)))))) (omega arith),
        backoff_ms-most (suc (suc (suc (suc (suc (suc n))))) + 1) (omega arith),
      )
      (omega arith, omega arith, omega arith)

-- A row after a number of tries, one after the other, none once it is dead.
abbrev pub try_all : Config → List Reply → Row → Row
try_all c [] r = r
try_all c (reply ∷ replies) r =
    if is_some r.dead_at then r else try_all c replies (settled c reply r)

abbrev pub has_failed : Reply → Bool
has_failed (accepted at) = false
has_failed (threw at message status) = true

try_all-dead :
    (c : Config) (replies : List Reply) (r : Row)
    → is_some r.dead_at ≡ true
    → is_some (try_all c replies r).dead_at ≡ true
try_all-dead c [] r h = h
try_all-dead c (reply ∷ replies) r h = rw h h

dead_after-bound :
    (c : Config) (status : ℕ)
    → dead_after c status ≤ max (dead_after_refusals c) (dead_after_attempts c)
unfolding dead_after
dead_after-bound c status = elim (Bool-cases (is_refused status)) [
  | inl e ↦ rw e (omega arith)
  | inr e ↦ rw e (omega arith)
]

-- A row whose tries all fail, whatever the errors, is dead after at most as many tries as the larger
-- of the two limits, those before counted.
pub try_all-dies :
    (c : Config) (replies : List Reply) (r : Row)
    → All (λ reply. has_failed reply ≡ true) replies
    → max (dead_after_refusals c) (dead_after_attempts c) ≤ r.attempts + length replies
    → r.attempts < max (dead_after_refusals c) (dead_after_attempts c)
    → is_some (try_all c replies r).dead_at ≡ true
unfolding settled dead retried
try_all-dies c [] r failed enough few = absurd (omega arith)
try_all-dies c (accepted at ∷ replies) r (h, failed) enough few = cc
try_all-dies c (threw at message status ∷ replies) r (h, failed) enough few =
    elim (Bool-cases (is_some r.dead_at)) [
      | inl e ↦ try_all-dead c (threw at message status ∷ replies) r e
      | inr alive ↦ elim (Bool-cases (leb (dead_after c status) (r.attempts + 1))) [
        | inl e ↦ rw (alive, e) (try_all-dead c replies (dead at message status r) refl)
        | inr e ↦
            let under : r.attempts + 1 < dead_after c status = ground arith in
            let bound = dead_after-bound c status in
            rw (alive, e)
              (try_all-dies c replies (retried at message r) failed (omega arith) (omega arith))
      ]
    ]
