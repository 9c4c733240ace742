-- ===== src/Server/RunTasks/Advance.antt =====
-- server/domain/run-tasks.js: the states of a task by themselves, and what `recordState` does to one.
use open_vibe_codes.Prelude.{
  ℕ, ltb, Bool-cases, ==_iff, ◌≡◌, refl, sym, ◌⊎◌, inl, inr, String, Bool, true, false, not, ◌&&◌,
  ◌||◌, some, if◌then◌else◌, ◌==◌, string_eq,
}
use open_vibe_codes.Server.RunTasks.{is_state, is_terminal, rank}
use open_vibe_codes.Server.RunTasks.Record.{is_late}

-- How a task ended, and where it stands.
pub data End : Type 0 where
  succeeded failed cancelled expired : End

pub data Phase : Type 0 where
  queued placed running : Phase
  ended : End → Phase

abbrev pub end_word : End → String
end_word succeeded = "succeeded"
end_word failed = "failed"
end_word cancelled = "cancelled"
end_word expired = "expired"

abbrev pub word : Phase → String
word queued = "queued"
word placed = "placed"
word running = "running"
word (ended e) = end_word e

-- Where a task stands once a state arrived: an end is final, and nothing moves back.
unfoldable pub arrive : Phase → Phase → Phase
arrive (ended e) s = ended e
arrive queued s = s
arrive placed queued = placed
arrive placed s = s
arrive running (ended e) = ended e
arrive running s = running

-- The states as the code names them.
unfoldable pub advance : String → String → String
advance current state = if is_late state current then current else state

abbrev pub level : Phase → ℕ
level queued = 0
level placed = 1
level running = 2
level (ended e) = 3

pub rank-word : (s : Phase) → rank (word s) ≡ some (level s)
unfolding rank
rank-word queued = refl
rank-word placed = refl
rank-word running = refl
rank-word (ended succeeded) = refl
rank-word (ended failed) = refl
rank-word (ended cancelled) = refl
rank-word (ended expired) = refl

abbrev pub is_over : Phase → Bool
is_over (ended e) = true
is_over _ = false

pub is_terminal-word : (s : Phase) → is_terminal (word s) ≡ is_over s
unfolding is_terminal
is_terminal-word queued = refl
is_terminal-word placed = refl
is_terminal-word running = refl
is_terminal-word (ended succeeded) = refl
is_terminal-word (ended failed) = refl
is_terminal-word (ended cancelled) = refl
is_terminal-word (ended expired) = refl

pub is_state-word : (s : Phase) → is_state (word s) ≡ true
unfolding is_state
is_state-word queued = refl
is_state-word placed = refl
is_state-word running = refl
is_state-word (ended succeeded) = refl
is_state-word (ended failed) = refl
is_state-word (ended cancelled) = refl
is_state-word (ended expired) = refl

-- A state is late when its rank is lower, or another end came before.
pub is_late-word :
    (p s : Phase)
    → is_late (word s) (word p) ≡ (ltb (level s) (level p) || (is_over p && not (word p == word s)))
unfolding is_late
is_late-word p s = rw (rank-word s, rank-word p, is_terminal-word p) refl

pub advance-word : (p s : Phase) → advance (word p) (word s) ≡ word (arrive p s)
unfolding advance arrive
advance-word (ended e) (ended d) =
    rw (is_late-word (ended e) (ended d)) (same (Bool-cases (end_word e == end_word d)))
  where
    same :
        (((end_word e == end_word d) ≡ true) ⊎ ((end_word e == end_word d) ≡ false))
        → (if not (end_word e == end_word d) then end_word e else end_word d) ≡ end_word e
    same (inl h) = rw h (sym ((==_iff (end_word e) (end_word d)).0 h))
    same (inr h) = rw h refl
advance-word (ended e) queued = rw (is_late-word (ended e) queued) refl
advance-word (ended e) placed = rw (is_late-word (ended e) placed) refl
advance-word (ended e) running = rw (is_late-word (ended e) running) refl
advance-word queued queued = rw (is_late-word queued queued) refl
advance-word queued placed = rw (is_late-word queued placed) refl
advance-word queued running = rw (is_late-word queued running) refl
advance-word queued (ended e) = rw (is_late-word queued (ended e)) refl
advance-word placed queued = rw (is_late-word placed queued) refl
advance-word placed placed = rw (is_late-word placed placed) refl
advance-word placed running = rw (is_late-word placed running) refl
advance-word placed (ended e) = rw (is_late-word placed (ended e)) refl
advance-word running queued = rw (is_late-word running queued) refl
advance-word running placed = rw (is_late-word running placed) refl
advance-word running running = rw (is_late-word running running) refl
advance-word running (ended e) = rw (is_late-word running (ended e)) refl
