-- ===== src/Server/Outbox/Claimed.antt =====
-- server/events/outbox.js: what a pass of the relay leaves alone.
use mathlib.Core.List.{Memᴰ}
use mathlib.Core.Option
use mathlib.Core.Option.{some-injective}
use open_vibe_codes.Prelude.{
  ℕ, zero, suc, ◌≡◌, refl, ◌≢◌, inl, inr, ap, sym, ◌∙◌, String, Bool, true, false, not, ◌&&◌,
  Option, some, List, [], ◌∷◌, map, Bool-cases, get_elem?, includes, ◌==◌, string_eq, ==_iff,
  mem-keep, take, get_elem?-map, if◌then◌else◌, and-true, is_some, ◌≤◌, arith, ◌+◌, ◌⊎◌, ◌<◌,
}
use open_vibe_codes.Server.Outbox.Emit.{Row}
use open_vibe_codes.Server.Outbox.Relay.{
  Config, Claim, Reply, is_due, chosen, claimed, claim, insert_row, in_order, stands_before, update,
  send_all, run_once, is_free,
}

-- The table's primary key.
abbrev pub HasKeys : List Row → Type 0
HasKeys rows =
    (i j : ℕ) (r s : Row)
    → get_elem? rows i ≡ some r
    → get_elem? rows j ≡ some s
    → r.event_id ≡ s.event_id
    → i ≡ j

mem-take {ℓ} : {A : Type ℓ} (n : ℕ) (xs : List A) {x : A} → Memᴰ x (take n xs) → Memᴰ x xs
mem-take zero xs m = elim m [ ]
mem-take (suc n) [] m = elim m [ ]
mem-take (suc n) (y ∷ xs) (Memᴰ.head e) = Memᴰ.head e
mem-take (suc n) (y ∷ xs) (Memᴰ.tail m) = Memᴰ.tail (mem-take n xs m)

mem-insert_row :
    (f : String → String → Bool) (r : Row) (rows : List Row) {x : Row}
    → Memᴰ x (insert_row f r rows)
    → Memᴰ x (r ∷ rows)
unfolding insert_row
mem-insert_row f r [] m = m
mem-insert_row f r (s ∷ rows) {x} m = elim (Bool-cases (stands_before f r s)) [
  | inl e ↦ rw e at m
  | inr e ↦ swap (rw e at m) (mem-insert_row f r rows)
]
  where
    swap :
        Memᴰ x (s ∷ insert_row f r rows)
        → (Memᴰ x (insert_row f r rows) → Memᴰ x (r ∷ rows))
        → Memᴰ x (r ∷ s ∷ rows)
    swap (Memᴰ.head e) ih = Memᴰ.tail (Memᴰ.head e)
    swap (Memᴰ.tail m) ih = under (ih m)
      where
        under : Memᴰ x (r ∷ rows) → Memᴰ x (r ∷ s ∷ rows)
        under (Memᴰ.head e) = Memᴰ.head e
        under (Memᴰ.tail m) = Memᴰ.tail (Memᴰ.tail m)

mem-in_order :
    (f : String → String → Bool) (rows : List Row) {x : Row}
    → Memᴰ x (in_order f rows)
    → Memᴰ x rows
unfolding in_order
mem-in_order f [] m = m
mem-in_order f (r ∷ rows) {x} m =
    under (mem-insert_row f r (in_order f rows) m) (mem-in_order f rows)
  where
    under :
        Memᴰ x (r ∷ in_order f rows) → (Memᴰ x (in_order f rows) → Memᴰ x rows) → Memᴰ x (r ∷ rows)
    under (Memᴰ.head e) ih = Memᴰ.head e
    under (Memᴰ.tail m) ih = Memᴰ.tail (ih m)

-- A row that is claimed is in the table, is due and is not locked.
chosen-is_due :
    (c : Claim) (limit : ℕ) (rows : List Row) {x : Row}
    → Memᴰ x (chosen c limit rows)
    → ((is_due c.now x && not (c.locked x.event_id)) ≡ true) × Memᴰ x rows
unfolding chosen
chosen-is_due c limit rows m =
    mem-keep (λ r. is_due c.now r && not (c.locked r.event_id)) rows
      (mem-in_order c.at_most _ (mem-take _ _ m))

mem-at {ℓ} : {A : Type ℓ} (xs : List A) {x : A} → Memᴰ x xs → (i : ℕ) × (get_elem? xs i ≡ some x)
mem-at [] m = elim m [ ]
mem-at (y ∷ xs) (Memᴰ.head e) = (0, ap some (sym e))
mem-at (y ∷ xs) (Memᴰ.tail m) = let (i, at) = mem-at xs m in (suc i, at)

-- An id that no chosen row bears is not listed.
includes-none :
    (id : String) (xs : List Row)
    → ((x : Row) → Memᴰ x xs → x.event_id ≢ id)
    → includes (map (λ r. r.event_id) xs) id ≡ false
includes-none id [] h = refl
includes-none id (x ∷ xs) h = elim (Bool-cases (x.event_id == id)) [
  | inl e ↦ let (to, of) = ==_iff x.event_id id in absurd (h x (Memᴰ.head refl) (to e))
  | inr e ↦ rw e (includes-none id xs (λ y m. h y (Memᴰ.tail m)))
]

-- What a function fixes stays where it is.
map-fixed {ℓ} :
    {A : Type ℓ} (f : A → A) (xs : List A) (i : ℕ) (x : A)
    → get_elem? xs i ≡ some x
    → f x ≡ x
    → get_elem? (map f xs) i ≡ some x
map-fixed f xs i x at fixed = get_elem?-map f xs i ∙ ap (Option.map f) at ∙ ap some fixed

send_all-at :
    (c : Config) (reply : String → Reply) (ids : List String) (rows : List Row) (i : ℕ) (r : Row)
    → includes ids r.event_id ≡ false
    → get_elem? rows i ≡ some r
    → get_elem? (send_all c reply ids rows) i ≡ some r
unfolding send_all update
send_all-at c reply [] rows i r h at = at
send_all-at c reply (id ∷ ids) rows i r h at = elim (Bool-cases (id == r.event_id)) [
  | inl e ↦ cc (rw e at h)
  | inr e ↦ elim (Bool-cases (r.event_id == id)) [
    | inl k ↦
        let (to, of) = ==_iff r.event_id id in
        let (to', of') = ==_iff id r.event_id in cc (rw (of' (sym (to k))) at e)
    | inr k ↦
        send_all-at c reply ids (update c (reply id) id rows) i r (rw e at h)
          (map-fixed _ rows i r at (rw k refl))
  ]
]

claim-at :
    (c : Claim) (limit : ℕ) (rows : List Row) (i : ℕ) (r : Row)
    → includes (map (λ x. x.event_id) (chosen c limit rows)) r.event_id ≡ false
    → get_elem? rows i ≡ some r
    → get_elem? (claim c limit rows) i ≡ some r
unfolding claim claimed
claim-at c limit rows i r h at = map-fixed _ rows i r at (rw h refl)

true_not_false : false ≡ true → ⊥
true_not_false h = cc

if-at :
    (b : Bool) (p q : List Row × ℕ) (i : ℕ) {o : Option Row}
    → get_elem? p.0 i ≡ o
    → get_elem? q.0 i ≡ o
    → get_elem? (if b then p else q).0 i ≡ o
if-at true p q i h k = h
if-at false p q i h k = k

-- A row that a pass has nothing to do with: published, dead, waiting for its retry, or claimed in the
-- last two minutes.
abbrev pub IsOver : ℕ → Row → Type 0
IsOver now r =
    (is_some r.published_at ≡ true)
    ⊎ (is_some r.dead_at ≡ true)
    ⊎ (now < r.next_attempt_at)
    ⊎ ((at : ℕ) × (r.claimed_at ≡ some at) × (now ≤ at + 120000))

is_free-recent :
    (claimed_at : Option ℕ) (at now : ℕ)
    → claimed_at ≡ some at
    → now ≤ at + 120000
    → is_free claimed_at now ≡ false
is_free-recent claimed_at at now e h = rw e (ground arith)

IsOver-is_due : (now : ℕ) (r : Row) → IsOver now r → is_due now r ≡ false
unfolding is_due
IsOver-is_due now r (inl h) = rw h refl
IsOver-is_due now r (inr (inl h)) = ground arith
IsOver-is_due now r (inr (inr (inl h))) = ground arith
IsOver-is_due now r (inr (inr (inr (at, e, h)))) =
    ground (arith, is_free-recent r.claimed_at at now e h)

-- A pass leaves a row that is published, dead, waiting for its retry or claimed in the last two
-- minutes exactly as it is, whatever the other sends come to, when event ids are unique.
pub run_once-keeps :
    (c : Config) (w : Claim) (reply : String → Reply) (limit : ℕ) (rows : List Row) (i : ℕ)
    (r : Row)
    → HasKeys rows
    → get_elem? rows i ≡ some r
    → IsOver w.now r
    → get_elem? (run_once c w reply limit rows).0 i ≡ some r
unfolding run_once
run_once-keeps c w reply limit rows i r keys at past =
    let over : is_due w.now r ≡ false = IsOver-is_due w.now r past in
    let none_listed = includes-none r.event_id (chosen w limit rows) (λ x m e.
      let (due, listed) = chosen-is_due w limit rows m in
      let (j, there) = mem-at rows listed in
      let same = keys i j r x at there (sym e) in
      let equal : some r ≡ some x = sym at ∙ ap (get_elem? rows) same ∙ there in
      let (due_now, unlocked) = and-true _ _ due in
      true_not_false (sym over ∙ ap (is_due w.now) (some-injective _ _ equal) ∙ due_now)) in
    if-at c.configured _ _ i
      (send_all-at c reply _ _ i r none_listed (claim-at w limit rows i r none_listed at)) at
