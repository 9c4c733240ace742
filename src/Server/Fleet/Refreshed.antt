-- ===== src/Server/Fleet/Refreshed.antt =====
-- server/domain/fleet.js, `refresh`: what it leaves of the table.
use open_vibe_codes.Prelude.{
  ℕ, ◌≡◌, refl, String, Bool, true, false, not, Option, none, some, List, [], ◌∷◌, ◌++◌, string_eq,
  All, Bool-cases, map, includes, ◌∙◌, ◌==◌, truthy, keep, inl, arith, inr, not-true, ==_iff,
  All-imp,
}
use open_vibe_codes.Runtime.{Runtime}
use open_vibe_codes.Server.Fleet.Stored.{
  Stored, Answered, Entry, Refreshed, refresh, answered_with, replaced, is_gone, put_machines,
  put_fleet, put_entries, stored_of, upsert, is_row, machine_re, user_re, agent_re,
}

module _ {ℓ} {A : Type ℓ} where
  -- A filter that drops nothing of what another keeps is not seen through the other.
  keep-absorbs :
      (p q : A → Bool)
      → ((x : A) → q x ≡ true → p x ≡ true)
      → (xs : List A) → keep q (keep p xs) ≡ keep q xs
  keep-absorbs p q h [] = refl
  keep-absorbs p q h (x ∷ xs) = ground (arith, h x, keep-absorbs p q h xs)

  All-keep {κ} : (P : A → Type κ) (p : A → Bool) (xs : List A) → All P xs → All P (keep p xs)
  All-keep P p [] h = tt
  All-keep P p (x ∷ xs) (h, hs) = elim (Bool-cases (p x)) [
    | inl e ↦ rw e (h, All-keep P p xs hs)
    | inr e ↦ rw e (All-keep P p xs hs)
  ]

  All-append {κ} : (P : A → Type κ) (xs ys : List A) → All P xs → All P ys → All P (xs ++ ys)
  All-append P [] ys h k = k
  All-append P (x ∷ xs) ys (h, hs) k = (h, All-append P xs ys hs k)

  All-kept {κ} :
      (P : A → Type κ) (p : A → Bool) (xs : List A)
      → ((x : A) → p x ≡ true → P x)
      → All P (keep p xs)
  All-kept P p [] f = tt
  All-kept P p (x ∷ xs) f = elim (Bool-cases (p x)) [
    | inl e ↦ rw e (f x e, All-kept P p xs f)
    | inr e ↦ rw e (All-kept P p xs f)
  ]

-- The rows of other persons.
abbrev pub others : String → List Stored → List Stored
others subject rows = keep (λ r. not (r.subject == subject)) rows

abbrev pub ids_of : List Answered → List String
ids_of machines = map (λ m. m.id) machines

-- A row of the person's is of one of the machines.
abbrev pub IsOf : String → List String → Stored → Type 0
IsOf subject ids r = (r.subject == subject) ≡ true → includes ids r.machine ≡ true

others-without :
    (subject : String) (p : Stored → Bool) (rows : List Stored)
    → ((r : Stored) → (r.subject == subject) ≡ false → p r ≡ true)
    → others subject (keep p rows) ≡ others subject rows
others-without subject p rows h = keep-absorbs p _ (λ r e. h r (not-true _ e)) rows

others-last :
    (subject : String) (r : Stored) (rows : List Stored)
    → (r.subject == subject) ≡ true
    → others subject (rows ++ r ∷ []) ≡ others subject rows
others-last subject r [] h = rw h refl
others-last subject r (s ∷ rows) h = ground (arith, others-last subject r rows h)

-- What is not gone is of one of the machines.
not_gone-IsOf :
    (subject : String) (ids : List String) (r : Stored)
    → not (is_gone subject ids r) ≡ true
    → IsOf subject ids r
unfolding is_gone
not_gone-IsOf subject ids r kept own = ground arith

module _ (js : Runtime) (now : ℕ) (subject : String) where
  upsert-others :
      (m : Answered) (e : Entry) (rows : List Stored)
      → others subject (upsert (stored_of js now subject m e) rows) ≡ others subject rows
  unfolding upsert stored_of is_row
  upsert-others m e rows =
      others-last subject _ _ ((==_iff subject subject).1 refl)
      ∙ others-without subject _ rows (λ r e. rw e refl)

  put_entries-others :
      (m : Answered) (entries : List Entry) (rows : List Stored)
      → others subject (put_entries js now subject m entries rows) ≡ others subject rows
  unfolding put_entries
  put_entries-others m [] rows = refl
  put_entries-others m (e ∷ entries) rows = elim (Bool-cases (js.test agent_re e.agent)) [
    | inl k ↦ rw k (put_entries-others m entries _ ∙ upsert-others m e rows)
    | inr k ↦ rw k (put_entries-others m entries rows)
  ]

  put_fleet-others :
      (m : Answered) (fleet : Option (List Entry)) (rows : List Stored)
      → others subject (put_fleet js now subject m fleet rows) ≡ others subject rows
  unfolding put_fleet
  put_fleet-others m none rows = refl
  put_fleet-others m (some entries) rows =
      put_entries-others m entries _ ∙ others-without subject _ rows (λ r e. rw e refl)

  put_machines-others :
      (machines : List Answered) (rows : List Stored)
      → others subject (put_machines js now subject machines rows) ≡ others subject rows
  unfolding put_machines
  put_machines-others [] rows = refl
  put_machines-others (m ∷ machines) rows =
      put_machines-others machines _ ∙ put_fleet-others m m.fleet rows

  put_entries-IsOf :
      (ids : List String) (m : Answered) (entries : List Entry) (rows : List Stored)
      → includes ids m.id ≡ true
      → All (IsOf subject ids) rows
      → All (IsOf subject ids) (put_entries js now subject m entries rows)
  unfolding put_entries upsert stored_of
  put_entries-IsOf ids m [] rows listed h = h
  put_entries-IsOf ids m (e ∷ entries) rows listed h =
      elim (Bool-cases (js.test agent_re e.agent)) [
        | inl k ↦ rw k (
            put_entries-IsOf ids m entries _ listed
              (All-append _ _ _ (All-keep _ _ rows h) (λ own. listed, tt)))
        | inr k ↦ rw k (put_entries-IsOf ids m entries rows listed h)
      ]

  put_machines-IsOf :
      (ids : List String) (machines : List Answered) (rows : List Stored)
      → All (λ (m : Answered). includes ids m.id ≡ true) machines
      → All (IsOf subject ids) rows
      → All (IsOf subject ids) (put_machines js now subject machines rows)
  unfolding put_machines put_fleet
  put_machines-IsOf ids [] rows listed h = h
  put_machines-IsOf ids (m ∷ machines) rows (l, listed) h =
      put_machines-IsOf ids machines _ listed (of_fleet m.fleet)
    where
      of_fleet :
          (fleet : Option (List Entry))
          → All (IsOf subject ids) (put_fleet js now subject m fleet rows)
      of_fleet none = h
      of_fleet (some entries) = put_entries-IsOf ids m entries _ l (All-keep _ _ rows h)

ids-listed :
    (machines : List Answered)
    → All (λ (m : Answered). includes (ids_of machines) m.id ≡ true) machines
ids-listed [] = tt
ids-listed (m ∷ machines) = (
  rw ((==_iff m.id m.id).1 refl) refl,
  All-imp _ _ machines (λ n h. ground (arith, h)) (ids-listed machines),
)

-- The machines of the answer that are taken.
abbrev pub taken : Runtime → List Answered → List Answered
taken js machines = keep (λ (m : Answered). js.test machine_re m.id) machines

-- For a person that is signed in and whose machines Bot names: a refresh writes a table in which the
-- rows of all other persons are what they were, in their order, and each row of the person's is of a
-- machine that Bot named with an id that the pattern takes.
pub refresh-Replaces :
    (js : Runtime) (now : ℕ) (subject : String) (token : Option String) (machines : List Answered)
    (rows : List Stored)
    → js.test user_re subject ≡ true
    → truthy token ≡ true
    → (after : List Stored) × (refresh js now subject token (inr machines) rows
        ≡ Refreshed.written after)
      × (others subject after ≡ others subject rows)
      × All (IsOf subject (ids_of (taken js machines))) after
unfolding refresh answered_with replaced is_gone
refresh-Replaces js now subject token machines rows user signed = (
  replaced js now subject (taken js machines) rows,
  rw (user, signed) refl,
  put_machines-others js now subject (taken js machines) _
      ∙ others-without subject _ rows (λ r e. rw (is_gone, e) refl),
  put_machines-IsOf js now subject (ids_of (taken js machines)) (taken js machines) _
      (ids-listed (taken js machines))
      (All-kept _ _ rows (not_gone-IsOf subject (ids_of (taken js machines)))),
)
