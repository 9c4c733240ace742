-- ===== src/Server/Failover/Settings.antt =====
-- server/domain/conductor-failover.js: what the settings let through.
use mathlib.Core.Option.{some-injective}
use mathlib.Core.Path.{subst}
use open_vibe_codes.Prelude.{
  ◌≤◌, ◌≡◌, refl, String, true, false, Option, none, some, List, [], ◌∷◌, ◌++◌, arith, Bool-cases,
  includes, length, ◌==◌, string_eq, not, ◌&&◌, ltb, ap, ◌⊎◌, inl, inr,
}
use open_vibe_codes.Runtime.{Runtime}
use open_vibe_codes.Server.Failover.{
  Checked, ok, invalid, Fallback, Item, blank, item, is_listed, add_item, clean_items,
  at_most_three, clean_fallbacks, stored_fallbacks, conductor_agents, model_re, model_or_null,
}

Checked-cases {ℓ} :
    {A : Type ℓ} (c : Checked A) → ((code : String) × (c ≡ invalid code)) ⊎ ((a : A) × (c ≡ ok a))
Checked-cases (invalid code) = inl (code, refl)
Checked-cases (ok a) = inr (a, refl)

ok-injective {ℓ} : {A : Type ℓ} {a b : A} → ok a ≡ ok b → a ≡ b
ok-injective h = cc

module _ (js : Runtime) where
  at_most_three-ok :
      (c : Checked (List Fallback)) (out : List Fallback)
      → at_most_three js c ≡ ok out
      → (c ≡ ok out) × (length out ≤ 3)
  unfolding at_most_three
  at_most_three-ok (invalid code) out h = cc
  at_most_three-ok (ok all) out h = elim (Bool-cases (ltb 3 (length all))) [
    | inl e ↦ cc (rw e at h)
    | inr e ↦
        let same : all ≡ out = ok-injective (rw e at h) in
        (ap ok same, subst (λ l. length l ≤ 3) same (ground arith))
  ]

  -- An agent the conductor knows, with no model or with one that the pattern takes.
  abbrev pub IsFallback : Fallback → Type 0
  IsFallback f =
      (includes conductor_agents f.agent ≡ true)
      × ((m : String) → f.model ≡ some m → js.test model_re m ≡ true)

  -- A list built at its end, each agent and model pair once.
  pub data IsClean : List Fallback → Type 0 where
    start : IsClean []
    add :
        (out : List Fallback) (f : Fallback)
        → IsClean out
        → IsFallback f
        → is_listed js out f ≡ false
        → IsClean (out ++ f ∷ [])

  -- The model that an item asks for has passed the pattern.
  model-passed :
      (raw : String)
      → not (raw == "") && not (js.test model_re raw) ≡ false
      → (m : String) → model_or_null js raw ≡ some m
      → js.test model_re m ≡ true
  model-passed raw h m e = elim (Bool-cases (raw == "")) [
    | inl k ↦ cc (rw k at e)
    | inr k ↦
        let same : raw ≡ m = some-injective _ _ (rw k at e) in
        elim (Bool-cases (js.test model_re raw)) [
          | inl l ↦ subst (λ t. js.test model_re t ≡ true) same l
          | inr l ↦ cc (rw (k, l) at h)
        ]
  ]

  add_item-IsClean :
      (out : List Fallback) (agent raw : String) (next : List Fallback)
      → IsClean out
      → add_item js out agent raw ≡ ok next
      → IsClean next
  unfolding add_item
  add_item-IsClean out agent raw next clean h =
      let f : Fallback = record { agent = agent; model = model_or_null js raw } in
      elim (Bool-cases (agent == "")) [
        | inl e ↦ subst IsClean (ok-injective (rw e at h)) clean
        | inr e ↦ elim (Bool-cases (includes conductor_agents agent)) [
          | inr g ↦ cc (rw (e, g) at h)
          | inl g ↦ elim (Bool-cases (not (raw == "") && not (js.test model_re raw))) [
            | inl k ↦ cc (rw (e, g, k) at h)
            | inr k ↦ elim (Bool-cases (is_listed js out f)) [
              | inl l ↦ subst IsClean (ok-injective (rw (e, g, k, l) at h)) clean
              | inr l ↦
                  subst IsClean (ok-injective (rw (e, g, k, l) at h))
                    (IsClean.add out f clean (g, model-passed raw k) l)
            ]
          ]
        ]
      ]

  clean_items-IsClean :
      (out : List Fallback) (items : List Item) (next : List Fallback)
      → IsClean out
      → clean_items js out items ≡ ok next
      → IsClean next
  unfolding clean_items
  clean_items-IsClean out [] next clean h = subst IsClean (ok-injective h) clean
  clean_items-IsClean out (blank ∷ items) next clean h = clean_items-IsClean out items next clean h
  clean_items-IsClean out (item agent model ∷ items) next clean h =
      elim (Checked-cases (add_item js out (js.trim agent) (js.trim model))) [
        | inl (code, e) ↦ cc (rw (e, clean_items) at h)
        | inr (mid, e) ↦
            clean_items-IsClean mid items next (add_item-IsClean out _ _ mid clean e)
              (rw (e, clean_items) at h)
      ]

  -- Whatever is stored, the fallbacks that are read are at most three, each an agent the conductor
  -- knows with no model or one that the pattern takes, and no pair of an agent and a model twice.
  pub stored_fallbacks-IsClean :
      (stored : Option (List Item))
      → IsClean (stored_fallbacks js stored) × (length (stored_fallbacks js stored) ≤ 3)
  unfolding stored_fallbacks clean_fallbacks
  stored_fallbacks-IsClean none = (IsClean.start, omega arith)
  stored_fallbacks-IsClean (some items) =
      elim (Checked-cases (at_most_three js (clean_items js [] items))) [
        | inl (code, e) ↦ rw e (IsClean.start, omega arith)
        | inr (out, e) ↦
            let (at, few) = at_most_three-ok _ out e in
            rw e (clean_items-IsClean [] items out IsClean.start at, few)
      ]
