-- ===== src/Server/Fleet/Merged.antt =====
-- server/domain/fleet.js: merging the machines' windows hides no reading.
use mathlib.Core.List.{Memᴰ}
use mathlib.Core.Path.{subst}
use open_vibe_codes.Prelude.{
  ◌≤◌, ◌≡◌, refl, ◌∙◌, inl, inr, List, [], ◌∷◌, arith, Bool-cases, All, All-imp, ltb, ◌==◌,
  string_eq, ==_iff, ap, sym,
}
use open_vibe_codes.Server.Fleet.{Window, score, put, merge_from, merge_lists, merge_windows}

-- A window of the name is listed, and no emptier.
pub record Covers (windows : List Window) (w : Window) : Type 0 where
  pub window : Window
  pub listed : Memᴰ window windows
  pub named : window.name ≡ w.name
  pub fuller : score w ≤ score window

Covers-tail :
    (v : Window) (windows : List Window) (w : Window) → Covers windows w → Covers (v ∷ windows) w
Covers-tail v windows w c = record {
  window = c.window;
  listed = Memᴰ.tail c.listed;
  named = c.named;
  fuller = c.fuller;
}

put-Covers : (w : Window) (seen : List Window) → Covers (put w seen) w
unfolding put
put-Covers w [] = record { window = w; listed = Memᴰ.head refl; named = refl; fuller = omega arith }
put-Covers w (v ∷ seen) = elim (Bool-cases (v.name == w.name)) [
  | inr e ↦ rw (e, put) (Covers-tail v (put w seen) w (put-Covers w seen))
  | inl e ↦ elim (Bool-cases (ltb (score v) (score w))) [
    | inl f ↦
        rw (e, f, put)
          (record { window = w; listed = Memᴰ.head refl; named = refl; fuller = omega arith })
    | inr f ↦
        rw (e, f, put)
          (record {
            window = v;
            listed = Memᴰ.head refl;
            named = (==_iff v.name w.name).0 e;
            fuller = ground arith;
          })
  ]
]

-- What a seen window covers is covered behind a put: by itself, or by the fuller reading that took its
-- place.
put-keeps :
    (w : Window) (seen : List Window) (u x : Window)
    → Memᴰ u seen
    → u.name ≡ x.name
    → score x ≤ score u
    → Covers (put w seen) x
unfolding put
put-keeps w [] u x m named fuller = elim m [ ]
put-keeps w (v ∷ seen) u x (Memᴰ.head same) named fuller =
    let name : v.name ≡ x.name = ap (λ z. z.name) (sym same) ∙ named in
    let more : score x ≤ score v = subst (λ z. score x ≤ score z) same fuller in
    elim (Bool-cases (v.name == w.name)) [
      | inr e ↦
          rw (e, put) (record { window = v; listed = Memᴰ.head refl; named = name; fuller = more })
      | inl e ↦ elim (Bool-cases (ltb (score v) (score w))) [
        | inl f ↦
            rw (e, f, put)
              (record {
                window = w;
                listed = Memᴰ.head refl;
                named = sym ((==_iff v.name w.name).0 e) ∙ name;
                fuller = ground (arith, more);
              })
        | inr f ↦
            rw (e, f, put)
              (record { window = v; listed = Memᴰ.head refl; named = name; fuller = more })
      ]
    ]
put-keeps w (v ∷ seen) u x (Memᴰ.tail m) named fuller =
    let here : Covers seen x = record { window = u; listed = m; named = named; fuller = fuller } in
    elim (Bool-cases (v.name == w.name)) [
      | inr e ↦ rw (e, put) (Covers-tail v (put w seen) x (put-keeps w seen u x m named fuller))
      | inl e ↦ elim (Bool-cases (ltb (score v) (score w))) [
        | inl f ↦ rw (e, f, put) (Covers-tail w seen x here)
        | inr f ↦ rw (e, f, put) (Covers-tail v seen x here)
      ]
    ]

merge_from-keeps :
    (seen windows : List Window) (x : Window) → Covers seen x → Covers (merge_from seen windows) x
unfolding merge_from
merge_from-keeps seen [] x c = c
merge_from-keeps seen (w ∷ windows) x c =
    merge_from-keeps (put w seen) windows x (put-keeps w seen c.window x c.listed c.named c.fuller)

merge_from-Covers : (seen windows : List Window) → All (Covers (merge_from seen windows)) windows
unfolding merge_from
merge_from-Covers seen [] = tt
merge_from-Covers seen (w ∷ windows) = (
  merge_from-keeps (put w seen) windows w (put-Covers w seen),
  merge_from-Covers (put w seen) windows,
)

merge_lists-keeps :
    (seen : List Window) (lists : List (List Window)) (x : Window)
    → Covers seen x
    → Covers (merge_lists seen lists) x
unfolding merge_lists
merge_lists-keeps seen [] x c = c
merge_lists-keeps seen (windows ∷ lists) x c =
    merge_lists-keeps (merge_from seen windows) lists x (merge_from-keeps seen windows x c)

merge_lists-Covers :
    (seen : List Window) (lists : List (List Window))
    → All (All (Covers (merge_lists seen lists))) lists
unfolding merge_lists
merge_lists-Covers seen [] = tt
merge_lists-Covers seen (windows ∷ lists) = (
  All-imp _ _ windows (λ x. merge_lists-keeps (merge_from seen windows) lists x)
      (merge_from-Covers seen windows),
  merge_lists-Covers (merge_from seen windows) lists,
)

-- Every window that a machine reports is covered by the merge: it lists a window of that name that is
-- at least as full.
pub merge_windows-Covers :
    (lists : List (List Window)) → All (All (Covers (merge_windows lists))) lists
unfolding merge_windows
merge_windows-Covers lists = merge_lists-Covers [] lists
