-- ===== src/Rte/Assembly/Needs.antt =====
-- The second loop of Build of rte/rte.go: what each component requires is there, and is a dependency of it.
use Prim.Native.String.{String}
use text.Mathlib.Text.{◌==◌ as str_eq}
use text.Mathlib.TextEquality.{eq_iff}
use text.Mathlib.TextPositions.{eq_refl}
use tdl.Prelude.{
  Among, ◌≡◌, refl, sym, subst, ◌⊎◌, inl, inr, true, not, ◌&&◌, ◌||◌, none, some, List, [], ◌∷◌,
  ◌++◌, arith, Bool-cases, Option-cases, Sum-cases,
}
use tdl.Prelude.Flags.{has}
use tdl.Rte.Assembly.{
  Require, Manifest, Provider, valid_port, Table, find_port, is_compatible, Edges, add_requires,
  add_all_requires, deps_at,
}

-- The pairs are of ids only.
abbrev pub Closed : List String → Edges → Type 0
Closed ids edges =
    (x y : String) → has y (deps_at edges x) ≡ true → (has x ids ≡ true) × (has y ids ≡ true)

abbrev Grown : Edges → Edges → Type 0
Grown edges edges' =
    (x y : String) → has y (deps_at edges x) ≡ true → has y (deps_at edges' x) ≡ true

-- A requirement has no provider and is optional, or its provider fits and is a dependency.
abbrev pub Met : Table → Edges → String → Require → Type 0
Met table edges id r =
    ((r.optional ≡ true) × (find_port r.port.name table ≡ none))
    ⊎ ((e : Provider) × (find_port r.port.name table ≡ some e)
        × (is_compatible e.port r.port ≡ true)
        × (has e.owner (deps_at edges id) ≡ true))

Met-Grown :
    (table : Table) (edges edges' : Edges) (id : String) (r : Require)
    → Grown edges edges'
    → Met table edges id r
    → Met table edges' id r
Met-Grown table edges edges' id r more (inl h) = inl h
Met-Grown table edges edges' id r more (inr (e, f, c, d)) = inr (e, f, c, more id e.owner d)

-- Adding one pair adds one dependency.
has-deps_at :
    (edges : Edges) (a b x y : String)
    → has y (deps_at (edges ++ ((a, b) ∷ [])) x)
      ≡ (has y (deps_at edges x) || (str_eq a x && str_eq y b))
unfolding has deps_at
has-deps_at [] a b x y = ground arith
has-deps_at ((c, d) ∷ edges) a b x y = ground (arith, has-deps_at edges a b x y)

Closed-snoc :
    (ids : List String) (edges : Edges) (a b : String)
    → has a ids ≡ true
    → has b ids ≡ true
    → Closed ids edges
    → Closed ids (edges ++ ((a, b) ∷ []))
Closed-snoc ids edges a b ha hb closed x y h = elim (Bool-cases (has y (deps_at edges x))) [
  | inl old ↦ closed x y old
  | inr new ↦
      let law = has-deps_at edges a b x y in
      let from : a ≡ x = ground (arith, law, h, new, eq_iff a x) in
      let to : y ≡ b = ground (arith, law, h, new, eq_iff y b) in
      (
        subst (λ (z : String). has z ids ≡ true) from ha,
        subst (λ (z : String). has z ids ≡ true) (sym to) hb,
      )
]

-- What the loop over the requirements of one component, or of all, leaves behind.
abbrev Linked : List String → Edges → Edges → Type 0
Linked ids edges edges' = Closed ids edges' × Grown edges edges'

module _ (table : Table) (ids : List String)
    (owners : (name : String) (e : Provider)
      → find_port name table ≡ some e
      → has e.owner ids ≡ true) where
  add_requires-Met :
      (id : String) (seen : List String) (rs : List Require) (edges edges' : Edges)
      → has id ids ≡ true
      → Closed ids edges
      → add_requires id table seen rs edges ≡ inr edges'
      → Linked ids edges edges' × ((r : Require) → Among r rs → Met table edges' id r)
  unfolding add_requires
  add_requires-Met id seen [] edges edges' here closed e =
      let this : edges ≡ edges' = ground (arith, e) in
      (subst (Linked ids edges) this (closed, λ x y h. h), λ r h. absurd h)
  add_requires-Met id seen (r ∷ rs) edges edges' here closed e =
      elim (Bool-cases (not (valid_port r.port))) [
        | inl bad ↦ absurd (ground (arith, e, bad))
        | inr good ↦ elim (Bool-cases (has r.port.name seen)) [
          | inl twice ↦ absurd (ground (arith, e, good, twice))
          | inr once ↦ elim (Option-cases (find_port r.port.name table)) [
            | inl f ↦ elim (Bool-cases r.optional) [
              | inr must ↦ absurd (ground (arith, e, good, once, f, must))
              | inl may ↦
                  let (l, rest) =
                    add_requires-Met id (r.port.name ∷ seen) rs edges edges' here closed
                      (ground (arith, e, good, once, f, may)) in
                  (
                    l,
                    λ q k. elim k [
                      | inl this ↦ subst (Met table edges' id) (sym this) (inl (may, f))
                      | inr deep ↦ rest q deep
                    ],
                  )
            ]
            | inr (p, f) ↦ elim (Bool-cases (not (is_compatible p.port r.port))) [
              | inl no_fit ↦ absurd (ground (arith, e, good, once, f, no_fit))
              | inr fits ↦
                  let mid = edges ++ ((id, p.owner) ∷ []) in
                  let ((closed', more), rest) =
                    add_requires-Met id (r.port.name ∷ seen) rs mid edges' here
                      (Closed-snoc ids edges id p.owner here (owners r.port.name p f) closed)
                      (ground (arith, e, good, once, f, fits)) in
                  let mine : has p.owner (deps_at mid id) ≡ true =
                    ground (
                      arith,
                      has-deps_at edges id p.owner id p.owner,
                      eq_refl id,
                      eq_refl p.owner,
                    ) in
                  (
                    (
                      closed',
                      λ x y h. more x y (ground (arith, has-deps_at edges id p.owner x y, h)),
                    ),
                    λ q k. elim k [
                      | inl this ↦
                          subst (Met table edges' id) (sym this)
                            (inr (p, f, ground (arith, fits), more id p.owner mine))
                      | inr deep ↦ rest q deep
                    ],
                  )
            ]
          ]
        ]
      ]

  pub add_all_requires-Met :
      (ms : List Manifest) (edges edges' : Edges)
      → ((m : Manifest) → Among m ms → has m.id ids ≡ true)
      → Closed ids edges
      → add_all_requires table ms edges ≡ inr edges'
      → Linked ids edges edges'
        × ((m : Manifest)
            → Among m ms
            → (r : Require) → Among r m.requires
            → Met table edges' m.id r)
  unfolding add_all_requires
  add_all_requires-Met [] edges edges' here closed e =
      let this : edges ≡ edges' = ground (arith, e) in
      (subst (Linked ids edges) this (closed, λ x y h. h), λ m h. absurd h)
  add_all_requires-Met (m ∷ ms) edges edges' here closed e =
      elim (Sum-cases (add_requires m.id table [] m.requires edges)) [
        | inl (x, f) ↦ absurd (ground (arith, e, f))
        | inr (mid, f) ↦
            let ((c, g), met) =
              add_requires-Met m.id [] m.requires edges mid (here m (inl refl)) closed f in
            let ((c', g'), rest) =
              add_all_requires-Met ms mid edges' (λ k h. here k (inr h)) c (ground (arith, e, f)) in
            (
              (c', λ x y h. g' x y (g x y h)),
              λ k h. elim h [
                | inr deep ↦ rest k deep
                | inl this ↦ λ r a. Met-Grown table mid edges' k.id r g' (
                    subst
                      (λ (z : Manifest). (q : Require) → Among q z.requires → Met table mid z.id q)
                      (sym this) met r a)
              ],
            )
      ]
