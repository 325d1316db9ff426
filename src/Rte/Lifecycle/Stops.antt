-- ===== src/Rte/Lifecycle/Stops.antt =====
-- The stop of the components of rte/rte.go: in which order they are released, whatever fails.
use Prim.Native.String.{String}
use text.Mathlib.Text.{◌==◌ as str_eq}
use text.Mathlib.TextEquality.{eq_iff}
use text.Mathlib.TextPositions.{eq_refl}
use tdl.Prelude.{
  Among, ◌≡◌, refl, sym, ap, ◌∙◌, inl, inr, Bool, true, false, not, ◌&&◌, List, [], ◌∷◌, ◌++◌, map,
  if◌then◌else◌, arith, Bool-cases,
}
use tdl.Prelude.Flags.{has}
use tdl.Rte.Assembly.{Manifest, id_of}
use tdl.Rte.Lifecycle.{State, stopped, failed, Runtime, Behaviour, set_state, release, release_all}

abbrev pub holds : Runtime → String → Bool
holds r k = (r.instances k).initialized

pub set_state-holds :
    (id : String) (s : State) (r : Runtime) (k : String) → holds (set_state id s r) k ≡ holds r k
unfolding set_state
set_state-holds id s r k = elim (Bool-cases (str_eq k id)) [
  | inr apart ↦ rw (apart, holds) refl
  | inl this ↦
      rw (this, holds)
        (ap (λ (z : String). (r.instances z).initialized) (sym ((eq_iff k id).0 this)))
]

release-holds :
    (m : Manifest) (r : Runtime) (k : String)
    → holds (release m r) k ≡ (not (str_eq k m.id) && holds r k)
unfolding release
release-holds m r k = elim (Bool-cases (str_eq k m.id)) [
  | inr apart ↦ rw (apart, holds) refl
  | inl this ↦ rw (this, holds) refl
]

module _ (b : String → Behaviour) where
  -- What a round leaves initialized was so, and the ids of other components keep what they have.
  pub release_all-holds :
      (ms : List Manifest) (r : Runtime) (k : String)
      → ((holds (release_all b ms r).1 k ≡ true) → (holds r k ≡ true))
        × (has k (map id_of ms) ≡ false → holds (release_all b ms r).1 k ≡ holds r k)
  unfolding release_all has
  release_all-holds [] r k = (λ h. h, λ _. refl)
  release_all-holds (m ∷ ms) r k = elim (Bool-cases (r.instances m.id).initialized) [
    | inr idle ↦
        let (mono, other) = release_all-holds ms (set_state m.id stopped r) k in
        let same = set_state-holds m.id stopped r k in
        rw (idle, release_all) (λ h. sym same ∙ mono h, λ n. other (ground (arith, n)) ∙ same)
    | inl held ↦ elim (Bool-cases (b m.id).stops) [
      | inr fails ↦
          rw (held, fails, release_all)
            (λ h. sym (set_state-holds m.id failed r k) ∙ h, λ _. set_state-holds m.id failed r k)
      | inl fine ↦
          let (mono, other) = release_all-holds ms (release m r) k in
          let law = release-holds m r k in
          rw (held, fine, release_all)
            (
              λ h. let h' = mono h in ground (arith, h', law),
              λ n. other (ground (arith, n)) ∙ (law ∙ ground (arith, n)),
            )
    ]
  ]

  pub release_all-done :
      (ms : List Manifest) (r : Runtime) (m : Manifest)
      → (release_all b ms r).0 ≡ true
      → Among m ms
      → holds (release_all b ms r).1 m.id ≡ false
  unfolding release_all
  release_all-done [] r m ok h = absurd h
  release_all-done (k ∷ ks) r m ok h = elim (Bool-cases (r.instances k.id).initialized) [
    | inr idle ↦
        let rest = set_state k.id stopped r in
        let ok' : (release_all b ks rest).0 ≡ true = ground (arith, ok, idle) in
        rw (idle, release_all)
          (elim h [
            | inr deep ↦ release_all-done ks rest m ok' deep
            | inl this ↦
                let before = set_state-holds k.id stopped r k.id ∙ idle in
                let after = (release_all-holds ks rest k.id).0 in
                rw this (elim (Bool-cases (holds (release_all b ks rest).1 k.id)) [
                  | inr out ↦ out
                  | inl on ↦ let back = after on in absurd (ground (arith, back, before))
                ])
          ])
    | inl held ↦ elim (Bool-cases (b k.id).stops) [
      | inr fails ↦ absurd (ground (arith, ok, held, fails))
      | inl fine ↦
          let rest = release k r in
          let ok' : (release_all b ks rest).0 ≡ true = ground (arith, ok, held, fine) in
          rw (held, fine, release_all)
            (elim h [
              | inr deep ↦ release_all-done ks rest m ok' deep
              | inl this ↦
                  let before : holds rest k.id ≡ false =
                    ground (arith, release-holds k r k.id, eq_refl k.id) in
                  let after = (release_all-holds ks rest k.id).0 in
                  rw this (elim (Bool-cases (holds (release_all b ks rest).1 k.id)) [
                    | inr out ↦ out
                    | inl on ↦ let back = after on in absurd (ground (arith, back, before))
                  ])
            ])
    ]
  ]

  pub release_all-snoc :
      (xs : List Manifest) (m : Manifest) (r : Runtime)
      → release_all b (xs ++ (m ∷ [])) r ≡ (
          if (release_all b xs r).0
          then release_all b (m ∷ []) (release_all b xs r).1
          else release_all b xs r)
  unfolding release_all
  release_all-snoc [] m r = refl
  release_all-snoc (x ∷ xs) m r = elim (Bool-cases (r.instances x.id).initialized) [
    | inr idle ↦ rw (idle, release_all) (release_all-snoc xs m (set_state x.id stopped r))
    | inl held ↦ elim (Bool-cases (b x.id).stops) [
      | inr fails ↦ rw (held, fails, release_all) refl
      | inl fine ↦ rw (held, fine, release_all) (release_all-snoc xs m (release x r))
    ]
  ]
