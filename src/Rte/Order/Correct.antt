-- ===== src/Rte/Order/Correct.antt =====
-- The order of dependencies of rte against the search for loops in application/forward.rules/rules.go, which
-- is the same search without an order.
use Prim.Native.String.{String}
use tdl.Prelude.{
  ℕ, zero, suc, ◌≡◌, refl, ap, subst, ◌⊎◌, inl, inr, Bool, true, false, none, some, List, [], ◌∷◌,
  ◌++◌, Bool-cases,
}
use tdl.Prelude.Flags.{has}
use tdl.Forward.Cycle.{Visit, scan_targets, visit_source}
use tdl.Rte.Order.{Walked, out_of_fuel, unknown, cycle, ended, visit_all, visit_id}

abbrev pub rev : List String → List String
rev [] = []
rev (x ∷ xs) = rev xs ++ (x ∷ [])

-- A visit that meets no unknown dependency and the search: the order is that of the entries of `done`.
abbrev pub Agrees : Walked → Visit → Type 0
Agrees out_of_fuel v = v ≡ none
Agrees (unknown x) v = Unit {0}
Agrees (cycle x) v = (vs : List String) × (v ≡ some (true, vs))
Agrees (ended done order) v = (v ≡ some (false, done)) × (order ≡ rev done)

pub Walked-cases :
    (w : Walked)
    → (w ≡ out_of_fuel)
      ⊎ ((x : String) × (w ≡ unknown x))
      ⊎ ((x : String) × (w ≡ cycle x))
      ⊎ ((done order : List String) × (w ≡ ended done order))
Walked-cases out_of_fuel = inl refl
Walked-cases (unknown x) = inr (inl (x, refl))
Walked-cases (cycle x) = inr (inr (inl (x, refl)))
Walked-cases (ended done order) = inr (inr (inr (done, order, refl)))

pub visit_all-Agrees :
    (known : String → Bool) (visit : List String → List String → String → Walked)
    (seek : List String → String → Visit)
    → ((vs order : List String) (t : String)
        → order ≡ rev vs
        → Agrees (visit vs order t) (seek vs t))
    → (vs order ts : List String) → order ≡ rev vs
    → Agrees (visit_all known visit vs order ts) (scan_targets seek vs ts)
unfolding visit_all scan_targets
visit_all-Agrees known visit seek step vs order [] e = (refl, e)
visit_all-Agrees known visit seek step vs order (t ∷ ts) e = elim (Bool-cases (known t)) [
  | inr strange ↦ rw strange tt
  | inl fine ↦
      let one = step vs order t e in
      elim (Walked-cases (visit vs order t)) [
        | inl w ↦
            let v = subst (λ x. Agrees x (seek vs t)) w one in rw (fine, w, scan_targets, v) refl
        | inr (inl (x, w)) ↦ rw (fine, w) tt
        | inr (inr (inl (x, w))) ↦
            let (us, v) = subst (λ z. Agrees z (seek vs t)) w one in
            rw (fine, w, scan_targets, v) (us, refl)
        | inr (inr (inr (done, next, w))) ↦
            let (v, o) = subst (λ z. Agrees z (seek vs t)) w one in
            rw (fine, w, scan_targets, v) (visit_all-Agrees known visit seek step done next ts o)
      ]
]

pub visit_id-Agrees :
    (fuel : ℕ) (known : String → Bool) (deps : String → List String)
    (visiting vs order : List String) (id : String)
    → order ≡ rev vs
    → Agrees (visit_id fuel known deps visiting vs order id) (visit_source fuel deps visiting vs id)
unfolding visit_id visit_source
visit_id-Agrees zero known deps visiting vs order id e = refl
visit_id-Agrees (suc fuel) known deps visiting vs order id e = elim (Bool-cases (has id visiting)) [
  | inl loop ↦ rw loop (vs, refl)
  | inr free ↦ elim (Bool-cases (has id vs)) [
    | inl old ↦ rw (free, old) (refl, e)
    | inr new ↦
        let walk = visit_all known (visit_id fuel known deps (id ∷ visiting)) vs order (deps id) in
        let seek = scan_targets (visit_source fuel deps (id ∷ visiting)) vs (deps id) in
        let below =
          visit_all-Agrees known (visit_id fuel known deps (id ∷ visiting))
            (visit_source fuel deps (id ∷ visiting))
            (λ us o t h. visit_id-Agrees fuel known deps (id ∷ visiting) us o t h) vs order
            (deps id) e in
        elim (Walked-cases walk) [
          | inl w ↦
              let v = subst (λ x. Agrees x seek) w below in rw (visit_source, free, new, w, v) refl
          | inr (inl (x, w)) ↦ rw (free, new, w) tt
          | inr (inr (inl (x, w))) ↦
              let (us, v) = subst (λ z. Agrees z seek) w below in
              rw (visit_source, free, new, w, v) (us, refl)
          | inr (inr (inr (done, next, w))) ↦
              let (v, o) = subst (λ z. Agrees z seek) w below in
              rw (visit_source, free, new, w, v) (refl, ap (λ (z : List String). z ++ (id ∷ [])) o)
        ]
  ]
]
