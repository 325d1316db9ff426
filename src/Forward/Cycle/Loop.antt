-- ===== src/Forward/Cycle/Loop.antt =====
-- The answers of the search of application/forward.rules/rules.go against chains of forwards.
use Prim.Native.String.{String}
use tdl.Prelude.Flags.{has, has_cons, has_later, has_nil, has_self}
use tdl.Prelude.{
  ℕ, zero, suc, ◌≡◌, sym, subst, inl, inr, true, false, some, List, [], ◌∷◌, arith, Bool-cases,
  Option-cases,
}
use tdl.Forward.Cycle.{Visit, scan_targets, visit_source}
use tdl.Forward.Cycle.Search.{Walk, one, more, Settled}

step-Settled :
    (targets : String → List String) (vs : List String) (x y : String)
    → Settled targets vs
    → has x vs ≡ true
    → has y (targets x) ≡ true
    → has y vs ≡ true
step-Settled targets [] x y h k e = absurd (has_nil x k)
step-Settled targets (v ∷ vs) x y (_, all, h) k e = elim (has_cons x v vs k) [
  | inl same ↦ has_later y v vs (all y (subst (λ z. has y (targets z) ≡ true) same e))
  | inr deeper ↦ has_later y v vs (step-Settled targets vs x y h deeper e)
]

Walk-into :
    (targets : String → List String) (vs : List String) (x y : String)
    → Settled targets vs
    → ((z : String) → has z (targets x) ≡ true → has z vs ≡ true)
    → Walk targets x y
    → has y vs ≡ true
Walk-into targets vs x y h all (one e) = all y e
Walk-into targets vs x y h all (more {y = m} w e) =
    step-Settled targets vs m y h (Walk-into targets vs x m h all w) e

-- No chain leads from a settled source back to it.
pub no-Walk-Settled :
    (targets : String → List String) (vs : List String) (x : String)
    → Settled targets vs
    → has x vs ≡ true
    → Walk targets x x
    → ⊥
no-Walk-Settled targets [] x h k w = has_nil x k
no-Walk-Settled targets (v ∷ vs) x (fresh, all, h) k w = elim (has_cons x v vs k) [
  | inl same ↦
      let w' : Walk targets v v = subst (λ z. Walk targets z z) same w in
      let back : has v vs ≡ true = Walk-into targets vs v v h all w' in
      absurd (ground (arith, back, fresh))
  | inr deeper ↦ no-Walk-Settled targets vs x h deeper w
]

-- A chain has a first forward.
pub first_step :
    (targets : String → List String) (x y : String)
    → Walk targets x y
    → (z : String) × has z (targets x) ≡ true
first_step targets x y (one e) = (y, e)
first_step targets x y (more {y = m} w e) = first_step targets x m w

pub scan-Walk :
    (targets : String → List String) (visit : List String → String → Visit)
    (vs ts vs' : List String)
    → ((us : List String) (t : String) (us' : List String)
        → has t ts ≡ true
        → visit us t ≡ some (true, us')
        → ((x : String) × Walk targets x x))
    → scan_targets visit vs ts ≡ some (true, vs')
    → (x : String) × Walk targets x x
unfolding scan_targets
scan-Walk targets visit vs [] vs' step e = absurd (ground (arith, e))
scan-Walk targets visit vs (t ∷ ts) vs' step e = elim (Option-cases (visit vs t)) [
  | inl n ↦ absurd (ground (arith, e, n))
  | inr ((true, mid), n) ↦ step vs t mid (has_self t ts) n
  | inr ((false, mid), n) ↦
      let later : scan_targets visit mid ts ≡ some (true, vs') = ground (arith, e, n) in
      scan-Walk targets visit mid ts vs' (λ us u us' k eq. step us u us' (has_later u t ts k) eq)
        later
]

reach-step :
    (targets : String → List String) (visiting : List String) (source t : String)
    → ((y : String) → has y visiting ≡ true → Walk targets y source)
    → has t (targets source) ≡ true
    → (y : String) → has y (source ∷ visiting) ≡ true
    → Walk targets y t
reach-step targets visiting source t reach k y h = elim (has_cons y source visiting h) [
  | inl same ↦ subst (λ z. Walk targets z t) (sym same) (one k)
  | inr deeper ↦ more (reach y deeper) k
]

-- A loop that the search reports is there, when chains lead from the sources being visited.
pub visit-Walk :
    (fuel : ℕ) (targets : String → List String) (visiting vs : List String) (source : String)
    (vs' : List String)
    → ((y : String) → has y visiting ≡ true → Walk targets y source)
    → visit_source fuel targets visiting vs source ≡ some (true, vs')
    → (x : String) × Walk targets x x
unfolding visit_source
visit-Walk zero targets visiting vs source vs' reach e = absurd (ground (arith, e))
visit-Walk (suc fuel) targets visiting vs source vs' reach e =
    elim (Bool-cases (has source visiting)) [
      | inl loop ↦ (source, reach source loop)
      | inr free ↦ elim (Bool-cases (has source vs)) [
        | inl old ↦ absurd (ground (arith, e, free, old))
        | inr new ↦
            let below = visit_source fuel targets (source ∷ visiting) in
            elim (Option-cases (scan_targets below vs (targets source))) [
              | inl n ↦ absurd (ground (arith, e, free, new, n))
              | inr ((false, mid), n) ↦ absurd (ground (arith, e, free, new, n))
              | inr ((true, mid), n) ↦
                  scan-Walk targets below vs (targets source) mid
                    (λ us t us' k eq.
                      visit-Walk fuel targets (source ∷ visiting) us t us'
                        (λ y h. reach-step targets visiting source t reach k y h) eq)
                    n
            ]
      ]
    ]
