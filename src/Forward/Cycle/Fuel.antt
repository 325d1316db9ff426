-- ===== src/Forward/Cycle/Fuel.antt =====
-- The fuel of the search of application/forward.rules/rules.go, against the sources left to visit.
use Prim.Native.String.{String}
use tdl.Prelude.Flags.{has, has_later, has_self, room, room_lt, smaller}
use tdl.Prelude.{
  ℕ, zero, suc, ◌<◌, ◌≡◌, ◌≢◌, inl, inr, true, false, none, List, [], ◌∷◌, arith, Bool-cases,
  Option-cases,
}
use tdl.Forward.Cycle.{Visit, scan_targets, visit_source}

pub scan_total :
    (visit : List String → String → Visit) (vs ts : List String)
    → ((us : List String) (t : String) → has t ts ≡ true → visit us t ≢ none)
    → scan_targets visit vs ts ≢ none
unfolding scan_targets
scan_total visit vs [] step e = absurd (ground (arith, e))
scan_total visit vs (t ∷ ts) step e = elim (Option-cases (visit vs t)) [
  | inl n ↦ step vs t (has_self t ts) n
  | inr ((true, mid), n) ↦ absurd (ground (arith, e, n))
  | inr ((false, mid), n) ↦
      scan_total visit mid ts (λ us u k. step us u (has_later u t ts k)) (ground (arith, e, n))
]

pub visit_total :
    (fuel : ℕ) (targets : String → List String) (sources visiting vs : List String)
    (source : String)
    → ((x y : String) → has y (targets x) ≡ true → has x sources ≡ true)
    → room visiting sources < fuel
    → visit_source fuel targets visiting vs source ≢ none
unfolding visit_source
visit_total zero targets sources visiting vs source all lt e = absurd (ground (arith, lt))
visit_total (suc fuel) targets sources visiting vs source all lt e =
    elim (Bool-cases (has source visiting)) [
      | inl loop ↦ absurd (ground (arith, e, loop))
      | inr free ↦ elim (Bool-cases (has source vs)) [
        | inl old ↦ absurd (ground (arith, e, free, old))
        | inr new ↦
            let below = visit_source fuel targets (source ∷ visiting) in
            elim (Option-cases (scan_targets below vs (targets source))) [
              | inl n ↦
                  scan_total below vs (targets source)
                    (λ us t k. visit_total fuel targets sources (source ∷ visiting) us t all (
                      smaller fuel (room visiting sources) (room (source ∷ visiting) sources) lt
                        (room_lt source visiting sources free (all source t k))))
                    n
              | inr ((true, mid), n) ↦ absurd (ground (arith, e, free, new, n))
              | inr ((false, mid), n) ↦ absurd (ground (arith, e, free, new, n))
            ]
      ]
    ]
