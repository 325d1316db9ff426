-- ===== src/Forward/Cycle/Correct.antt =====
-- The whole search for a loop of forwards of application/forward.rules/rules.go, against chains of forwards.
use Prim.Native.String.{String}
use tdl.Prelude.Flags.{has, has_nil, room_nil}
use tdl.Prelude.{suc, ◌≡◌, ◌⊎◌, inl, inr, true, false, some, List, [], arith, Option-cases, length}
use tdl.Forward.Cycle.{scan_targets, visit_source, has_cycle}
use tdl.Forward.Cycle.Search.{Walk, scan-Grows, visit-Grows}
use tdl.Forward.Cycle.Loop.{no-Walk-Settled, first_step, scan-Walk, visit-Walk}
use tdl.Forward.Cycle.Fuel.{scan_total, visit_total}

-- The sources in any order: `true` with a loop of forwards, or `false` when there is none.
abbrev pub Answers : (String → List String) → List String → Type 0
Answers targets sources =
    ((has_cycle targets sources ≡ some true) × ((x : String) × Walk targets x x))
    ⊎ ((has_cycle targets sources ≡ some false) × ((x : String) → Walk targets x x → ⊥))

-- When every place with targets is among the sources, the search ends, and it reports a loop exactly
-- when some chain of forwards leads from a place back to it.
pub has_cycle_lem :
    (targets : String → List String) (sources : List String)
    → ((x y : String) → has y (targets x) ≡ true → has x sources ≡ true)
    → Answers targets sources
unfolding has_cycle
has_cycle_lem targets sources all =
    let visit = visit_source (suc (length sources)) targets [] in
    elim (Option-cases (scan_targets visit [] sources)) [
      | inl n ↦ absurd (
          scan_total visit [] sources
            (λ us t k.
              visit_total (suc (length sources)) targets sources [] us t all
                (ground (arith, room_nil sources)))
            n)
      | inr ((true, vs), n) ↦ inl (
        ground (arith, n),
        scan-Walk targets visit [] sources vs
            (λ us t us' k eq.
              visit-Walk (suc (length sources)) targets [] us t us' (λ y h. absurd (has_nil y h))
                eq)
            n,
      )
      | inr ((false, vs), n) ↦
          let (g, here) =
            scan-Grows targets [] visit
              (λ us t us' h eq. visit-Grows (suc (length sources)) targets [] us t us' h eq) []
              sources vs tt n in
          inr (
            ground (arith, n),
            λ x w.
                let (y, e) = first_step targets x x w in
                no-Walk-Settled targets vs x g.settled (here x (all x y e)) w,
          )
    ]
