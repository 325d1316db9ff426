-- ===== src/Forward/Cycle.antt =====
-- The search `cycle` in PrepareConfig of application/forward.rules/rules.go. The maps `visiting` and
-- `visited` are the lists of their true keys. The recursion takes fuel; `none` means that it ran out.
pub mod Search
pub mod Loop
pub mod Fuel
pub mod Correct
use Prim.Native.String.{String}
use text.Mathlib.Text.{◌==◌ as str_eq}
use tdl.Prelude.Flags.{has}
use tdl.Prelude.{
  ℕ, zero, suc, ◌+◌, Bool, true, false, ◌||◌, Option, none, some, List, [], ◌∷◌, if◌then◌else◌,
  length,
}

-- The result of `cycle` with the map `visited` after it.
abbrev pub Visit : Type 0
Visit = Option (Bool × List String)

-- The loop over the targets of a source.
unfoldable pub scan_targets : (List String → String → Visit) → List String → List String → Visit
scan_targets visit visited [] = some (false, visited)
scan_targets visit visited (t ∷ ts) = elim (visit visited t) [
  | none ↦ none
  | some (found, visited') ↦ elim found [
    | true ↦ some (true, visited')
    | false ↦ scan_targets visit visited' ts
  ]
]

-- The end of `cycle`: the source is visited, unless a loop was found.
abbrev pub leave : String → Visit → Visit
leave source none = none
leave source (some (true, visited)) = some (true, visited)
leave source (some (false, visited)) = some (false, source ∷ visited)

-- cycle
unfoldable pub visit_source :
    ℕ → (String → List String) → List String → List String → String → Visit
visit_source zero targets visiting visited source = none
visit_source (suc fuel) targets visiting visited source =
    let below =
      scan_targets (visit_source fuel targets (source ∷ visiting)) visited (targets source) in
    if has source visiting
    then some (true, visited)
    else if has source visited
    then some (false, visited)
    else leave source below

-- The loop over the sources.
unfoldable pub has_cycle : (String → List String) → List String → Option Bool
has_cycle targets sources =
    elim (scan_targets (visit_source (suc (length sources)) targets []) [] sources) [
      | none ↦ none
      | some (found, _) ↦ some found
    ]
