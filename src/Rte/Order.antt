-- ===== src/Rte/Order.antt =====
-- The depth-first order of dependencies in rte: the function `visit` inside Build of rte/rte.go, and the one
-- inside orderUnits of rte/reconciler.go, which also refuses a dependency that is no unit. The maps
-- `visiting` and `done` (or `visited`) are the lists of their true keys. The recursion takes fuel.
pub mod Correct
pub mod Sound
pub mod Placed
use Prim.Native.String.{String}
use tdl.Prelude.{
  ℕ, zero, suc, Bool, true, false, not, Option, none, some, List, [], ◌∷◌, ◌++◌, if◌then◌else◌,
  length,
}
use tdl.Prelude.Flags.{has}

-- How a visit ends; the last case has `done` and `order`.
pub data Walked : Type 0 where
  out_of_fuel : Walked
  unknown : String → Walked
  cycle : String → Walked
  ended : List String → List String → Walked

-- The loop over the dependencies.
unfoldable pub visit_all :
    (String → Bool)
    → (List String → List String → String → Walked)
    → List String
    → List String
    → List String
    → Walked
visit_all known visit done order [] = ended done order
visit_all known visit done order (d ∷ ds) =
    if not (known d) then unknown d else elim (visit done order d) [
      | out_of_fuel ↦ out_of_fuel
      | unknown x ↦ unknown x
      | cycle x ↦ cycle x
      | ended done' order' ↦ visit_all known visit done' order' ds
    ]

-- The end of a visit: the id is done, and the next in the order.
abbrev pub close : String → Walked → Walked
close id out_of_fuel = out_of_fuel
close id (unknown x) = unknown x
close id (cycle x) = cycle x
close id (ended done order) = ended (id ∷ done) (order ++ (id ∷ []))

-- visit
unfoldable pub visit_id :
    ℕ
    → (String → Bool)
    → (String → List String)
    → List String
    → List String
    → List String
    → String
    → Walked
visit_id zero known deps visiting done order id = out_of_fuel
visit_id (suc fuel) known deps visiting done order id =
    let below = visit_all known (visit_id fuel known deps (id ∷ visiting)) done order (deps id) in
    if has id visiting then cycle id else if has id done then ended done order else close id below

abbrev pub any_id : String → Bool
any_id id = true

-- The loop over all ids, which are known.
unfoldable pub order_ids : (String → Bool) → (String → List String) → List String → Walked
unfolding visit_all visit_id
order_ids known deps ids = visit_all any_id (visit_id (suc (length ids)) known deps []) [] [] ids
