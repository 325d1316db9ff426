-- ===== src/Rte/Units.antt =====
-- orderUnits of rte/reconciler.go: the order of the managed units, for their start and, reversed, their stop.
-- The map of the units has their ids and what each requires.
use Prim.Native.String.{String}
use text.Mathlib.Text.{◌==◌ as str_eq}
use text.Mathlib.TextEquality.{eq_iff}
use tdl.Prelude.{
  ◌≡◌, refl, sym, inl, inr, true, ◌||◌, List, [], ◌∷◌, if◌then◌else◌, arith, Bool-cases,
}
use tdl.Prelude.Text.{text_lt}
use tdl.Prelude.Flags.{has, has_nil}
use tdl.Rte.Order.{Walked, order_ids}
use tdl.Rte.Order.Placed.{Orders, order_ids-Orders}

abbrev pub Units : Type 0
Units = List (String × List String)

unfoldable pub requires_of : Units → String → List String
requires_of [] id = []
requires_of ((k, ds) ∷ us) id = let rest = requires_of us id in if str_eq k id then ds else rest

unfoldable pub insert_name : String → List String → List String
insert_name k [] = k ∷ []
insert_name k (n ∷ ns) = let rest = insert_name k ns in if text_lt n k then n ∷ rest else k ∷ n ∷ ns

-- The ids, sorted.
unfoldable pub names_of : Units → List String
names_of [] = []
names_of ((k, _) ∷ us) = insert_name k (names_of us)

-- orderUnits
unfoldable pub order_units : Units → Walked
unfolding requires_of names_of insert_name order_ids
order_units units = order_ids (λ id. has id (names_of units)) (requires_of units) (names_of units)

has-insert_name :
    (x k : String) (ns : List String) → has x (insert_name k ns) ≡ (str_eq x k || has x ns)
unfolding has insert_name
has-insert_name x k [] = refl
has-insert_name x k (n ∷ ns) = elim (Bool-cases (text_lt n k)) [
  | inl later ↦ rw (later, insert_name) (ground (arith, has-insert_name x k ns))
  | inr first ↦ rw (first, insert_name) refl
]

requires_of-names_of :
    (units : Units) (x y : String)
    → has y (requires_of units x) ≡ true
    → has x (names_of units) ≡ true
unfolding requires_of names_of
requires_of-names_of [] x y h = absurd (has_nil y h)
requires_of-names_of ((k, ds) ∷ us) x y h = elim (Bool-cases (str_eq k x)) [
  | inl hit ↦
      let this : k ≡ x = (eq_iff k x).0 hit in
      ground (arith, has-insert_name x k (names_of us), eq_iff x k, sym this)
  | inr miss ↦
      let deep = requires_of-names_of us x y (ground (arith, h, miss)) in
      ground (arith, has-insert_name x k (names_of us), deep)
]

-- The reconciler's order of its units ends: it has each unit once, after all that it requires, or it refuses a
-- requirement that is no unit, or a loop of requirements that is there.
pub order_units-Orders :
    (units : Units)
    → Orders
        (λ id. has id (names_of units))
        (requires_of units)
        (names_of units)
        (order_units units)
unfolding order_units
order_units-Orders units =
    order_ids-Orders (λ id. has id (names_of units)) (requires_of units) (names_of units)
      (requires_of-names_of units) (λ x y h k. k)
