-- ===== src/Rte/Assembly.antt =====
-- Build of rte/rte.go: the checks of the components and the order of their start, with Port, Require and
-- Manifest of interfaces/manifest/manifest.go. The maps `providers` and `provided` are one table. `configures`
-- says for which ids config.New accepts the values. A Go type is absent, an interface, or another type.
pub mod Ports
pub mod Needs
pub mod Complete
use Prim.Native.String.{String}
use text.Mathlib.Text.{◌==◌ as str_eq}
use tdl.Prelude.{
  Bool, true, false, not, ◌&&◌, ◌||◌, Option, none, some, List, [], ◌∷◌, ◌++◌, map, if◌then◌else◌,
  ◌⊎◌, inl, inr,
}
use tdl.Prelude.Int.{ℤ, pos, ltb_ℤ}
use tdl.Prelude.Flags.{has}
use tdl.Prelude.Text.{text_lt}
use tdl.Rte.Order.{Walked, out_of_fuel, unknown, cycle, ended, any_id, order_ids}

pub data PortType : Type 0 where
  absent : PortType
  interface_type : String → PortType
  other_type : String → PortType

pub record Port : Type 0 where
  pub name : String
  pub major : ℤ
  pub minor : ℤ
  pub type : PortType

pub record Require : Type 0 where
  pub port : Port
  pub optional : Bool

-- The part of a Manifest that Build reads.
pub record Manifest : Type 0 where
  pub id : String
  pub provides : List Port
  pub requires : List Require

abbrev pub is_interface : PortType → Bool
is_interface absent = false
is_interface (interface_type _) = true
is_interface (other_type _) = false

abbrev pub same_type : PortType → PortType → Bool
same_type absent absent = true
same_type absent (interface_type _) = false
same_type absent (other_type _) = false
same_type (interface_type a) absent = false
same_type (interface_type a) (interface_type b) = str_eq a b
same_type (interface_type a) (other_type _) = false
same_type (other_type a) absent = false
same_type (other_type a) (interface_type _) = false
same_type (other_type a) (other_type b) = str_eq a b

-- validatePort
unfoldable pub valid_port : Port → Bool
valid_port p = not (
    str_eq p.name "" || ltb_ℤ p.major (pos 1) || ltb_ℤ p.minor (pos 0) || not (is_interface p.type))

pub data Refusal : Type 0 where
  no_account : Refusal
  unknown_component : String → Refusal
  unknown_config : String → Refusal
  bad_config : String → Refusal
  bad_port : String → Refusal
  two_providers : String → Refusal
  required_twice : String → String → Refusal
  no_provider : String → String → Refusal
  incompatible : String → String → Refusal

-- The errors of Build: a check, or the search of the order.
pub data Fault : Type 0 where
  refused : Refusal → Fault
  dependency_cycle : String → Fault
  unfinished : Fault

-- An entry of providers and provided, under the name of its port.
pub record Provider : Type 0 where
  pub owner : String
  pub port : Port

abbrev pub Table : Type 0
Table = List Provider

-- The provider of a port's name.
unfoldable pub find_port : String → Table → Option Provider
find_port name [] = none
find_port name (e ∷ table) =
    let rest = find_port name table in if str_eq e.port.name name then some e else rest

-- The loop over what a component provides.
unfoldable pub add_ports : String → List Port → Table → Refusal ⊎ Table
add_ports id [] table = inr table
add_ports id (p ∷ ps) table =
    if not (valid_port p) then inl (bad_port id) else elim (find_port p.name table) [
      | some _ ↦ inl (two_providers p.name)
      | none ↦ add_ports id ps (record { owner = id; port = p } ∷ table)
    ]

-- The first loop over the components.
unfoldable pub add_components : (String → Bool) → List Manifest → Table → Refusal ⊎ Table
add_components configures [] table = inr table
add_components configures (m ∷ ms) table =
    if not (configures m.id)
    then inl (bad_config m.id)
    else elim (add_ports m.id m.provides table) [
      | inl e ↦ inl e
      | inr table' ↦ add_components configures ms table'
    ]

-- The port that a component requires, and the port that there is.
unfoldable pub is_compatible : Port → Port → Bool
is_compatible p q =
    same_type p.type q.type
    && not (ltb_ℤ p.major q.major || ltb_ℤ q.major p.major)
    && not (ltb_ℤ p.minor q.minor)

abbrev pub Edges : Type 0
Edges = List (String × String)

-- The loop over what a component requires: `deps` as pairs, the component first.
unfoldable pub add_requires : String → Table → List String → List Require → Edges → Refusal ⊎ Edges
add_requires id table seen [] edges = inr edges
add_requires id table seen (r ∷ rs) edges =
    if not (valid_port r.port)
    then inl (bad_port id)
    else if has r.port.name seen
    then inl (required_twice id r.port.name)
    else elim (find_port r.port.name table) [
      | none ↦
          if r.optional
          then add_requires id table (r.port.name ∷ seen) rs edges
          else inl (no_provider id r.port.name)
      | some e ↦
          if not (is_compatible e.port r.port)
          then inl (incompatible id r.port.name)
          else add_requires id table (r.port.name ∷ seen) rs (edges ++ ((id, e.owner) ∷ []))
    ]

-- The second loop over the components.
unfoldable pub add_all_requires : Table → List Manifest → Edges → Refusal ⊎ Edges
add_all_requires table [] edges = inr edges
add_all_requires table (m ∷ ms) edges = elim (add_requires m.id table [] m.requires edges) [
  | inl e ↦ inl e
  | inr edges' ↦ add_all_requires table ms edges'
]

-- deps[id]
unfoldable pub deps_at : Edges → String → List String
deps_at [] id = []
deps_at ((a, b) ∷ edges) id = let rest = deps_at edges id in if str_eq a id then b ∷ rest else rest

abbrev pub id_of : Manifest → String
id_of m = m.id

-- enabled == nil || enabled[id]
abbrev pub is_enabled : Option (List String) → String → Bool
is_enabled none id = true
is_enabled (some ids) id = has id ids

unfoldable pub insert_id : Manifest → List Manifest → List Manifest
insert_id m [] = m ∷ []
insert_id m (k ∷ ks) =
    let rest = insert_id m ks in if text_lt k.id m.id then k ∷ rest else m ∷ k ∷ ks

-- The enabled components, sorted by their ids.
unfoldable pub chosen : Option (List String) → List Manifest → List Manifest
chosen enabled [] = []
chosen enabled (m ∷ ms) =
    let rest = chosen enabled ms in if is_enabled enabled m.id then insert_id m rest else rest

-- The first id that no component has.
unfoldable pub stranger : List String → List String → Option String
stranger ids [] = none
stranger ids (k ∷ ks) = let rest = stranger ids ks in if has k ids then rest else some k

-- What Build has computed: `providers`, `deps` and `order`.
pub record Assembled : Type 0 where
  pub providers : Table
  pub deps : Edges
  pub order : List String

abbrev pub finish : Table → Edges → Walked → Fault ⊎ Assembled
finish table edges out_of_fuel = inl unfinished
finish table edges (unknown d) = inl unfinished
finish table edges (cycle id) = inl (dependency_cycle id)
finish table edges (ended done order) =
    inr (record { providers = table; deps = edges; order = order })

unfoldable pub build_graph : (String → Bool) → List Manifest → Fault ⊎ Assembled
unfolding add_components add_all_requires
build_graph configures ms = elim (add_components configures ms []) [
  | inl e ↦ inl (refused e)
  | inr table ↦ elim (add_all_requires table ms []) [
    | inl e ↦ inl (refused e)
    | inr edges ↦ finish table edges (order_ids any_id (deps_at edges) (map id_of ms))
  ]
]

-- Build: the account, the keys of `enabled` with those that are true, and the keys of the configurations.
unfoldable pub build :
    (String → Bool)
    → String
    → List String
    → Option (List String)
    → List String
    → List Manifest
    → Fault ⊎ Assembled
unfolding stranger chosen insert_id build_graph
build configures account keys enabled config_keys entries =
    if str_eq account ""
    then inl (refused no_account)
    else elim (stranger (map id_of entries) keys) [
      | some k ↦ inl (refused (unknown_component k))
      | none ↦ elim (stranger (map id_of entries) config_keys) [
        | some k ↦ inl (refused (unknown_config k))
        | none ↦ build_graph configures (chosen enabled entries)
      ]
    ]
