-- ===== src/Rte/Assembly/Complete.antt =====
-- What a runtime that Build of rte/rte.go returns guarantees to its components.
use Prim.Native.String.{String}
use text.Mathlib.Text.{◌==◌ as str_eq}
use text.Mathlib.TextPositions.{eq_refl}
use tdl.Prelude.{
  refl, ◌∙◌, ◌↔◌, Among, ◌≡◌, ap, subst, ◌⊎◌, inl, inr, Bool, true, Option, some, List, [], ◌∷◌,
  map, arith, Bool-cases, Option-cases, Sum-cases,
}
use tdl.Prelude.Flags.{has, has_later}
use tdl.Prelude.Text.{text_lt}
use tdl.Forward.Cycle.Search.{Walk}
use tdl.Rte.Order.{Walked, out_of_fuel, unknown, cycle, ended, any_id, order_ids}
use tdl.Rte.Order.Placed.{Placed, Orders, order_ids-Orders}
use tdl.Rte.Assembly.{
  Require, Manifest, Provider, Fault, refused, unfinished, dependency_cycle, Table, find_port,
  Edges, add_components, add_all_requires, deps_at, id_of, insert_id, is_enabled, chosen, stranger,
  Assembled, finish, build_graph, build,
}
use tdl.Rte.Assembly.Ports.{IsOffered, add_components-IsOffered}
use tdl.Rte.Assembly.Needs.{Met, add_all_requires-Met}

-- Every port of the table is a component's, every requirement is met, and the order has each component once,
-- after those that it depends on.
pub record IsAssembled (ms : List Manifest) (a : Assembled) : Type 0 where
  pub offered : IsOffered ms a.providers
  pub met :
      (m : Manifest)
      → Among m ms
      → (r : Require) → Among r m.requires
      → Met a.providers a.deps m.id r
  pub placed : Placed (deps_at a.deps) [] a.order
  pub exact : (y : String) → has y a.order ≡ has y (map id_of ms)

-- The search ends, and a loop is refused for a true loop of dependencies.
abbrev pub Built : (String → Bool) → List Manifest → Fault ⊎ Assembled → Type 0
Built configures ms (inl (refused e)) = Unit {0}
Built configures ms (inl unfinished) = ⊥
Built configures ms (inl (dependency_cycle id)) =
    (table : Table) × (edges : Edges) × (add_components configures ms [] ≡ inr table)
    × (add_all_requires table ms [] ≡ inr edges)
    × ((y : String) × Walk (deps_at edges) y y)
Built configures ms (inr a) = IsAssembled ms a

Among-has : (m : Manifest) (ms : List Manifest) → Among m ms → has m.id (map id_of ms) ≡ true
unfolding has
Among-has m [] h = absurd h
Among-has m (k ∷ ks) (inl this) =
    let same_id : m.id ≡ k.id = ap id_of this in ground (arith, same_id, eq_refl k.id)
Among-has m (k ∷ ks) (inr deep) = has_later m.id k.id (map id_of ks) (Among-has m ks deep)

owner-has :
    (ms : List Manifest) (table : Table)
    → IsOffered ms table
    → (name : String) (e : Provider) → find_port name table ≡ some e
    → has e.owner (map id_of ms) ≡ true
owner-has ms table ok name e f =
    let ((m, here, same_id, _), _) = ok name e f in
    subst (λ (z : String). has z (map id_of ms) ≡ true) same_id (Among-has m ms here)

no-edges : (x y : String) → has y (deps_at [] x) ≡ true → ⊥
unfolding deps_at has
no-edges x y h = ground (arith, h)

finish-Built :
    (configures : String → Bool) (ms : List Manifest) (table : Table) (edges : Edges) (w : Walked)
    → add_components configures ms [] ≡ inr table
    → add_all_requires table ms [] ≡ inr edges
    → IsOffered ms table
    → ((m : Manifest) → Among m ms → (r : Require) → Among r m.requires → Met table edges m.id r)
    → Orders any_id (deps_at edges) (map id_of ms) w
    → Built configures ms (finish table edges w)
finish-Built configures ms table edges out_of_fuel f g ok met o = o
finish-Built configures ms table edges (unknown d) f g ok met (bad, _) =
    absurd (ground (arith, bad))
finish-Built configures ms table edges (cycle x) f g ok met o = (table, edges, f, g, o)
finish-Built configures ms table edges (ended done order) f g ok met (p, e) = record {
  offered = ok;
  met = met;
  placed = p;
  exact = e;
}

build_graph-Built :
    (configures : String → Bool) (ms : List Manifest)
    → Built configures ms (build_graph configures ms)
unfolding build_graph find_port
build_graph-Built configures ms = elim (Sum-cases (add_components configures ms [])) [
  | inl (e, f) ↦ rw (f, build_graph) tt
  | inr (table, f) ↦ elim (Sum-cases (add_all_requires table ms [])) [
    | inl (e, g) ↦ rw (f, g, build_graph) tt
    | inr (edges, g) ↦
        let ok =
          add_components-IsOffered configures ms ms [] table (λ m h. h)
            (λ name e h. absurd (ground (arith, h))) f in
        let ids = map id_of ms in
        let ((closed, _), met) =
          add_all_requires-Met table ids (owner-has ms table ok) ms [] edges
            (λ m h. Among-has m ms h) (λ x y h. absurd (no-edges x y h)) g in
        rw (f, g, build_graph)
          (finish-Built configures ms table edges (order_ids any_id (deps_at edges) ids) f g ok met
            (order_ids-Orders any_id (deps_at edges) ids (λ x y h. (closed x y h).0)
              (λ x y h _. (closed x y h).1)))
  ]
]

Among-insert_id :
    (x m : Manifest) (ms : List Manifest) → (x ≡ m) ⊎ Among x ms → Among x (insert_id m ms)
unfolding insert_id
Among-insert_id x m [] h = h
Among-insert_id x m (k ∷ ks) h = elim (Bool-cases (text_lt k.id m.id)) [
  | inr first ↦ rw (first, insert_id) h
  | inl later ↦
      rw (later, insert_id)
        (elim h [
          | inl this ↦ inr (Among-insert_id x m ks (inl this))
          | inr (inl top) ↦ inl top
          | inr (inr deep) ↦ inr (Among-insert_id x m ks (inr deep))
        ])
]

chosen-enabled :
    (enabled : Option (List String)) (ms : List Manifest) (m : Manifest)
    → Among m ms
    → is_enabled enabled m.id ≡ true
    → Among m (chosen enabled ms)
unfolding chosen
chosen-enabled enabled [] m h e = absurd h
chosen-enabled enabled (k ∷ ks) m h e = elim (Bool-cases (is_enabled enabled k.id)) [
  | inl on ↦
      rw (on, chosen)
        (Among-insert_id m k (chosen enabled ks)
          (elim h [ inl this ↦ inl this | inr deep ↦ inr (chosen-enabled enabled ks m deep e) ]))
  | inr off ↦
      rw (off, chosen)
        (elim h [
          | inl this ↦
              let same : is_enabled enabled m.id ≡ is_enabled enabled k.id =
                ap (λ (z : Manifest). is_enabled enabled z.id) this in
              absurd (ground (arith, same, off, e))
          | inr deep ↦ chosen-enabled enabled ks m deep e
        ])
]

Among-insert_id_back :
    (x m : Manifest) (ms : List Manifest) → Among x (insert_id m ms) → (x ≡ m) ⊎ Among x ms
unfolding insert_id
Among-insert_id_back x m [] h = h
Among-insert_id_back x m (k ∷ ks) h = elim (Bool-cases (text_lt k.id m.id)) [
  | inr first ↦
      let put : insert_id m (k ∷ ks) ≡ m ∷ k ∷ ks = rw (first, insert_id) refl in
      subst (Among x) put h
  | inl later ↦
      let put : insert_id m (k ∷ ks) ≡ k ∷ insert_id m ks = rw (later, insert_id) refl in
      let moved : Among x (k ∷ insert_id m ks) = subst (Among x) put h in
      elim moved [
        | inl top ↦ inr (inl top)
        | inr deep ↦ elim (Among-insert_id_back x m ks deep) [
          | inl this ↦ inl this
          | inr d ↦ inr (inr d)
        ]
      ]
]

enabled-chosen :
    (enabled : Option (List String)) (ms : List Manifest) (m : Manifest)
    → Among m (chosen enabled ms)
    → Among m ms × (is_enabled enabled m.id ≡ true)
unfolding chosen
enabled-chosen enabled [] m h = absurd h
enabled-chosen enabled (k ∷ ks) m h = elim (Bool-cases (is_enabled enabled k.id)) [
  | inr off ↦
      let put : chosen enabled (k ∷ ks) ≡ chosen enabled ks = rw (off, chosen) refl in
      let (a, e) = enabled-chosen enabled ks m (subst (Among m) put h) in (inr a, e)
  | inl on ↦
      let put : chosen enabled (k ∷ ks) ≡ insert_id k (chosen enabled ks) = rw (on, chosen) refl in
      elim (Among-insert_id_back m k (chosen enabled ks) (subst (Among m) put h)) [
        | inl this ↦ (inl this, ap (λ (z : Manifest). is_enabled enabled z.id) this ∙ on)
        | inr deep ↦ let (a, e) = enabled-chosen enabled ks m deep in (inr a, e)
      ]
]

build-outcome :
    (configures : String → Bool) (account : String) (keys : List String)
    (enabled : Option (List String)) (config_keys : List String) (entries : List Manifest)
    → Built configures
        (chosen enabled entries)
        (build configures account keys enabled config_keys entries)
unfolding build
build-outcome configures account keys enabled config_keys entries =
    elim (Bool-cases (str_eq account "")) [
      | inl none_given ↦ rw (none_given, build) tt
      | inr given ↦ elim (Option-cases (stranger (map id_of entries) keys)) [
        | inr (k, s) ↦ rw (given, s, build) tt
        | inl s ↦ elim (Option-cases (stranger (map id_of entries) config_keys)) [
          | inr (k, c) ↦ rw (given, s, c, build) tt
          | inl c ↦ rw (given, s, c, build) (build_graph-Built configures (chosen enabled entries))
        ]
      ]
    ]

-- An assembly never fails to end; when it is refused for a loop there is a loop of dependencies; and a
-- runtime that it returns has each enabled component, and no other, once in its order, each after
-- everything that it depends on, and each required port either has a provider among the enabled components
-- that fits and comes earlier, or is optional and has none.
pub build-Built :
    (configures : String → Bool) (account : String) (keys : List String)
    (enabled : Option (List String)) (config_keys : List String) (entries : List Manifest)
    → Built configures
        (chosen enabled entries)
        (build configures account keys enabled config_keys entries)
      × ((m : Manifest)
          → Among m (chosen enabled entries) ↔ (Among m entries × (is_enabled enabled m.id ≡ true)))
build-Built configures account keys enabled config_keys entries = (
  build-outcome configures account keys enabled config_keys entries,
  λ m. (enabled-chosen enabled entries m, λ h. chosen-enabled enabled entries m h.0 h.1),
)
