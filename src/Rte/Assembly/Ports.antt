-- ===== src/Rte/Assembly/Ports.antt =====
-- The two loops of Build of rte/rte.go over the components: who provides a port, and who needs it.
use Prim.Native.String.{String}
use text.Mathlib.Text.{◌==◌ as str_eq}
use text.Mathlib.TextEquality.{eq_iff}
use tdl.Prelude.{
  Among, ◌≡◌, refl, subst, inl, inr, Bool, not, some, List, [], ◌∷◌, arith, Bool-cases,
  Option-cases, Sum-cases,
}
use tdl.Rte.Assembly.{
  Port, Manifest, Provider, valid_port, Table, find_port, add_ports, add_components,
}

-- One of the components has this id and offers this port.
abbrev pub Offers : List Manifest → Provider → Type 0
Offers ms e = (m : Manifest) × Among m ms × (m.id ≡ e.owner) × Among e.port m.provides

abbrev pub IsOffered : List Manifest → Table → Type 0
IsOffered ms table =
    (name : String) (e : Provider)
    → find_port name table ≡ some e
    → Offers ms e × (e.port.name ≡ name)

IsOffered-cons :
    (ms : List Manifest) (e : Provider) (table : Table)
    → Offers ms e
    → IsOffered ms table
    → IsOffered ms (e ∷ table)
unfolding find_port
IsOffered-cons ms e table o ok name e' h = elim (Bool-cases (str_eq e.port.name name)) [
  | inl hit ↦
      let this : e ≡ e' = ground (arith, h, hit) in
      subst (λ (z : Provider). Offers ms z × (z.port.name ≡ name)) this
        (o, (eq_iff e.port.name name).0 hit)
  | inr miss ↦ ok name e' (ground (arith, h, miss))
]

add_ports-IsOffered :
    (ms : List Manifest) (m : Manifest) (ps : List Port) (table table' : Table)
    → Among m ms
    → ((p : Port) → Among p ps → Among p m.provides)
    → IsOffered ms table
    → add_ports m.id ps table ≡ inr table'
    → IsOffered ms table'
unfolding add_ports
add_ports-IsOffered ms m [] table table' here sub ok e =
    let this : table ≡ table' = ground (arith, e) in subst (IsOffered ms) this ok
add_ports-IsOffered ms m (p ∷ ps) table table' here sub ok e =
    elim (Bool-cases (not (valid_port p))) [
      | inl bad ↦ absurd (ground (arith, e, bad))
      | inr good ↦ elim (Option-cases (find_port p.name table)) [
        | inr (old, f) ↦ absurd (ground (arith, e, good, f))
        | inl f ↦
            let entry : Provider = record { owner = m.id; port = p } in
            add_ports-IsOffered ms m ps (entry ∷ table) table' here (λ q k. sub q (inr k))
              (IsOffered-cons ms entry table (m, here, refl, sub p (inl refl)) ok)
              (ground (arith, e, good, f))
      ]
    ]

pub add_components-IsOffered :
    (configures : String → Bool) (all ms : List Manifest) (table table' : Table)
    → ((m : Manifest) → Among m ms → Among m all)
    → IsOffered all table
    → add_components configures ms table ≡ inr table'
    → IsOffered all table'
unfolding add_components
add_components-IsOffered configures all [] table table' sub ok e =
    let this : table ≡ table' = ground (arith, e) in subst (IsOffered all) this ok
add_components-IsOffered configures all (m ∷ ms) table table' sub ok e =
    elim (Bool-cases (not (configures m.id))) [
      | inl bad ↦ absurd (ground (arith, e, bad))
      | inr good ↦ elim (Sum-cases (add_ports m.id m.provides table)) [
        | inl (x, f) ↦ absurd (ground (arith, e, good, f))
        | inr (mid, f) ↦
            add_components-IsOffered configures all ms mid table' (λ k h. sub k (inr h))
              (add_ports-IsOffered all m m.provides table mid (sub m (inl refl)) (λ q k. k) ok f)
              (ground (arith, e, good, f))
      ]
    ]
